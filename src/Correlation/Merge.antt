-- ===== src/Correlation/Merge.antt =====
-- How two observations of one request merge in `mergeE1Evidence`, whatever order they come in.
use ai_coding_training_platf.Common.{
  Option, none, some, ℕ, ltb, ◌≡◌, refl, arith, Text, lt_text, lt_text-asymm, lt_text-total, true,
  ◌≢◌, if◌then◌else◌,
}
use ai_coding_training_platf.Reducer.{E1RequestObserved}
use ai_coding_training_platf.Correlation.{merge_e1_evidence, pick_field}

pick_field_comm {ℓ} :
    {A : Type ℓ} (a b : Option A) (m n : ℕ) → m ≢ n → pick_field a b m n ≡ pick_field b a n m
unfolding pick_field
pick_field_comm none none m n h = refl
pick_field_comm (some a) none m n h = refl
pick_field_comm none (some b) m n h = refl
pick_field_comm (some a) (some b) m n h = ground arith

earlier_comm : (a b : Text) → (if lt_text a b then a else b) ≡ (if lt_text b a then b else a)
earlier_comm a b = ground (arith, lt_text-asymm a b, lt_text-asymm b a, lt_text-total a b)

-- Two observations of a request with different time stamps merge into the same evidence in
-- either order.
pub merge_e1_evidence_comm :
    (a b : E1RequestObserved)
    → a.api_time_stamp ≢ b.api_time_stamp
    → merge_e1_evidence a b ≡ merge_e1_evidence b a
unfolding merge_e1_evidence
merge_e1_evidence_comm a b h = ground (
  arith,
  earlier_comm a.base.received_at b.base.received_at,
  pick_field_comm a.status_code b.status_code a.api_time_stamp b.api_time_stamp h,
  pick_field_comm a.redirect_endpoint_key b.redirect_endpoint_key a.api_time_stamp b.api_time_stamp
      h,
)

-- Three observations of a request at growing times, the last without a status: merged in order of
-- time the status is that of the second, which is the later one that has a status; with the last
-- two exchanged it is that of the first.
pub merge_e1_evidence-out_of_order :
    (first second third : E1RequestObserved) (x y : ℕ)
    → ltb first.api_time_stamp second.api_time_stamp ≡ true
    → ltb second.api_time_stamp third.api_time_stamp ≡ true
    → first.status_code ≡ some x
    → second.status_code ≡ some y
    → third.status_code ≡ none
    → ((merge_e1_evidence (merge_e1_evidence first second) third).status_code ≡ some y)
      × ((merge_e1_evidence (merge_e1_evidence first third) second).status_code ≡ some x)
unfolding merge_e1_evidence pick_field
merge_e1_evidence-out_of_order first second third x y p q a b c = (ground arith, ground arith)
