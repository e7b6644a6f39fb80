-- ===== src/Verdicts/Joined.antt =====
-- A candidate, its request and the confirmed record that they are joined with.
use ai_coding_training_platf.Common.{
  filter_by-OneOf, true, false, none, some, List, [], ◌∷◌, Text, eq_text_iff, filter_by, OneOf, ◌≡◌,
  ◌⊎◌, inl, inr, refl, sym, ◌∙◌, ap, arith, Option-cases, List-cases, subst,
}
use ai_coding_training_platf.Domain.{leetcode, eq_platform_iff}
use ai_coding_training_platf.Verdicts.{
  TransientE1Lifecycle, TransientVerdictCandidate, ConfirmedSubmissionRecord,
  VerdictCandidateResolution, resolution, terminal_result, resolution_of, is_before, is_at_most,
}
use ai_coding_training_platf.Verdicts.Request.{
  same_candidate_context, is_answered, matched_id, JoinResult, no_record, ambiguous_record, joined,
  join_confirmed_record, is_live,
}
use ai_coding_training_platf.Verdicts.Reconcile.{
  legacy_record, legacy_latest, armed_record, armed_lifecycle,
}
use ai_coding_training_platf.Verdicts.Latest.{Clock, received_ms, single}

-- `record` is the only confirmed submission of its key that is not finalized.
abbrev pub IsSole : List ConfirmedSubmissionRecord → ConfirmedSubmissionRecord → Type 0
IsSole confirmed r = filter_by (is_live r.storage_key) confirmed ≡ r ∷ []

JoinResult-cases :
    (j : JoinResult)
    → (j ≡ no_record)
      ⊎ ((j ≡ ambiguous_record) ⊎ ((r : ConfirmedSubmissionRecord) × (j ≡ joined r)))
JoinResult-cases no_record = inl refl
JoinResult-cases ambiguous_record = inr (inl refl)
JoinResult-cases (joined r) = inr (inr (r, refl))

module _ (clock : Clock) (ls : List TransientE1Lifecycle)
    (confirmed : List ConfirmedSubmissionRecord) where
  -- The request `l` of the candidate's document was answered, matched with the record's key, and
  -- made before the verdict was seen, which is not before the confirmation.
  pub record IsJustified (c : TransientVerdictCandidate) (l : TransientE1Lifecycle)
      (r : ConfirmedSubmissionRecord) : Type 0 where
    pub is_record : OneOf (λ x. x ≡ r) confirmed
    pub is_request : OneOf (λ x. x ≡ l) ls
    pub sole : IsSole confirmed r
    pub live : r.finalized_at ≡ none
    pub is_matched : matched_id l ≡ some r.storage_key
    pub is_platform : r.platform ≡ leetcode
    pub same_problem : r.problem_external_id ≡ c.problem_external_id
    pub in_context : same_candidate_context l.evidence c ≡ true
    pub is_completed : is_answered l.evidence ≡ true
    pub requested : is_at_most (received_ms clock l) (clock.date_parse c.observed_at) ≡ true
    pub observed :
        is_before (clock.date_parse c.observed_at) (clock.date_parse r.confirmed_at) ≡ false
    pub of_candidate : (id : Text) → c.submit_request_id ≡ some id → l.evidence.request_id ≡ id

  -- What the two paths establish of a request before they read the record.
  pub record IsRequest (c : TransientVerdictCandidate) (l : TransientE1Lifecycle) : Type 0 where
    pub is_request : OneOf (λ x. x ≡ l) ls
    pub in_context : same_candidate_context l.evidence c ≡ true
    pub is_completed : is_answered l.evidence ≡ true
    pub requested : is_at_most (received_ms clock l) (clock.date_parse c.observed_at) ≡ true
    pub of_candidate : (id : Text) → c.submit_request_id ≡ some id → l.evidence.request_id ≡ id

  abbrev pub Justifies : TransientVerdictCandidate → VerdictCandidateResolution → Type 0
  Justifies c res =
      (l : TransientE1Lifecycle) × (r : ConfirmedSubmissionRecord) × IsJustified c l r
      × (res ≡ resolution_of c r)

  join-joined :
      (id : Text) {r : ConfirmedSubmissionRecord}
      → join_confirmed_record confirmed id ≡ joined r
      → filter_by (is_live id) confirmed ≡ r ∷ []
  unfolding join_confirmed_record
  join-joined id {r} h = elim (List-cases (filter_by (is_live id) confirmed)) [
    | inl e ↦ absurd (ground (arith, e))
    | inr (x, rest, e) ↦ elim (List-cases rest) [
      | inl e' ↦ ground (arith, e, e')
      | inr (y, more, e') ↦ absurd (ground (arith, e, e'))
    ]
  ]

  justify :
      (c : TransientVerdictCandidate) (l : TransientE1Lifecycle) (id : Text)
      (r : ConfirmedSubmissionRecord)
      → IsRequest c l
      → matched_id l ≡ some id
      → join_confirmed_record confirmed id ≡ joined r
      → r.platform ≡ leetcode
      → r.problem_external_id ≡ c.problem_external_id
      → is_before (clock.date_parse c.observed_at) (clock.date_parse r.confirmed_at) ≡ false
      → IsJustified c l r
  justify c l id r q m j p s o =
      let alone = join-joined id j in
      let found = filter_by-OneOf (is_live id) r confirmed (rw alone (inl refl)) in
      let key : r.storage_key ≡ id = ground (arith, eq_text_iff r.storage_key id, found.1) in
      record {
        is_record = found.0;
        is_request = q.is_request;
        sole = subst (λ k. filter_by (is_live k) confirmed ≡ r ∷ []) (sym key) alone;
        live = ground (arith, found.1);
        is_matched = m ∙ ap some (sym key);
        is_platform = p;
        same_problem = s;
        in_context = q.in_context;
        is_completed = q.is_completed;
        requested = q.requested;
        observed = o;
        of_candidate = q.of_candidate;
      }

  legacy_record-resolution :
      (c : TransientVerdictCandidate) (id : Text) (r : ConfirmedSubmissionRecord)
      {res : VerdictCandidateResolution}
      → legacy_record clock c id r ≡ resolution res
      → (r.platform ≡ leetcode)
        × (r.problem_external_id ≡ c.problem_external_id)
        × (is_before (clock.date_parse c.observed_at) (clock.date_parse r.confirmed_at) ≡ false)
        × (res ≡ resolution_of c r)
  unfolding legacy_record terminal_result
  legacy_record-resolution c id r h = ground (
    arith,
    eq_platform_iff r.platform leetcode,
    eq_text_iff r.problem_external_id c.problem_external_id,
  )

  armed_record-resolution :
      (c : TransientVerdictCandidate) (l : TransientE1Lifecycle) (id : Text)
      (r : ConfirmedSubmissionRecord) {res : VerdictCandidateResolution}
      → armed_record clock c l id r ≡ resolution res
      → (r.platform ≡ leetcode)
        × (r.problem_external_id ≡ c.problem_external_id)
        × (is_before (clock.date_parse c.observed_at) (clock.date_parse r.confirmed_at) ≡ false)
        × (res ≡ resolution_of c r)
  unfolding armed_record terminal_result
  armed_record-resolution c l id r h = ground (
    arith,
    eq_platform_iff r.platform leetcode,
    eq_text_iff r.problem_external_id c.problem_external_id,
  )

  pub legacy_latest-Justifies :
      (c : TransientVerdictCandidate) (l : TransientE1Lifecycle) {res : VerdictCandidateResolution}
      → IsRequest c l
      → legacy_latest clock c confirmed (single l) ≡ resolution res
      → Justifies c res
  unfolding legacy_latest terminal_result
  legacy_latest-Justifies c l {res} q h = elim (Option-cases (matched_id l)) [
    | inl m ↦ absurd (ground (arith, m))
    | inr (id, m) ↦ elim (JoinResult-cases (join_confirmed_record confirmed id)) [
      | inl j ↦ absurd (ground (arith, m, j))
      | inr (inl j) ↦ absurd (ground (arith, m, j))
      | inr (inr (r, j)) ↦
          let k = legacy_record-resolution c id r {res = res} (ground (arith, m, j)) in
          (l, r, justify c l id r q m j k.0 k.1 k.2, k.3)
    ]
  ]

  pub armed_lifecycle-Justifies :
      (c : TransientVerdictCandidate) (l : TransientE1Lifecycle) {res : VerdictCandidateResolution}
      → OneOf (λ x. x ≡ l) ls
      → ((id : Text) → c.submit_request_id ≡ some id → l.evidence.request_id ≡ id)
      → armed_lifecycle clock c confirmed l ≡ resolution res
      → Justifies c res
  unfolding armed_lifecycle terminal_result
  armed_lifecycle-Justifies c l {res} found same h = elim (Option-cases (matched_id l)) [
    | inl m ↦ absurd (ground (arith, m))
    | inr (id, m) ↦ elim (JoinResult-cases (join_confirmed_record confirmed id)) [
      | inl j ↦ absurd (ground (arith, m, j))
      | inr (inl j) ↦ absurd (ground (arith, m, j))
      | inr (inr (r, j)) ↦
          let k = armed_record-resolution c l id r {res = res} (ground (arith, m, j)) in
          let q : IsRequest c l = record {
            is_request = found;
            in_context = ground (arith, m, j);
            is_completed = ground (arith, m, j);
            requested = ground (arith, m, j);
            of_candidate = same;
          } in
          (l, r, justify c l id r q m j k.0 k.1 k.2, k.3)
    ]
  ]
