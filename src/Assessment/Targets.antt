-- ===== src/Assessment/Targets.antt =====
-- The rank a node may aim at, and what the order of the facts leaves unchanged.
use ai_coding_training_platf.Common.{
  Bool, true, ◌&&◌, List, [], ◌∷◌, ℕ, ◌≤◌, ◌≡◌, refl, arith, filter_by, any_of,
}
use ai_coding_training_platf.Common.Result.{ok}
use ai_coding_training_platf.Common.Sort.{sort, insert}
use ai_coding_training_platf.Curriculum.Eligibility.{AbilityLevel, unassessed, l1, l2, l3, l4, l5}
use ai_coding_training_platf.Assessment.Ability.{
  EvidenceAbilityFact, AbilityHost, rank, level_at, any, target_of, has_stable_independent_evidence,
}

module _ {A : Type 0} where
  pub any-filter : (p : A → Bool) (xs : List A) → any (filter_by p xs) ≡ any_of p xs
  unfolding filter_by any_of
  any-filter p [] = refl
  any-filter p (x ∷ xs) = ground (arith, any-filter p xs)

  pub any_of-filter :
      (p q : A → Bool) (xs : List A) → any_of q (filter_by p xs) ≡ any_of (λ x. p x && q x) xs
  unfolding filter_by any_of
  any_of-filter p q [] = refl
  any_of-filter p q (x ∷ xs) = ground (arith, any_of-filter p q xs)

  any_of-insert :
      (before : A → A → Bool) (p : A → Bool) (x : A) (xs : List A)
      → any_of p (insert before x xs) ≡ any_of p (x ∷ xs)
  unfolding insert any_of
  any_of-insert before p x [] = refl
  any_of-insert before p x (y ∷ ys) = ground (arith, any_of-insert before p x ys)

  pub any_of-sort :
      (before : A → A → Bool) (p : A → Bool) (xs : List A) → any_of p (sort before xs) ≡ any_of p xs
  unfolding sort any_of
  any_of-sort before p [] = refl
  any_of-sort before p (x ∷ xs) =
      ground (arith, any_of-insert before p x (sort before xs), any_of-sort before p xs)

pub rank-most : (l : AbilityLevel) → rank l ≤ 5
unfolding rank
rank-most unassessed = omega arith
rank-most l1 = omega arith
rank-most l2 = omega arith
rank-most l3 = omega arith
rank-most l4 = omega arith
rank-most l5 = omega arith

pub rank-level_at : (n : ℕ) → n ≤ 5 → rank (level_at n) ≡ n
unfolding rank level_at
rank-level_at n h = ground arith

pub target_of-independent :
    (transfer stable : Bool) (independent assisted productive facts : List EvidenceAbilityFact)
    → (transfer ≡ true → any independent ≡ true)
    → (stable ≡ true → any independent ≡ true)
    → 3 ≤ rank (target_of transfer stable independent assisted productive facts).0
    → any independent ≡ true
unfolding target_of rank
target_of-independent t s independent assisted productive facts ht hs h = ground arith

pub target_of-transfer :
    (transfer stable : Bool) (independent assisted productive facts : List EvidenceAbilityFact)
    → 5 ≤ rank (target_of transfer stable independent assisted productive facts).0
    → transfer ≡ true
unfolding target_of rank
target_of-transfer t s independent assisted productive facts h = ground arith

pub stable-any :
    (host : AbilityHost) (fs : List EvidenceAbilityFact)
    → has_stable_independent_evidence host fs ≡ ok true
    → any fs ≡ true
unfolding has_stable_independent_evidence
stable-any host [] h = absurd (ground arith)
stable-any host (f ∷ fs) h = refl

pub any_of-any :
    (p : EvidenceAbilityFact → Bool) (fs : List EvidenceAbilityFact)
    → any_of p fs ≡ true
    → any fs ≡ true
unfolding any_of
any_of-any p [] h = h
any_of-any p (f ∷ fs) h = refl
