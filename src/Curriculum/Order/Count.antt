-- ===== src/Curriculum/Order/Count.antt =====
-- How often a text stands in a list, and lists that hold the same texts.
use ai_coding_training_platf.Common.{
  Bool, true, List, [], ◌∷◌, ◌++◌, ℕ, suc, ◌+◌, ◌≤◌, Text, eq_text, eq_text_iff, eq_text_comm,
  length, ◌≡◌, refl, arith, Bool-cases, inl, inr, if◌then◌else◌, Each, ltb,
}
use ai_coding_training_platf.Common.Maps.{has}
use ai_coding_training_platf.Common.Sort.{sort, insert}

unfoldable pub count_of : Text → List Text → ℕ
count_of a [] = 0
count_of a (x ∷ xs) = let rest = count_of a xs in if eq_text x a then suc rest else rest

pub count_of-append :
    (a : Text) (xs ys : List Text) → count_of a (xs ++ ys) ≡ count_of a xs + count_of a ys
unfolding count_of
count_of-append a [] ys = omega arith
count_of-append a (x ∷ xs) ys = ground (arith, count_of-append a xs ys)

pub count_of-has : (a : Text) (xs : List Text) → has a xs ≡ ltb 0 (count_of a xs)
unfolding count_of has
count_of-has a [] = refl
count_of-has a (x ∷ xs) = ground (arith, count_of-has a xs)

module _ (before : Text → Text → Bool) where
  count_of-insert :
      (a x : Text) (xs : List Text) → count_of a (insert before x xs) ≡ count_of a (x ∷ xs)
  unfolding count_of insert
  count_of-insert a x [] = refl
  count_of-insert a x (y ∷ ys) = ground (arith, count_of-insert a x ys)

  pub count_of-sort : (a : Text) (xs : List Text) → count_of a (sort before xs) ≡ count_of a xs
  unfolding count_of sort
  count_of-sort a [] = refl
  count_of-sort a (x ∷ xs) =
      ground (arith, count_of-insert a x (sort before xs), count_of-sort a xs)

-- The texts of `xs`, counted in `ys` and added up.
unfoldable tally : List Text → List Text → ℕ
tally [] ys = 0
tally (x ∷ xs) ys = count_of x ys + tally xs ys

tally-nil : (xs : List Text) → tally xs [] ≡ 0
unfolding tally count_of
tally-nil [] = refl
tally-nil (x ∷ xs) = omega (arith, tally-nil xs)

tally-cons : (y : Text) (xs ys : List Text) → tally xs (y ∷ ys) ≡ count_of y xs + tally xs ys
unfolding tally count_of
tally-cons y [] ys = refl
tally-cons y (x ∷ xs) ys = ground (arith, tally-cons y xs ys, eq_text_comm x y)

tally-length : (xs ys : List Text) → Each (λ y. count_of y xs ≡ 1) ys → tally xs ys ≡ length ys
tally-length xs [] h = tally-nil xs
tally-length xs (y ∷ ys) h = omega (arith, tally-cons y xs ys, h.0, tally-length xs ys h.1)

tally-most : (xs ys : List Text) → ((v : Text) → count_of v ys ≤ 1) → tally xs ys ≤ length xs
unfolding tally
tally-most [] ys h = omega arith
tally-most (x ∷ xs) ys h = omega (arith, h x, tally-most xs ys h)

tally-all :
    (xs ys : List Text)
    → ((v : Text) → count_of v ys ≤ 1)
    → tally xs ys ≡ length xs
    → (v : Text) → has v xs ≡ true
    → count_of v ys ≡ 1
unfolding tally has
tally-all [] ys h e v k = absurd (ground arith)
tally-all (x ∷ xs) ys h e v k = elim (Bool-cases (eq_text x v)) [
  | inl same ↦
      let is_v = (eq_text_iff x v).0 same in
      let most = tally-most xs ys h in
      let once = h x in let one : count_of x ys ≡ 1 = omega arith in rw is_v at one
  | inr other ↦ tally-all xs ys h (omega (arith, h x, tally-most xs ys h)) v (ground arith)
]

tally-ones : (xs ys : List Text) → Each (λ x. count_of x ys ≡ 1) xs → tally xs ys ≡ length xs
unfolding tally
tally-ones [] ys h = refl
tally-ones (x ∷ xs) ys h = omega (arith, h.0, tally-ones xs ys h.1)

each_of-has :
    (Q : Text → Type 0) (ys : List Text) → ((v : Text) → has v ys ≡ true → Q v) → Each Q ys
unfolding has
each_of-has Q [] h = tt
each_of-has Q (y ∷ ys) h =
    (h y (ground (arith, eq_text_iff y y)), each_of-has Q ys (λ v k. h v (ground arith)))

-- Two lists without repetitions, one of whose texts are among the other's.
module _ (xs ys : List Text) (within : (v : Text) → count_of v ys ≤ count_of v xs)
    (distinct : (v : Text) → count_of v xs ≤ 1) where
  all_within : Each (λ y. count_of y xs ≡ 1) ys
  all_within = each_of-has _ ys (λ v k. ground (arith, within v, distinct v, count_of-has v ys))

  -- If they are equally long they hold the same texts.
  pub same_texts : length ys ≡ length xs → (v : Text) → count_of v ys ≡ count_of v xs
  same_texts e v = elim (Bool-cases (has v xs)) [
    | inl k ↦
        let full =
          tally-all xs ys (λ w. omega (arith, within w, distinct w))
            (omega (arith, tally-length xs ys all_within)) v k in
        ground (arith, within v, distinct v, count_of-has v xs)
    | inr k ↦ ground (arith, within v, count_of-has v xs)
  ]

  -- If all texts of one are in the other they are equally long.
  pub same_length : ((v : Text) → count_of v xs ≤ count_of v ys) → length ys ≡ length xs
  same_length h = omega (
    arith,
    tally-length xs ys all_within,
    tally-ones xs ys
        (each_of-has _ xs (λ v k. ground (arith, within v, distinct v, h v, count_of-has v xs))),
  )
