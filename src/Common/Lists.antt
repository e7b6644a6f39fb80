-- ===== src/Common/Lists.antt =====
-- Lists over the native numbers, and the array methods that take a Boolean test.
use Prim.Native.Nat.{ℕ, zero, suc, ◌+◌}
use mathlib.Core.Path.{◌≡◌, refl, subst}
use mathlib.Core.Logic.{◌⊎◌, inl, inr}
use mathlib.Core.Bool.{Bool, true, false, ◌||◌}
use mathlib.Core.Option.{Option, none, some}
use mathlib.Core.List.{List, [], ◌∷◌, ◌++◌}
use native.Mathlib.Omega.{arith}
use ai_coding_training_platf.Common.Tests.{if◌then◌else◌, Bool-cases}

module _ {ℓ} {A : Type ℓ} where
  abbrev pub length : List A → ℕ
  length [] = 0
  length (x ∷ xs) = suc (length xs)

  pub length-append : (xs ys : List A) → length (xs ++ ys) ≡ length xs + length ys
  length-append [] ys = omega arith
  length-append (x ∷ xs) ys = omega (arith, length-append xs ys)

  -- `xs.filter(p)`
  unfoldable pub filter_by : (A → Bool) → List A → List A
  filter_by p [] = []
  filter_by p (x ∷ xs) = let rest = filter_by p xs in if p x then x ∷ rest else rest

  -- `xs.find(p)`
  unfoldable pub find_by : (A → Bool) → List A → Option A
  find_by p [] = none
  find_by p (x ∷ xs) = if p x then some x else find_by p xs

  -- `xs.some(p)`
  unfoldable pub any_of : (A → Bool) → List A → Bool
  any_of p [] = false
  any_of p (x ∷ xs) = p x || any_of p xs

abbrev pub Each {ℓ κ} : {A : Type ℓ} → (A → Type κ) → List A → Type κ
Each P [] = Unit
Each P (x ∷ xs) = P x × Each P xs

abbrev pub OneOf {ℓ} : {A : Type ℓ} → (A → Type 0) → List A → Type 0
OneOf P [] = ⊥
OneOf P (x ∷ xs) = P x ⊎ OneOf P xs

module _ {A : Type 0} where
  pub Each-self : (xs : List A) → Each (λ x. OneOf (λ y. y ≡ x) xs) xs
  Each-self [] = tt
  Each-self (x ∷ xs) = (inl refl, Each-weaken (λ y h. inr h) xs (Each-self xs))
    where
      Each-weaken :
          {P Q : A → Type 0} → ((y : A) → P y → Q y) → (ys : List A) → Each P ys → Each Q ys
      Each-weaken f [] h = tt
      Each-weaken f (y ∷ ys) h = (f y h.0, Each-weaken f ys h.1)

  pub filter_by-OneOf :
      (p : A → Bool) (a : A) (xs : List A)
      → OneOf (λ x. x ≡ a) (filter_by p xs)
      → OneOf (λ x. x ≡ a) xs × (p a ≡ true)
  unfolding filter_by
  filter_by-OneOf p a [] h = absurd h
  filter_by-OneOf p a (x ∷ xs) h = elim (Bool-cases (p x)) [
    | inl e ↦
        elim (let k : (x ≡ a) ⊎ OneOf (λ y. y ≡ a) (filter_by p xs) = rw (e, filter_by) at h in k) [
          | inl same ↦ (inl same, subst (λ y. p y ≡ true) same e)
          | inr later ↦ let k = filter_by-OneOf p a xs later in (inr k.0, k.1)
        ]
    | inr e ↦ let k = filter_by-OneOf p a xs (rw (e, filter_by) at h) in (inr k.0, k.1)
  ]

  module _ (P : A → Type 0) where
    pub filter_by-Each : (p : A → Bool) (xs : List A) → Each P xs → Each P (filter_by p xs)
    unfolding filter_by
    filter_by-Each p [] h = tt
    filter_by-Each p (x ∷ xs) h = elim (Bool-cases (p x)) [
      | inl e ↦ rw e (h.0, filter_by-Each p xs h.1)
      | inr e ↦ rw e (filter_by-Each p xs h.1)
    ]

    pub Each-append : (xs ys : List A) → Each P xs → Each P ys → Each P (xs ++ ys)
    Each-append [] ys h k = k
    Each-append (x ∷ xs) ys h k = (h.0, Each-append xs ys h.1 k)

-- `xs.slice(0, n)`
unfoldable pub take {ℓ} : {A : Type ℓ} → ℕ → List A → List A
take zero xs = []
take (suc n) [] = []
take (suc n) (x ∷ xs) = x ∷ take n xs
