-- ===== src/Common/Sort.antt =====
-- The stable `sort` of arrays, by a comparison that answers whether its first argument comes first.
use mathlib.Core.Path.{◌≡◌}
use mathlib.Core.Bool.{Bool, true, false}
use mathlib.Core.List.{List, [], ◌∷◌}
use native.Mathlib.Omega.{arith}
use ai_coding_training_platf.Common.Tests.{if◌then◌else◌}

module _ {ℓ} {A : Type ℓ} (before : A → A → Bool) where
  unfoldable pub insert : A → List A → List A
  insert x [] = x ∷ []
  insert x (y ∷ ys) = let rest = insert x ys in if before y x then y ∷ rest else x ∷ y ∷ ys

  unfoldable pub sort : List A → List A
  unfolding insert
  sort [] = []
  sort (x ∷ xs) = insert x (sort xs)

  -- No element comes before the one in front of it.
  abbrev pub Follows : A → List A → Type 0
  Follows x [] = Unit
  Follows x (y ∷ ys) = before y x ≡ false

  abbrev pub IsSorted : List A → Type 0
  IsSorted [] = Unit
  IsSorted (x ∷ xs) = Follows x xs × IsSorted xs

  module _ (asymm : (a b : A) → before a b ≡ true → before b a ≡ false) where
    Follows-insert :
        (x y : A) (ys : List A) → Follows y ys → before x y ≡ false → Follows y (insert x ys)
    unfolding insert
    Follows-insert x y [] h k = k
    Follows-insert x y (z ∷ zs) h k = ground arith

    insert-IsSorted : (x : A) (ys : List A) → IsSorted ys → IsSorted (insert x ys)
    unfolding insert
    insert-IsSorted x [] h = (tt, tt)
    insert-IsSorted x (y ∷ ys) h =
        ground (arith, asymm y x, insert-IsSorted x ys h.1, Follows-insert x y ys h.0)

    pub sort-IsSorted : (xs : List A) → IsSorted (sort xs)
    unfolding sort
    sort-IsSorted [] = tt
    sort-IsSorted (x ∷ xs) = insert-IsSorted x (sort xs) (sort-IsSorted xs)
