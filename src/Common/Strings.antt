-- ===== src/Common/Strings.antt =====
-- JavaScript strings: sequences of UTF-16 code units, with `===` and `<`.
use Prim.Native.Nat.{ℕ}
use Prim.Native.Char.{code}
use Prim.Native.String.{String}
use mathlib.Core.Path.{◌≡◌, refl}
use mathlib.Core.Logic.{◌↔◌}
use mathlib.Core.Bool.{Bool, true, false, ◌&&◌}
use mathlib.Core.List.{List, [], ◌∷◌}
use native.Mathlib.Omega.{arith}
use ai_coding_training_platf.Common.Tests.{ltb, ◌==◌, if◌then◌else◌}

abbrev pub Text : Type 0
Text = List ℕ

-- The code units of a literal, for literals in the basic plane.
abbrev pub units : String → Text
units String.[] = []
units (String.◌∷◌ c s) = code c ∷ units s

-- `a === b`
unfoldable pub eq_text : Text → Text → Bool
eq_text [] [] = true
eq_text [] (y ∷ ys) = false
eq_text (x ∷ xs) [] = false
eq_text (x ∷ xs) (y ∷ ys) = (x == y) && eq_text xs ys

-- `a < b`, which compares code units
unfoldable pub lt_text : Text → Text → Bool
lt_text [] [] = false
lt_text [] (y ∷ ys) = true
lt_text (x ∷ xs) [] = false
lt_text (x ∷ xs) (y ∷ ys) = if ltb x y then true else if ltb y x then false else lt_text xs ys

pub eq_text→eq : (a b : Text) → eq_text a b ≡ true → a ≡ b
unfolding eq_text
eq_text→eq [] [] h = refl
eq_text→eq [] (y ∷ ys) h = ground arith
eq_text→eq (x ∷ xs) [] h = ground arith
eq_text→eq (x ∷ xs) (y ∷ ys) h = ground (arith, eq_text→eq xs ys)

pub eq_text_refl : (a : Text) → eq_text a a ≡ true
unfolding eq_text
eq_text_refl [] = refl
eq_text_refl (x ∷ xs) = ground (arith, eq_text_refl xs)

pub eq_text_iff : (a b : Text) → (eq_text a b ≡ true) ↔ (a ≡ b)
eq_text_iff a b = (eq_text→eq a b, λ e. rw e (eq_text_refl b))

pub eq_text_comm : (a b : Text) → eq_text a b ≡ eq_text b a
unfolding eq_text
eq_text_comm [] [] = refl
eq_text_comm [] (y ∷ ys) = refl
eq_text_comm (x ∷ xs) [] = refl
eq_text_comm (x ∷ xs) (y ∷ ys) = ground (arith, eq_text_comm xs ys)

pub lt_text_irrefl : (a : Text) → lt_text a a ≡ false
unfolding lt_text
lt_text_irrefl [] = refl
lt_text_irrefl (x ∷ xs) = ground (arith, lt_text_irrefl xs)

pub lt_text-asymm : (a b : Text) → lt_text a b ≡ true → lt_text b a ≡ false
unfolding lt_text
lt_text-asymm [] [] h = refl
lt_text-asymm [] (y ∷ ys) h = refl
lt_text-asymm (x ∷ xs) [] h = ground arith
lt_text-asymm (x ∷ xs) (y ∷ ys) h = ground (arith, lt_text-asymm xs ys)

pub lt_text_trans : (a b c : Text) → lt_text a b ≡ true → lt_text b c ≡ true → lt_text a c ≡ true
unfolding lt_text
lt_text_trans [] [] c h k = ground arith
lt_text_trans [] (y ∷ ys) [] h k = ground arith
lt_text_trans [] (y ∷ ys) (z ∷ zs) h k = refl
lt_text_trans (x ∷ xs) [] c h k = ground arith
lt_text_trans (x ∷ xs) (y ∷ ys) [] h k = ground arith
lt_text_trans (x ∷ xs) (y ∷ ys) (z ∷ zs) h k = ground (arith, lt_text_trans xs ys zs)

pub lt_text-total : (a b : Text) → lt_text a b ≡ false → lt_text b a ≡ false → a ≡ b
unfolding lt_text
lt_text-total [] [] h k = refl
lt_text-total [] (y ∷ ys) h k = ground arith
lt_text-total (x ∷ xs) [] h k = ground arith
lt_text-total (x ∷ xs) (y ∷ ys) h k = ground (arith, lt_text-total xs ys)
