-- ===== src/Common/Maps.antt =====
-- JavaScript maps and sets with string keys, as association lists in the order of insertion.
use mathlib.Core.Path.{◌≡◌, refl}
use mathlib.Core.Bool.{Bool, false, ◌||◌}
use mathlib.Core.Option.{Option, none, some}
use mathlib.Core.List.{List, [], ◌∷◌, ◌++◌}
use native.Mathlib.Omega.{arith}
use mathlib.Core.Path.{sym, ◌∙◌, ap}
use mathlib.Core.Logic.{inl, inr}
use ai_coding_training_platf.Common.Tests.{if◌then◌else◌, Bool-cases}
use ai_coding_training_platf.Common.Lists.{Each, OneOf}
use ai_coding_training_platf.Common.Strings.{Text, eq_text, eq_text_iff, eq_text_comm, eq_text_refl}

-- `set.has(a)`
unfoldable pub has : Text → List Text → Bool
has a [] = false
has a (x ∷ xs) = eq_text x a || has a xs

-- `set.add(a)`
unfoldable pub add : Text → List Text → List Text
add a xs = if has a xs then xs else xs ++ a ∷ []

pub has-append : (a : Text) (xs ys : List Text) → has a (xs ++ ys) ≡ (has a xs || has a ys)
unfolding has
has-append a [] ys = refl
has-append a (x ∷ xs) ys = ground (arith, has-append a xs ys)

pub has-add : (a b : Text) (xs : List Text) → has a (add b xs) ≡ (eq_text b a || has a xs)
unfolding has add
has-add a b xs = ground (arith, has-append a xs (b ∷ []), eq_text_iff b a)

module _ {ℓ} {V : Type ℓ} where
  -- `map.get(k)`
  unfoldable pub get : Text → List (Text × V) → Option V
  get k [] = none
  get k ((j, v) ∷ m) = if eq_text j k then some v else get k m

  -- `map.set(k, v)`
  unfoldable pub put : Text → V → List (Text × V) → List (Text × V)
  put k v [] = (k, v) ∷ []
  put k v ((j, w) ∷ m) = if eq_text j k then (k, v) ∷ m else (j, w) ∷ put k v m

  pub get-put :
      (k j : Text) (v : V) (m : List (Text × V))
      → get j (put k v m) ≡ (if eq_text k j then some v else get j m)
  unfolding get put
  get-put k j v [] = refl
  get-put k j v ((i, w) ∷ m) =
      ground (arith, eq_text_iff k j, eq_text_iff i k, eq_text_iff i j, get-put k j v m)

  -- No key stands twice.
  abbrev pub Unique : List (Text × V) → Type ℓ
  Unique [] = Unit
  Unique ((k, v) ∷ m) = (get k m ≡ none) × Unique m

  pub put-Unique : (k : Text) (v : V) (m : List (Text × V)) → Unique m → Unique (put k v m)
  unfolding get put
  put-Unique k v [] u = (refl, tt)
  put-Unique k v ((j, w) ∷ m) u = elim (Bool-cases (eq_text j k)) [
    | inl e ↦ let same = (eq_text_iff j k).0 e in rw e (rw same at u.0, u.1)
    | inr e ↦
        let other = eq_text_comm k j ∙ e in
        rw e (get-put k j v m ∙ rw other u.0, put-Unique k v m u.1)
  ]

module _ {V : Type 0} where
  pub put-Each :
      (P : Text × V → Type 0) (k : Text) (v : V) (m : List (Text × V))
      → P (k, v)
      → Each P m
      → Each P (put k v m)
  unfolding put
  put-Each P k v [] p h = (p, tt)
  put-Each P k v ((j, w) ∷ m) p h = elim (Bool-cases (eq_text j k)) [
    | inl e ↦ rw e (p, h.1)
    | inr e ↦ rw e (h.0, put-Each P k v m p h.1)
  ]

  pub get-Each :
      (P : Text × V → Type 0) (k : Text) (m : List (Text × V)) {v : V}
      → get k m ≡ some v
      → Each P m
      → P (k, v)
  unfolding get
  get-Each P k [] e h = absurd (ground arith)
  get-Each P k ((j, w) ∷ m) {v} e h = elim (Bool-cases (eq_text j k)) [
    | inl t ↦
        let same = (eq_text_iff j k).0 t in
        let is_v : w ≡ v = ground arith in rw (sym same, sym is_v) h.0
    | inr t ↦ get-Each P k m {v = v} (rw t at e) h.1
  ]

  -- A pair of a map without repeated keys is what the map gives for its key.
  pub get-OneOf :
      (k : Text) (v : V) (m : List (Text × V))
      → Unique m
      → OneOf (λ x. x ≡ (k, v)) m
      → get k m ≡ some v
  unfolding get
  get-OneOf k v [] u h = absurd h
  get-OneOf k v ((j, w) ∷ m) u (inl h) = rw (ap (λ x. x.0) h, ap (λ x. x.1) h, eq_text_refl k) refl
  get-OneOf k v ((j, w) ∷ m) u (inr h) = elim (Bool-cases (eq_text j k)) [
    | inl t ↦
        let same = (eq_text_iff j k).0 t in
        let stored = get-OneOf k v m u.1 h in absurd (ground arith)
    | inr t ↦ rw t (get-OneOf k v m u.1 h)
  ]
