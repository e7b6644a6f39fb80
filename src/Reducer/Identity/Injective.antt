-- ===== src/Reducer/Identity/Injective.antt =====
-- The canonical encoding loses nothing, and when it is refused.
use ai_coding_training_platf.Common.{
  true, ℕ, ◌<◌, List, [], ◌∷◌, ◌++◌, length, map, Text, any_of, ◌≡◌, refl, sym, ◌∙◌, ap, arith, ◌↔◌,
}
use mathlib.Core.List.{append_assoc}
use mathlib.Core.Path.{ap₂}
use ai_coding_training_platf.Common.Result.{ok, err}
use ai_coding_training_platf.Reducer.{control_character_in_identity}
use ai_coding_training_platf.Reducer.Sha256.{big_endian}
use ai_coding_training_platf.Reducer.Identity.{
  is_control, utf8, encode_field, canonical_identity_encoding,
}

big_endian-append :
    (m n : ℕ) (xs ys : List ℕ)
    → m < 4294967296
    → n < 4294967296
    → big_endian m ++ xs ≡ big_endian n ++ ys
    → (m ≡ n) × (xs ≡ ys)
unfolding big_endian
big_endian-append m n xs ys hm hn h = ground arith

append-cancel :
    (us vs xs ys : List ℕ) → length us ≡ length vs → us ++ xs ≡ vs ++ ys → (us ≡ vs) × (xs ≡ ys)
append-cancel [] [] xs ys e h = (refl, h)
append-cancel [] (b ∷ vs) xs ys e h = absurd (omega arith)
append-cancel (a ∷ us) [] xs ys e h = absurd (omega arith)
append-cancel (a ∷ us) (b ∷ vs) xs ys e h = ground (arith, append-cancel us vs xs ys)

encode_field_ok :
    (f : Text) {part : List ℕ}
    → encode_field f ≡ ok part
    → (part ≡ big_endian (length (utf8 f)) ++ utf8 f) × (length (utf8 f) < 4294967296)
unfolding encode_field
encode_field_ok f h = ground arith

encoding-cons :
    (f : Text) (fs : List Text) {code : List ℕ}
    → canonical_identity_encoding (f ∷ fs) ≡ ok code
    → (part rest : List ℕ) × (encode_field f ≡ ok part)
      × (canonical_identity_encoding fs ≡ ok rest)
      × (code ≡ part ++ rest)
unfolding canonical_identity_encoding
encoding-cons f fs h = ground arith

-- Two lists of as many fields that have one encoding have the same UTF-8 bytes, field by field:
-- no character of a field can pass for the end of it.
pub canonical_identity_encoding-injective :
    (fs gs : List Text) {code : List ℕ}
    → length fs ≡ length gs
    → canonical_identity_encoding fs ≡ ok code
    → canonical_identity_encoding gs ≡ ok code
    → map utf8 fs ≡ map utf8 gs
canonical_identity_encoding-injective [] [] n h k = refl
canonical_identity_encoding-injective [] (g ∷ gs) n h k = absurd (omega arith)
canonical_identity_encoding-injective (f ∷ fs) [] n h k = absurd (omega arith)
canonical_identity_encoding-injective (f ∷ fs) (g ∷ gs) {code} n h k =
    let (p, r, ep, er, ec) = encoding-cons f fs h in
    let (q, s, eq, es, ed) = encoding-cons g gs k in
    let (is_p, small_p) = encode_field_ok f ep in
    let (is_q, small_q) = encode_field_ok g eq in
    let same : (big_endian (length (utf8 f)) ++ utf8 f) ++ r
        ≡ (big_endian (length (utf8 g)) ++ utf8 g) ++ s =
      cc in
    let (lengths, bodies) =
      big_endian-append (length (utf8 f)) (length (utf8 g)) (utf8 f ++ r) (utf8 g ++ s) small_p
        small_q
        (sym (append_assoc (big_endian (length (utf8 f))) (utf8 f) r)
          ∙ same
          ∙ append_assoc (big_endian (length (utf8 g))) (utf8 g) s) in
    let (heads, tails) = append-cancel (utf8 f) (utf8 g) r s lengths bodies in
    ap₂ ◌∷◌ heads
      (canonical_identity_encoding-injective fs gs (omega arith) er (es ∙ ap ok (sym tails)))

encode_field-control :
    (f : Text) → (encode_field f ≡ err control_character_in_identity) ↔ (any_of is_control f ≡ true)
unfolding encode_field
encode_field-control f = (λ h. ground arith, λ h. ground arith)
