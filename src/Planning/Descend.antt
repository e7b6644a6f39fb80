-- ===== src/Planning/Descend.antt =====
-- The searches of the selector end within their fuel.
use ai_coding_training_platf.Common.{
  Bool, true, false, not, ◌&&◌, some, List, [], ◌∷◌, ◌++◌, ℕ, zero, suc, ◌+◌, ◌≤◌, ◌<◌, Text,
  eq_text, eq_text_iff, length, ◌≡◌, refl, arith, Bool-cases, Option-cases, inl, inr, if◌then◌else◌,
  any_of, ◌||◌, Each,
}
use ai_coding_training_platf.Common.Maps.{has, has-append}
use ai_coding_training_platf.Planning.{
  CandidateTaskSelectorInput, CandidateEdge, next_of, push_new, descend, transitive_descendants,
  primary_set, interest_set, add_all,
}
use ai_coding_training_platf.Planning.Select.{goals_of}
use ai_coding_training_platf.Planning.Pool.{Goals}

-- The edges that lead out of a set.
unfoldable leading : List Text → List CandidateEdge → ℕ
leading out [] = 0
leading out (e ∷ es) =
    let rest = leading out es in if not (has e.to_stable_id out) then suc rest else rest

has-snoc : (k c : Text) (v : List Text) → has k (v ++ c ∷ []) ≡ (has k v || eq_text c k)
unfolding has
has-snoc k c v = ground (arith, has-append k v (c ∷ []))

leading-snoc :
    (out : List Text) (n : Text) (es : List CandidateEdge)
    → leading (out ++ n ∷ []) es ≤ leading out es
unfolding leading
leading-snoc out n [] = omega arith
leading-snoc out n (e ∷ es) = ground (arith, leading-snoc out n es, has-snoc e.to_stable_id n out)

abbrev is_target : Text → List CandidateEdge → Bool
is_target n es = any_of (λ e. eq_text e.to_stable_id n) es

leading-target :
    (out : List Text) (n : Text) (es : List CandidateEdge)
    → has n out ≡ false
    → is_target n es ≡ true
    → suc (leading (out ++ n ∷ []) es) ≤ leading out es
unfolding leading any_of
leading-target out n [] f t = absurd (ground arith)
leading-target out n (e ∷ es) f t = elim (Bool-cases (eq_text e.to_stable_id n)) [
  | inl same ↦
      let is_n = (eq_text_iff e.to_stable_id n).0 same in
      ground
        (arith, leading-snoc out n es, has-snoc e.to_stable_id n out, eq_text_iff n e.to_stable_id)
  | inr other ↦ ground (
    arith,
    leading-target out n es f (ground arith),
    has-snoc e.to_stable_id n out,
    eq_text_iff n e.to_stable_id,
    eq_text_iff e.to_stable_id n,
  )
]

push_new-leading :
    (es : List CandidateEdge) (ns out stack : List Text)
    → Each (λ n. is_target n es ≡ true) ns
    → length (push_new ns out stack).1 + leading (push_new ns out stack).0 es
      ≤ length stack + leading out es
unfolding push_new
push_new-leading es [] out stack h = omega arith
push_new-leading es (n ∷ ns) out stack h =
    let rest =
      push_new-leading es ns (if not (has n out) then out ++ n ∷ [] else out)
        (if not (has n out) then n ∷ stack else stack) h.1 in
    ground (arith, rest, leading-target out n es, h.0)

is_target-later :
    (n : Text) (e : CandidateEdge) (es : List CandidateEdge)
    → is_target n es ≡ true
    → is_target n (e ∷ es) ≡ true
unfolding any_of
is_target-later n e es h = ground arith

is_target-here :
    (e : CandidateEdge) (es : List CandidateEdge) → is_target e.to_stable_id (e ∷ es) ≡ true
unfolding any_of
is_target-here e es = ground (arith, eq_text_iff e.to_stable_id e.to_stable_id)

each_later :
    (e : CandidateEdge) (es : List CandidateEdge) (ns : List Text)
    → Each (λ n. is_target n es ≡ true) ns
    → Each (λ n. is_target n (e ∷ es) ≡ true) ns
each_later e es [] h = tt
each_later e es (n ∷ ns) h = (is_target-later n e es h.0, each_later e es ns h.1)

next_of-target :
    (input : CandidateTaskSelectorInput) (id : Text) (es : List CandidateEdge)
    → Each (λ n. is_target n es ≡ true) (next_of input id es)
unfolding next_of
next_of-target input id [] = tt
next_of-target input id (e ∷ es) =
    let rest = each_later e es (next_of input id es) (next_of-target input id es) in
    elim (Bool-cases
      (eq_text e.from_stable_id id && any_of (λ n. eq_text n.stable_id id) input.nodes)) [
        | inl c ↦ rw c (is_target-here e es, rest)
        | inr c ↦ rw c rest
      ]

descend-total :
    (input : CandidateTaskSelectorInput) (fuel : ℕ) (out stack : List Text)
    → length stack + leading out input.edges < fuel
    → (r : List Text) × (descend input fuel out stack ≡ some r)
unfolding descend
descend-total input zero out stack h = absurd (omega arith)
descend-total input (suc fuel) out [] h = (out, refl)
descend-total input (suc fuel) out (cur ∷ stack) h =
    let next = next_of input cur input.edges in
    let pushed = push_new next out stack in
    descend-total input fuel pushed.0 pushed.1 (
      omega
        (arith, push_new-leading input.edges next out stack (next_of-target input cur input.edges)))

leading-length : (out : List Text) (es : List CandidateEdge) → leading out es ≤ length es
unfolding leading
leading-length out [] = omega arith
leading-length out (e ∷ es) = ground (arith, leading-length out es)

transitive_descendants_total :
    (input : CandidateTaskSelectorInput) (start : Text)
    → (r : List Text) × (transitive_descendants input start ≡ some r)
unfolding transitive_descendants
transitive_descendants_total input start =
    descend-total input (suc (suc (length input.edges))) (start ∷ []) (start ∷ [])
      (omega (arith, leading-length (start ∷ []) input.edges))

interest_set-total :
    (input : CandidateTaskSelectorInput) (ids out : List Text)
    → (r : List Text) × (interest_set input ids out ≡ some r)
unfolding interest_set
interest_set-total input [] out = (out, refl)
interest_set-total input (id ∷ ids) out =
    let (found, e) = transitive_descendants_total input id in
    let (r, f) = interest_set-total input ids (add_all found out) in (r, rw (e, interest_set) f)

primary_set-total :
    (input : CandidateTaskSelectorInput) → (r : List Text) × (primary_set input ≡ some r)
unfolding primary_set
primary_set-total input = elim (Option-cases input.goal_primary_node_id) [
  | inl e ↦ ([], ground arith)
  | inr (id, e) ↦ let (r, f) = transitive_descendants_total input id in (r, ground arith)
]

-- The sets of the goals are always found.
pub goals_of-total : (input : CandidateTaskSelectorInput) → (g : Goals) × (goals_of input ≡ some g)
unfolding goals_of
goals_of-total input =
    let (p, e) = primary_set-total input in
    let (i, f) = interest_set-total input input.goal_interest_node_ids [] in
    (record { primary = p; interest = i }, ground arith)
