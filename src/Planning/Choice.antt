-- ===== src/Planning/Choice.antt =====
-- What a choice of the selector promises: allowed tasks, none of them twice.
use ai_coding_training_platf.Common.{
  Bool, true, false, Option, none, some, List, [], ◌∷◌, ◌++◌, Text, ◌≡◌, refl, subst, arith,
  Option-cases, inl, inr, Each, find_by,
}
use ai_coding_training_platf.Common.Maps.{has, add, has-add, has-append}
use ai_coding_training_platf.Planning.{
  CandidateTaskSelectorInput, PracticeTaskRef, Alternatives, chosen, Candidate,
}
use ai_coding_training_platf.Planning.Pool.{Goals}
use ai_coding_training_platf.Planning.Select.{
  ref_of, is_used, use_found, ref_found, find_warmup, find_same_goal, find_weakness, choose_from,
}
use ai_coding_training_platf.Planning.Allowed.{IsAllowed, Offered, find_each}

-- An alternative is allowed, where there is one, and its task is none of the given ones.
abbrev pub IsAlternative : CandidateTaskSelectorInput → List Text → Option PracticeTaskRef → Type 0
IsAlternative input tasks none = Unit
IsAlternative input tasks (some r) = IsAllowed input r × (has r.task_id tasks ≡ false)

-- The tasks that alternatives name.
abbrev pub task_of : Option PracticeTaskRef → List Text
task_of none = []
task_of (some r) = r.task_id ∷ []

-- What a choice promises: allowed tasks, different from each other.
pub record IsChoice (input : CandidateTaskSelectorInput) (primary : PracticeTaskRef)
    (alternatives : Alternatives) : Type 0 where
  pub primary_allowed : IsAllowed input primary
  pub warmup_allowed : IsAlternative input (primary.task_id ∷ []) alternatives.warmup
  pub same_goal_allowed :
      IsAlternative input
        (primary.task_id ∷ task_of alternatives.warmup)
        alternatives.same_goal_alternative
  pub weakness_allowed :
      IsAlternative input
        (primary.task_id
          ∷ (task_of alternatives.warmup ++ task_of alternatives.same_goal_alternative))
        alternatives.weakness_review

module _ (input : CandidateTaskSelectorInput) where
  Offered-IsAllowed : (c : Candidate) → Offered input c → IsAllowed input (ref_of c)
  Offered-IsAllowed c h = (h.0, ground arith)

  -- What a search among the rest of the pool finds.
  found-IsAlternative :
      (p : Candidate → Bool) (used tasks : List Text) (rest : List Candidate)
      → Each (Offered input) rest
      → ((c : Candidate) → p c ≡ true → is_used used c ≡ false)
      → ((t : Text) → has t used ≡ false → has t tasks ≡ false)
      → IsAlternative input tasks (ref_found (find_by p rest))
  found-IsAlternative p used tasks rest h new sub = elim (Option-cases (find_by p rest)) [
    | inl e ↦ rw e tt
    | inr (c, e) ↦
        let (offered, yes_p) = find_each (Offered input) p rest e h in
        rw e (Offered-IsAllowed c offered, sub c.task_id (ground (arith, new c yes_p)))
  ]

  used-tasks :
      (o : Option Candidate) (x : Text) (used tasks : List Text)
      → (has x used ≡ false → has x tasks ≡ false)
      → has x (use_found o used) ≡ false
      → (has x tasks ≡ false) × (has x (task_of (ref_found o)) ≡ false)
  unfolding has
  used-tasks none x used tasks h k = (h k, refl)
  used-tasks (some c) x used tasks h k = (
    h (ground (arith, has-add x c.node_id (add c.task_id used), has-add x c.task_id used)),
    ground (arith, has-add x c.node_id (add c.task_id used), has-add x c.task_id used),
  )

  same_goal_tasks :
      (w : Option Candidate) (p t : Text)
      → has t (use_found w (p ∷ [])) ≡ false
      → has t (p ∷ task_of (ref_found w)) ≡ false
  unfolding has
  same_goal_tasks w p t h = let both = used-tasks w t (p ∷ []) (p ∷ []) (λ k. k) h in ground arith

  weakness_tasks :
      (w s : Option Candidate) (p t : Text)
      → has t (use_found s (use_found w (p ∷ []))) ≡ false
      → has t (p ∷ (task_of (ref_found w) ++ task_of (ref_found s))) ≡ false
  unfolding has
  weakness_tasks w s p t h =
      let both =
        used-tasks s t (use_found w (p ∷ [])) (p ∷ task_of (ref_found w)) (same_goal_tasks w p t)
          h in
      ground (arith, has-append t (task_of (ref_found w)) (task_of (ref_found s)))

  pub choose_from-IsChoice :
      (goals : Goals) (primary : Candidate) (rest : List Candidate) {r : PracticeTaskRef}
      {a : Alternatives}
      → Each (Offered input) (primary ∷ rest)
      → choose_from input goals primary rest ≡ chosen r a
      → IsChoice input r a
  unfolding choose_from find_warmup find_same_goal find_weakness
  choose_from-IsChoice goals primary rest {r} {a} h e =
      let used = primary.task_id ∷ [] in
      let w = find_warmup used primary rest in
      let used_w = use_found w used in
      let s = find_same_goal goals used_w primary rest in
      let used_s = use_found s used_w in
      let is_r : ref_of primary ≡ r = ground arith in
      let alternatives : Alternatives = record {
        warmup = ref_found w;
        same_goal_alternative = ref_found s;
        weakness_review = ref_found (find_weakness input.abilities_by_node used_s rest);
      } in
      let is_a : alternatives ≡ a = ground arith in
      let choice : IsChoice input (ref_of primary) alternatives = record {
        primary_allowed = Offered-IsAllowed primary h.0;
        warmup_allowed = found-IsAlternative _ used used rest h.1 (λ c k. ground arith) (λ t k. k);
        same_goal_allowed =
            found-IsAlternative _ used_w (primary.task_id ∷ task_of (ref_found w)) rest h.1
              (λ c k. ground arith) (same_goal_tasks w primary.task_id);
        weakness_allowed =
            found-IsAlternative _ used_s
              (primary.task_id ∷ (task_of (ref_found w) ++ task_of (ref_found s))) rest h.1
              (λ c k. ground arith) (weakness_tasks w s primary.task_id);
      } in
      subst (λ x. IsChoice input x a) is_r
        (subst (λ x. IsChoice input (ref_of primary) x) is_a choice)
