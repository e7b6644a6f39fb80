-- ===== src/Planning/Contract.antt =====
-- What a choice of the selector and a daily plan promise.
use ai_coding_training_platf.Common.{
  Bool, true, false, not, ◌&&◌, Option, none, some, List, [], ◌∷◌, Text, eq_text, length, ◌≡◌, ◌≢◌,
  refl, ap, ◌∙◌, subst, arith, Bool-cases, inl, inr, ◌⊎◌, ◌↔◌, Each, filter_by, ltb,
}
use ai_coding_training_platf.Common.Maps.{has}
use ai_coding_training_platf.Common.Sort.{sort, insert}
use ai_coding_training_platf.Planning.{
  CandidateTaskSelectorInput, PracticeTaskRef, Alternatives, CandidateTaskSelectorResult, chosen,
  no_candidate, Candidate, eligible_nodes,
}
use ai_coding_training_platf.Planning.Pool.{
  Goals, candidates, without_recent, comes_before, pool_of, most_recent,
}
use ai_coding_training_platf.Planning.Select.{choose_from, choose, goals_of, select_candidate_task}
use ai_coding_training_platf.Planning.Generate.{
  DailyMode, PlanGeneratorOutput, plan_from, generate_plan, safe_fallback, no_alternatives,
}
use ai_coding_training_platf.Planning.Descend.{goals_of-total}
use ai_coding_training_platf.Planning.Allowed.{pool_each, Offered}
use ai_coding_training_platf.Planning.Choice.{IsChoice, choose_from-IsChoice}

choose-IsChoice :
    (input : CandidateTaskSelectorInput) (goals : Goals) (pool : List Candidate)
    {r : PracticeTaskRef} {a : Alternatives}
    → Each (Offered input) pool
    → choose input goals pool ≡ chosen r a
    → IsChoice input r a
unfolding choose
choose-IsChoice input goals [] h e = absurd (ground arith)
choose-IsChoice input goals (p ∷ rest) h e = choose_from-IsChoice input goals p rest h e

-- The primary task and each alternative that are chosen are tasks of given, eligible nodes that
-- the learner has not skipped, and no task is offered twice.
pub select_candidate_task-IsChoice :
    (input : CandidateTaskSelectorInput) {r : PracticeTaskRef} {a : Alternatives}
    → select_candidate_task input ≡ some (chosen r a)
    → IsChoice input r a
unfolding select_candidate_task
select_candidate_task-IsChoice input {r} {a} h =
    let (goals, e) = goals_of-total input in
    choose-IsChoice input goals (pool_of input goals) {r = r} {a = a} (pool_each input goals)
      (ground arith)

-- A plan is what the selector chose, or, exactly if it chose nothing, the safe fallback.
abbrev pub IsPlan : CandidateTaskSelectorInput → PlanGeneratorOutput → Type 0
IsPlan input o =
    ((o.is_fallback ≡ false)
      × (select_candidate_task input ≡ some (chosen o.primary o.alternatives))
      × IsChoice input o.primary o.alternatives)
    ⊎ ((o.is_fallback ≡ true)
        × ((reason : Text) × (select_candidate_task input ≡ some (no_candidate reason)))
        × (o.primary ≡ safe_fallback)
        × (o.alternatives ≡ no_alternatives))

plan_from-IsPlan :
    (input : CandidateTaskSelectorInput) (mode : DailyMode) (result : CandidateTaskSelectorResult)
    → select_candidate_task input ≡ some result
    → IsPlan input (plan_from mode result)
unfolding plan_from
plan_from-IsPlan input mode (chosen r a) h = inl (refl, h, select_candidate_task-IsChoice input h)
plan_from-IsPlan input mode (no_candidate reason) h = inr (refl, (reason, h), refl, refl)

plan_from-mode :
    (mode : DailyMode) (result : CandidateTaskSelectorResult) → (plan_from mode result).mode ≡ mode
unfolding plan_from
plan_from-mode mode (chosen r a) = refl
plan_from-mode mode (no_candidate reason) = refl

-- For every input a plan is generated, in the given mode: the tasks that the selector chooses, which
-- are allowed and differ, and if it chooses none the safe fallback without alternatives.
pub generate_plan-IsPlan :
    (input : CandidateTaskSelectorInput) (mode : DailyMode)
    → (o : PlanGeneratorOutput) × (generate_plan input mode ≡ some o)
      × (o.mode ≡ mode)
      × IsPlan input o
unfolding generate_plan select_candidate_task
generate_plan-IsPlan input mode =
    let (goals, e) = goals_of-total input in
    let result = choose input goals (pool_of input goals) in
    let selected : select_candidate_task input ≡ some result = ground arith in
    (
      plan_from mode result,
      ground arith,
      plan_from-mode mode result,
      plan_from-IsPlan input mode result selected,
    )

-- The candidates that the learner has not skipped.
unfoldable pub open_candidates : CandidateTaskSelectorInput → Goals → List Candidate
open_candidates input goals =
    filter_by (λ c. not (has c.task_id input.recently_skipped))
      (candidates input goals (eligible_nodes input [] input.nodes))

insert-nonempty :
    {A : Type 0} (before : A → A → Bool) (x : A) (xs : List A) → insert before x xs ≢ []
unfolding insert
insert-nonempty before x [] h = absurd (ground arith)
insert-nonempty before x (y ∷ ys) h = absurd (ground arith)

sort-empty : {A : Type 0} (before : A → A → Bool) (xs : List A) → sort before xs ≡ [] → xs ≡ []
unfolding sort
sort-empty before [] h = refl
sort-empty before (x ∷ xs) h = absurd (insert-nonempty before x (sort before xs) h)

-- Two or more candidates, all of one task.
abbrev pub OnlyTask : Text → List Candidate → Type 0
OnlyTask t pool = (ltb 1 (length pool) ≡ true) × Each (λ c. eq_text c.task_id t ≡ true) pool

dropped_each :
    (t : Text) (pool : List Candidate)
    → filter_by (λ c. not (eq_text c.task_id t)) pool ≡ []
    → Each (λ c. eq_text c.task_id t ≡ true) pool
unfolding filter_by
dropped_each t [] h = tt
dropped_each t (c ∷ cs) h = elim (Bool-cases (eq_text c.task_id t)) [
  | inl e ↦ (e, dropped_each t cs (ground arith))
  | inr e ↦ absurd (ground arith)
]

each_dropped :
    (t : Text) (pool : List Candidate)
    → Each (λ c. eq_text c.task_id t ≡ true) pool
    → (filter_by (λ c. not (eq_text c.task_id t)) pool ≡ [])
      × (filter_by (λ c. eq_text c.task_id t) pool ≡ pool)
unfolding filter_by
each_dropped t [] h = (refl, refl)
each_dropped t (c ∷ cs) h =
    let (a, b) = each_dropped t cs h.1 in (rw h.0 a, rw h.0 (ap (λ l. c ∷ l) b))

recent_of_none : (t : Text) → without_recent (some t) [] ≡ []
unfolding without_recent filter_by
recent_of_none t = refl

without_recent-empty :
    (r : Option Text) (pool : List Candidate)
    → (without_recent r pool ≡ []) ↔ ((pool ≡ []) ⊎ ((t : Text) × (r ≡ some t) × OnlyTask t pool))
unfolding without_recent
without_recent-empty none pool =
    (λ h. inl h, λ h. elim h [ inl e ↦ e | inr (t, e, _) ↦ absurd (ground arith) ])
without_recent-empty (some t) pool =
    let many = ltb 0 (length (filter_by (λ c. eq_text c.task_id t) pool)) && ltb 1 (length pool) in
    (
      λ h. elim (Bool-cases many) [
        | inl m ↦ inr (t, refl, (ground arith, dropped_each t pool (ground arith)))
        | inr m ↦ inl (ground arith)
      ],
      λ h. elim h [
        | inl e ↦ rw e (recent_of_none t)
        | inr (u, e, (two, all)) ↦
            let same : u ≡ t = ground arith in
            let (dropped, kept) =
              each_dropped t pool
                (subst (λ x. Each (λ c. eq_text c.task_id x ≡ true) pool) same all) in
            let some_recent = ap length kept in ground arith
      ],
    )

sort_nil : {A : Type 0} (before : A → A → Bool) → sort before [] ≡ []
unfolding sort
sort_nil before = refl

choose_empty :
    (input : CandidateTaskSelectorInput) (goals : Goals) (pool : List Candidate)
    → ((reason : Text) × (choose input goals pool ≡ no_candidate reason)) ↔ (pool ≡ [])
unfolding choose choose_from
choose_empty input goals [] = (λ h. refl, λ h. (_, refl))
choose_empty input goals (p ∷ rest) = (λ h. absurd (ground arith), λ h. absurd (ground arith))

pool_empty :
    (input : CandidateTaskSelectorInput) (goals : Goals)
    → (pool_of input goals ≡ [])
      ↔ (without_recent (most_recent input.recent_completions) (open_candidates input goals) ≡ [])
unfolding pool_of open_candidates
pool_empty input goals =
    let before = comes_before input.effort_boundary_minutes goals in
    (
      λ h.
          sort-empty before
            (without_recent (most_recent input.recent_completions) (open_candidates input goals)) h,
      λ h. ap (sort before) h ∙ sort_nil before,
    )

-- No task is chosen exactly if the learner has skipped the task of every candidate, or there are
-- two or more candidates left and all of them are of the task completed last.
pub select_candidate_task-none_iff :
    (input : CandidateTaskSelectorInput) {goals : Goals}
    → goals_of input ≡ some goals
    → ((reason : Text) × (select_candidate_task input ≡ some (no_candidate reason))) ↔ (
        (open_candidates input goals ≡ [])
        ⊎ ((t : Text) × (most_recent input.recent_completions ≡ some t)
            × OnlyTask t (open_candidates input goals)))
unfolding select_candidate_task
select_candidate_task-none_iff input {goals} e =
    let (to_pool, of_pool) = pool_empty input goals in
    let (to_open, of_open) =
      without_recent-empty (most_recent input.recent_completions) (open_candidates input goals) in
    let (to_nil, of_nil) = choose_empty input goals (pool_of input goals) in
    (
      λ (reason, h). to_open (to_pool (to_nil (reason, ground arith))),
      λ h. let (reason, k) = of_nil (of_pool (of_open h)) in (reason, ground arith),
    )
