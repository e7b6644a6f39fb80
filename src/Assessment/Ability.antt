-- ===== src/Assessment/Ability.antt =====
-- The ability level of a node from the evidence of it, lib/services/evidenceAbilityProjector.ts.
use ai_coding_training_platf.Common.{
  Bool, true, false, not, ◌&&◌, ◌||◌, Option, none, some, List, [], ◌∷◌, ℕ, ◌+◌, ◌-◌, ◌*◌, Text,
  units, eq_text, lt_text, ltb, leb, ◌==◌, if◌then◌else◌, filter_by, any_of, length,
}
use ai_coding_training_platf.Common.Result.{Result, ok, err, ◌>>=◌}
use ai_coding_training_platf.Common.Int.{ℤ, pos_part, neg_part}
use ai_coding_training_platf.Common.Maps.{add}
use ai_coding_training_platf.Common.Sort.{sort}
use ai_coding_training_platf.Curriculum.Eligibility.{AbilityLevel, unassessed, l1, l2, l3, l4, l5}
use ai_coding_training_platf.Assessment.{
  EvidenceCoverage, TrainingOutcome, AbilityConfidence, low, medium, high, RangeError, range_error,
  is_e1, is_e4, independent_effective_completion, assisted_effective_completion,
  productive_struggle, unproductive_trial_and_error, insufficient_evidence,
}

pub data EvidenceSourceType : Type 0 where
  attempt project : EvidenceSourceType

pub data MappingRole : Type 0 where
  primary supporting : MappingRole

pub record EvidenceAbilityFact : Type 0 where
  pub summary_id : Text
  pub source_type : EvidenceSourceType
  pub source_id : Text
  pub task_identity : Text
  pub outcome : TrainingOutcome
  pub coverage_level : EvidenceCoverage
  pub confidence : AbilityConfidence
  pub role : MappingRole
  pub created_at : Text
  pub unfamiliar_transfer : Bool
  pub evidence_event_ids : List Text

pub record EvidenceAbilityProjection : Type 0 where
  pub visible_level : AbilityLevel
  pub confidence : AbilityConfidence
  pub evidence_count : ℕ
  pub stale : Bool
  pub reason_codes : List Text
  pub source_summary_ids : List Text
  pub source_evidence_ids : List Text
  pub input_fingerprint : Text

-- What the code takes from its host: `Date.parse`, whether `a.localeCompare(b)` is negative, and
-- the digest of the facts' JSON text for a learner and a node.
pub record AbilityHost : Type 0 where
  pub date_parse : Text → Option ℤ
  pub locale_before : Text → Text → Bool
  pub fingerprint : Text → Text → List EvidenceAbilityFact → Text

pub record AbilityInput : Type 0 where
  pub learner_id : Text
  pub node_id : Text
  pub previous_level : AbilityLevel
  pub facts : List EvidenceAbilityFact
  pub now : Text

-- `LEVELS.indexOf(level)` and `LEVELS[rank] ?? "unassessed"`
unfoldable pub rank : AbilityLevel → ℕ
rank unassessed = 0
rank l1 = 1
rank l2 = 2
rank l3 = 3
rank l4 = 4
rank l5 = 5

unfoldable pub level_at : ℕ → AbilityLevel
level_at n =
    if n == 1
    then l1
    else if n == 2
    then l2
    else if n == 3
    then l3
    else if n == 4
    then l4
    else if n == 5
    then l5
    else unassessed

abbrev pub is_primary : MappingRole → Bool
is_primary primary = true
is_primary supporting = false

abbrev pub is_independent : TrainingOutcome → Bool
is_independent independent_effective_completion = true
is_independent assisted_effective_completion = false
is_independent productive_struggle = false
is_independent unproductive_trial_and_error = false
is_independent insufficient_evidence = false

abbrev pub is_assisted : TrainingOutcome → Bool
is_assisted assisted_effective_completion = true
is_assisted _ = false

abbrev pub is_productive : TrainingOutcome → Bool
is_productive productive_struggle = true
is_productive _ = false

abbrev pub is_unproductive : TrainingOutcome → Bool
is_unproductive unproductive_trial_and_error = true
is_unproductive _ = false

abbrev pub is_project : EvidenceSourceType → Bool
is_project project = true
is_project attempt = false

-- The facts that the projector counts as independent, and the transfers among them.
unfoldable pub counts_independent : EvidenceAbilityFact → Bool
counts_independent f = is_primary f.role && is_independent f.outcome && not (is_e1 f.coverage_level)

unfoldable pub counts_transfer : EvidenceAbilityFact → Bool
counts_transfer f = is_project f.source_type && is_e4 f.coverage_level && f.unfamiliar_transfer

abbrev pub any {ℓ} : {A : Type ℓ} → List A → Bool
any [] = false
any (_ ∷ _) = true

-- `n` days in milliseconds
abbrev pub days : ℕ → ℕ
days n = n * 86400000

-- `a - b >= span` on times
abbrev pub apart : ℤ → ℤ → ℕ → Bool
apart a b span = leb (pos_part b + neg_part a + span) (pos_part a + neg_part b)

unfoldable pub target_of :
    (transfer stable : Bool)
    → (independent assisted productive facts : List EvidenceAbilityFact) → AbilityLevel × List Text
target_of transfer stable independent assisted productive facts =
    if transfer
    then (l5, units "unfamiliar_project_transfer" ∷ [])
    else if stable
    then (l4, units "independent_across_time_or_tasks" ∷ [])
    else if any independent
    then (l3, units "independent_application_with_sequence_or_code" ∷ [])
    else if any assisted
    then (l2, units "assisted_effective_application" ∷ [])
    else if any productive || any_of (λ f. not (is_primary f.role)) facts
    then (
      l1,
      (if any productive
            then units "productive_struggle_observed"
            else units "supporting_evidence_cap_l1")
          ∷ [],
    )
    else (unassessed, units "no_qualifying_evidence" ∷ [])

-- `latestTwo` has two facts, both unproductive.
unfoldable pub repeated_unproductive : List EvidenceAbilityFact → Bool
repeated_unproductive [] = false
repeated_unproductive (a ∷ []) = false
repeated_unproductive (a ∷ b ∷ []) = is_unproductive a.outcome && is_unproductive b.outcome
repeated_unproductive (a ∷ b ∷ c ∷ fs) = repeated_unproductive (b ∷ c ∷ fs)

abbrev pub min : ℕ → ℕ → ℕ
min a b = if leb a b then a else b

unfoldable pub next_rank : (previous target : ℕ) → (repeated : Bool) → ℕ
next_rank previous target repeated =
    if repeated && ltb 0 previous
    then previous - 1
    else if ltb previous target
    then min (previous + 1) target
    else previous

unfoldable pub last_of : List EvidenceAbilityFact → Option EvidenceAbilityFact
last_of [] = none
last_of (f ∷ []) = some f
last_of (f ∷ g ∷ fs) = last_of (g ∷ fs)

unfoldable pub add_each : List Text → List Text → List Text
add_each [] out = out
add_each (t ∷ ts) out = add_each ts (add t out)

unfoldable pub summary_ids : List EvidenceAbilityFact → List Text → List Text
summary_ids [] out = out
summary_ids (f ∷ fs) out = summary_ids fs (add f.summary_id out)

unfoldable pub evidence_ids : List EvidenceAbilityFact → List Text → List Text
unfolding add_each
evidence_ids [] out = out
evidence_ids (f ∷ fs) out = evidence_ids fs (add_each f.evidence_event_ids out)

module _ (host : AbilityHost) where
  unfoldable pub parse_time : Text → Result RangeError ℤ
  parse_time t = elim (host.date_parse t) [ none ↦ err range_error | some ms ↦ ok ms ]

  -- The inner loop of `hasStableIndependentEvidence`.
  unfoldable pub stable_with :
      EvidenceAbilityFact → List EvidenceAbilityFact → Result RangeError Bool
  unfolding parse_time
  stable_with left [] = ok false
  stable_with left (right ∷ rest) =
      let later = stable_with left rest in
      if not (eq_text left.task_identity right.task_identity)
      then ok true
      else parse_time right.created_at >>= λ r.
          parse_time left.created_at >>= λ l. if apart r l (days 7) then ok true else later

  unfoldable pub has_stable_independent_evidence : List EvidenceAbilityFact → Result RangeError Bool
  unfolding stable_with
  has_stable_independent_evidence [] = ok false
  has_stable_independent_evidence (left ∷ rest) =
      let later = has_stable_independent_evidence rest in
      stable_with left rest >>= λ found. if found then ok true else later

  unfoldable pub before_fact : EvidenceAbilityFact → EvidenceAbilityFact → Bool
  before_fact a b =
      if host.locale_before a.created_at b.created_at
      then true
      else if host.locale_before b.created_at a.created_at
      then false
      else host.locale_before a.summary_id b.summary_id

  -- Whether the latest fact is old.
  unfoldable pub stale_at : ℤ → Option EvidenceAbilityFact → Result RangeError Bool
  unfolding parse_time
  stale_at now none = ok false
  stale_at now (some f) = parse_time f.created_at >>= λ t. ok (apart now t (days 30))

  -- The facts in order, and those that count as independent.
  unfoldable pub sorted_facts : AbilityInput → List EvidenceAbilityFact
  unfolding before_fact
  sorted_facts input = sort before_fact input.facts

  unfoldable pub independent_facts : AbilityInput → List EvidenceAbilityFact
  unfolding sorted_facts counts_independent
  independent_facts input = filter_by counts_independent (sorted_facts input)

  -- `target` with its reason codes.
  unfoldable pub target_level : AbilityInput → (stable : Bool) → AbilityLevel × List Text
  unfolding sorted_facts independent_facts counts_transfer target_of
  target_level input stable =
      let primary_facts = filter_by (λ f. is_primary f.role) (sorted_facts input) in
      let independent = independent_facts input in
      target_of (any_of counts_transfer independent) stable independent
        (filter_by (λ f. is_assisted f.outcome) primary_facts)
        (filter_by (λ f. is_productive f.outcome) primary_facts) (sorted_facts input)

  unfoldable pub is_failing : AbilityInput → Bool
  unfolding sorted_facts repeated_unproductive
  is_failing input = repeated_unproductive (filter_by (λ f. is_primary f.role) (sorted_facts input))

  -- The projection, from what the parts that may throw have given.
  unfoldable pub projection : AbilityInput → (stable stale : Bool) → EvidenceAbilityProjection
  unfolding sorted_facts independent_facts target_level is_failing next_rank rank level_at
      summary_ids evidence_ids
  projection input stable stale =
      let facts = sorted_facts input in
      let independent = independent_facts input in
      let previous = rank input.previous_level in
      record {
        visible_level =
            level_at (next_rank previous (rank (target_level input stable).0) (is_failing input));
        confidence =
            if stale || not (any facts)
            then low
            else if any_of (λ f. is_e4 f.coverage_level) independent
            then high
            else if any independent
                || any_of (λ f. is_primary f.role && is_assisted f.outcome) facts
            then medium
            else low;
        evidence_count = length facts;
        stale = stale;
        reason_codes =
            if is_failing input && ltb 0 previous
            then units "two_consecutive_unproductive_sessions_lower_one" ∷ []
            else (target_level input stable).1;
        source_summary_ids = summary_ids facts [];
        source_evidence_ids = sort lt_text (evidence_ids facts []);
        input_fingerprint = host.fingerprint input.learner_id input.node_id facts;
      }

  unfoldable pub project_evidence_ability :
      AbilityInput → Result RangeError EvidenceAbilityProjection
  unfolding has_stable_independent_evidence independent_facts sorted_facts stale_at last_of
      parse_time projection
  project_evidence_ability input =
      has_stable_independent_evidence (independent_facts input) >>= λ stable.
      parse_time input.now >>= λ now.
      stale_at now (last_of (sorted_facts input)) >>= λ stale. ok (projection input stable stale)
