-- ===== src/Curriculum/Eligibility/Analysis.antt =====
-- `analyzeNodeEligibility` of lib/services/prerequisiteAnalysis.ts.
use ai_coding_training_platf.Common.{
  Bool, true, false, not, ◌||◌, Option, none, some, List, [], ◌∷◌, ◌++◌, Text, units, if◌then◌else◌,
  filter_by, is_none,
}
use ai_coding_training_platf.Common.Maps.{get}
use ai_coding_training_platf.Curriculum.{KnowledgeNode, KnowledgeNodeStatus, KnowledgeEdge}
use ai_coding_training_platf.Curriculum.Closure.{prerequisite_closure}
use ai_coding_training_platf.Curriculum.Eligibility.{
  ResourceSnapshot, PracticeSnapshot, is_reviewed, is_empty, about_node, BaselineLevel,
  AbilityLevel, unassessed, l1, l2, l3, l4, l5, PrerequisiteReason, EligibilityResult, BaselineMap,
  AbilityMap,
}

unfoldable pub make_blocked : PrerequisiteReason → Text → List Text → EligibilityResult
make_blocked reason message ids = record {
  is_available = false;
  reason = reason;
  blocking_node_ids = ids;
  message = message;
}

unfoldable pub make_ready : PrerequisiteReason → Text → EligibilityResult
make_ready reason message = record {
  is_available = true;
  reason = reason;
  blocking_node_ids = [];
  message = message;
}

-- The name of a status, as the message of a blocked node shows it.
abbrev pub status_name : KnowledgeNodeStatus → Text
status_name KnowledgeNodeStatus.planned = units "planned"
status_name KnowledgeNodeStatus.draft = units "draft"
status_name KnowledgeNodeStatus.published = units "published"
status_name KnowledgeNodeStatus.deprecated = units "deprecated"

abbrev pub is_published : KnowledgeNodeStatus → Bool
is_published KnowledgeNodeStatus.published = true
is_published _ = false

-- `ids.join(", ")`
unfoldable pub join : List Text → Text
join [] = []
join (a ∷ []) = a
join (a ∷ b ∷ ids) = a ++ (units ", " ++ join (b ∷ ids))

-- A baseline that asks for a diagnosis, also where there is none.
unfoldable pub asks_diagnostic : Option BaselineLevel → Bool
asks_diagnostic none = true
asks_diagnostic (some BaselineLevel.unknown) = true
asks_diagnostic (some BaselineLevel.needs_foundation) = false
asks_diagnostic (some BaselineLevel.self_reported) = false
asks_diagnostic (some BaselineLevel.ready) = false

unfoldable pub asks_foundation : Option BaselineLevel → Bool
asks_foundation none = false
asks_foundation (some BaselineLevel.unknown) = false
asks_foundation (some BaselineLevel.needs_foundation) = true
asks_foundation (some BaselineLevel.self_reported) = true
asks_foundation (some BaselineLevel.ready) = false

unfoldable pub is_unassessed : Option AbilityLevel → Bool
is_unassessed none = true
is_unassessed (some unassessed) = true
is_unassessed (some l1) = false
is_unassessed (some l2) = false
is_unassessed (some l3) = false
is_unassessed (some l4) = false
is_unassessed (some l5) = false

-- Steps 4 to 8 of `analyzeNodeEligibility`, over the node's prerequisites.
unfoldable pub analyze_prerequisites :
    KnowledgeNode → List Text → BaselineMap → AbilityMap → EligibilityResult
unfolding about_node join asks_diagnostic asks_foundation is_unassessed make_blocked make_ready
analyze_prerequisites node prereqs baselines abilities =
    let unknown_prereqs = filter_by (λ p. asks_diagnostic (get p baselines)) prereqs in
    let foundation_prereqs = filter_by (λ p. asks_foundation (get p baselines)) prereqs in
    if not (is_empty unknown_prereqs)
    then make_blocked PrerequisiteReason.needs_diagnostic
        (about_node node (units " needs diagnostic on prerequisites: " ++ join unknown_prereqs))
        unknown_prereqs
    else if not (is_empty foundation_prereqs)
    then make_blocked PrerequisiteReason.needs_foundation
        (about_node node (units " needs foundation on prerequisites: " ++ join foundation_prereqs))
        foundation_prereqs
    else if is_unassessed (get node.stable_id abilities)
    then make_ready PrerequisiteReason.ready_for_learning
        (about_node node (units " is ready for learning"))
    else make_ready PrerequisiteReason.ready_for_practice
        (about_node node (units " is ready for practice"))

-- `prerequisites ?? prerequisiteClosure(node.stable_id, edges)`; `none` where the closure's fuel
-- ran out.
unfoldable pub prerequisites_of :
    KnowledgeNode → List KnowledgeEdge → Option (List Text) → Option (List Text)
prerequisites_of node edges none = prerequisite_closure node.stable_id edges
prerequisites_of node edges (some prereqs) = some prereqs

unfoldable pub analyze_node_eligibility :
    KnowledgeNode
    → List KnowledgeEdge
    → ResourceSnapshot
    → PracticeSnapshot
    → (prerequisites : Option (List Text)) → BaselineMap
    → AbilityMap
    → Option EligibilityResult
unfolding prerequisites_of analyze_prerequisites make_blocked about_node
analyze_node_eligibility node edges resources practices prerequisites baselines abilities =
    if not (is_published node.status)
    then some (
        make_blocked PrerequisiteReason.blocked_status
          (about_node node
            (units " has status '" ++ (status_name node.status ++ units "' and is not eligible")))
          [])
    else if is_none resources.primary || not (is_reviewed resources.review_status)
    then some (
        make_blocked PrerequisiteReason.missing_reviewed_resource
          (about_node node (units " has no reviewed primary resource")) [])
    else if is_empty practices.tasks
    then some (
        make_blocked PrerequisiteReason.missing_practice_mapping
          (about_node node (units " has no practice mapping")) [])
    else elim (prerequisites_of node edges prerequisites) [
      | none ↦ none
      | some prereqs ↦ some (analyze_prerequisites node prereqs baselines abilities)
    ]
