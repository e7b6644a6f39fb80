-- ===== src/Domain/Verdict.antt =====
-- The verdict taxonomy of lib/capture/verdictTaxonomy.ts: the closed list of final verdicts and
-- the result that each stands for.
use ai_coding_training_platf.Common.{
  Bool, ◌||◌, if◌then◌else◌, List, [], ◌∷◌, Text, units, eq_text, any_of,
}
use ai_coding_training_platf.Domain.{AttemptResult, passed, failed, partial, stuck}

unfoldable pub final_capture_verdicts : List Text
final_capture_verdicts =
    units "Accepted"
    ∷ units "Partially Accepted"
    ∷ units "Time Limit Exceeded"
    ∷ units "Memory Limit Exceeded"
    ∷ units "Output Limit Exceeded"
    ∷ units "Idleness Limit Exceeded"
    ∷ units "Runtime Error"
    ∷ units "Wrong Answer"
    ∷ units "Presentation Error"
    ∷ units "Compile Error"
    ∷ units "Judge Error"
    ∷ units "Other Failure"
    ∷ []

unfoldable pub is_final_capture_verdict : Text → Bool
is_final_capture_verdict v = any_of (λ w. eq_text w v) final_capture_verdicts

unfoldable pub classify_final_capture_verdict : Text → AttemptResult
classify_final_capture_verdict v =
    if eq_text v (units "Accepted")
    then passed
    else if eq_text v (units "Partially Accepted")
        || eq_text v (units "Time Limit Exceeded")
        || eq_text v (units "Memory Limit Exceeded")
        || eq_text v (units "Output Limit Exceeded")
        || eq_text v (units "Idleness Limit Exceeded")
        || eq_text v (units "Runtime Error")
    then partial
    else if eq_text v (units "Judge Error")
    then stuck
    else failed
