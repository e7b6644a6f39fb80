-- ===== src/Correlation/Schema.antt =====
-- The checks of E1 evidence in extension/src/evidence.ts, and of the page's summaries in
-- `parseMainBridgeSummary` of submissionCorrelator.ts, over typed values: what a type already
-- says, such as a whole number or a member of a closed list, is not checked again.
use ai_coding_training_platf.Common.{
  Bool, true, false, not, ◌&&◌, ◌||◌, Option, none, some, List, [], ◌∷◌, ℕ, ◌+◌, ◌*◌, ◌-◌, ◌%◌, leb,
  ◌==◌, if◌then◌else◌, Text, units, eq_text, any_of,
}
use ai_coding_training_platf.Domain.{Platform, manual}
use ai_coding_training_platf.Domain.Training.{at_most, nonempty, optionally}
use ai_coding_training_platf.Reducer.{E1RequestObserved}
use ai_coding_training_platf.Reducer.Identity.{trim}
use ai_coding_training_platf.Reducer.Correlator.{MainBridgeSummary}

unfoldable pub is_digit : ℕ → Bool
is_digit c = leb 48 c && leb c 57

-- A text that begins with digits (`none`) and given units (`some c`); the rest is given back.
unfoldable pub read_shape : List (Option ℕ) → Text → Option Text
unfolding is_digit
read_shape [] t = some t
read_shape (p ∷ ps) [] = none
read_shape (none ∷ ps) (c ∷ t) = let rest = read_shape ps t in if is_digit c then rest else none
read_shape (some d ∷ ps) (c ∷ t) = let rest = read_shape ps t in if c == d then rest else none

-- `YYYY-MM-DDTHH:mm:ss`
abbrev pub second_shape : List (Option ℕ)
second_shape =
    none
    ∷ none
    ∷ none
    ∷ none
    ∷ some 45
    ∷ none
    ∷ none
    ∷ some 45
    ∷ none
    ∷ none
    ∷ some 84
    ∷ none
    ∷ none
    ∷ some 58
    ∷ none
    ∷ none
    ∷ some 58
    ∷ none
    ∷ none
    ∷ []

-- `.sssZ`
abbrev pub fraction_shape : List (Option ℕ)
fraction_shape = some 46 ∷ none ∷ none ∷ none ∷ some 90 ∷ []

-- The number that `n` digits make after the first `i` units.
unfoldable pub number_at : ℕ → ℕ → ℕ → Text → ℕ
number_at i n acc [] = acc
number_at ℕ.zero ℕ.zero acc (c ∷ t) = acc
number_at ℕ.zero (ℕ.suc n) acc (c ∷ t) = number_at 0 n (acc * 10 + (c - 48)) t
number_at (ℕ.suc i) n acc (c ∷ t) = number_at i n acc t

unfoldable pub days_in_month : ℕ → ℕ → ℕ
days_in_month year month =
    if month == 2
    then (if year % 4 == 0 && (not (year % 100 == 0) || year % 400 == 0) then 29 else 28)
    else if month == 4 || month == 6 || month == 9 || month == 11
    then 30
    else 31

-- What may follow the seconds: `Z`, or a fraction and `Z`.
unfoldable pub is_zone : Text → Bool
unfolding read_shape
is_zone t = eq_text t (units "Z") || elim (read_shape fraction_shape t) [
  | none ↦ false
  | some rest ↦ elim rest [ [] ↦ true | c ∷ cs ↦ false ]
]

-- `isoDateTimeString` and `isCanonicalIsoUtc`: the pattern, and a date of the calendar, which is
-- what the round trip through `Date` asks for.
unfoldable pub is_canonical_iso_utc : Text → Bool
unfolding read_shape number_at days_in_month is_zone
is_canonical_iso_utc t =
    let year = number_at 0 4 0 t in
    let month = number_at 5 2 0 t in
    let day = number_at 8 2 0 t in
    elim (read_shape second_shape t) [ none ↦ false | some rest ↦ is_zone rest ]
    && leb 1 month
    && leb month 12
    && leb 1 day
    && leb day (days_in_month year month)
    && leb (number_at 11 2 0 t) 23
    && leb (number_at 14 2 0 t) 59
    && leb (number_at 17 2 0 t) 59

unfoldable pub identifier_string : Text → Bool
unfolding trim
identifier_string t = nonempty t && at_most 128 t && nonempty (trim t)

unfoldable pub scalar_string : Text → Bool
unfolding trim
scalar_string t = nonempty t && at_most 256 t && nonempty (trim t)

-- A letter, a digit, `/`, `_` or `-`.
unfoldable pub is_key_unit : ℕ → Bool
is_key_unit c =
    (leb 97 c && leb c 122)
    || (leb 65 c && leb c 90)
    || (leb 47 c && leb c 57)
    || c == 95
    || c == 45

unfoldable pub normalized_endpoint_key : Text → Bool
unfolding is_key_unit any_of
normalized_endpoint_key t = nonempty t && at_most 256 t && not (any_of (λ c. not (is_key_unit c)) t)

-- `VALID_METHODS`
unfoldable pub valid_methods : List Text
valid_methods =
    units "GET"
    ∷ units "POST"
    ∷ units "PUT"
    ∷ units "DELETE"
    ∷ units "PATCH"
    ∷ units "HEAD"
    ∷ units "OPTIONS"
    ∷ []

-- `RESOURCE_TYPES`
unfoldable pub resource_types : List Text
resource_types =
    units "main_frame" ∷ units "sub_frame" ∷ units "xmlhttprequest" ∷ units "other" ∷ []

unfoldable pub is_one_of : List Text → Text → Bool
unfolding any_of
is_one_of ts t = any_of (λ s. eq_text s t) ts

-- The judge sites, as opposed to manual records.
unfoldable pub is_known_platform : Platform → Bool
is_known_platform manual = false
is_known_platform _ = true

-- `validateE1Input`: `e1RequestObservedSchema`.
unfoldable pub e1_schema : E1RequestObserved → Bool
unfolding identifier_string scalar_string normalized_endpoint_key is_one_of is_canonical_iso_utc
    valid_methods resource_types is_known_platform
e1_schema e =
    identifier_string e.base.evidence_id
    && is_known_platform e.base.platform
    && is_canonical_iso_utc e.base.received_at
    && identifier_string e.base.document_id
    && scalar_string e.base.adapter_version
    && identifier_string e.request_id
    && is_one_of valid_methods e.method
    && normalized_endpoint_key e.endpoint_key
    && is_one_of resource_types e.resource_type
    && optionally (λ code. leb 100 code && leb code 599) e.status_code
    && optionally normalized_endpoint_key e.redirect_endpoint_key

-- The checks of `parseMainBridgeSummary`.
unfoldable pub summary_schema : MainBridgeSummary → Bool
unfolding is_canonical_iso_utc is_known_platform trim
summary_schema s =
    is_known_platform s.platform
    && nonempty (trim s.document_id)
    && nonempty s.method
    && nonempty s.endpoint_key
    && is_canonical_iso_utc s.received_at
    && nonempty (trim s.evidence_id)
    && optionally (λ t. nonempty (trim t)) s.external_submission_id
    && optionally (λ t. nonempty (trim t)) s.problem_external_id
    && optionally nonempty s.redirect_endpoint_key

unfoldable pub parse_main_bridge_summary : MainBridgeSummary → Option MainBridgeSummary
parse_main_bridge_summary s = if summary_schema s then some s else none
