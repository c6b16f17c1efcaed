-- ===== src/Audit.antt =====
-- audit.py: an audit runs the evaluator of each requested domain on the normalised scope, applies
-- the active waivers, scores, and assembles the result. The extractor, the normaliser and the table
-- `EVALUATORS` are fields of `Parts`; a finding dict is the `FindingRecord` that it is written from.
pub mod Build
pub mod Laws
pub mod Whole
pub mod Domains
use standards_control_plane.Json
use Prim.Native.Char.{code}
use Prim.Native.String.{◌++◌ as join}
use standards_control_plane.Prelude.{
  Bool, List, Option, Result, String, [], count_by, err, false, if◌then◌else◌, nat_eq, none, ok,
  some, suc, traverse, value_error, zero, ℕ, ◌&&◌, ◌++◌, ◌==◌, ◌>>=◌, ◌>>◌, ◌∷◌,
}
use standards_control_plane.Prelude.Int.{pos}
use standards_control_plane.Order.{Key, int, sorted, text}
use standards_control_plane.Json.{Fields, Value, arr, nil, null, obj, str, to_list}
use standards_control_plane.Dict.{Dict, get}
use standards_control_plane.Findings.{FindingRecord}
use standards_control_plane.Waivers.{WaiverRecord}
use standards_control_plane.Unique.{ordered_unique}

-- Four digits, a dash, two digits, a dash, two digits. Which characters are decimal digits is
-- Unicode's to say.
module _ (is_decimal : ℕ → Bool) where
  digits_then : ℕ → (String → Bool) → String → Bool
  digits_then zero k s = k s
  digits_then (suc n) k String.[] = false
  digits_then (suc n) k (String.◌∷◌ c s) = is_decimal (code c) && digits_then n k s

  abbrev dash_then : (String → Bool) → String → Bool
  dash_then k String.[] = false
  dash_then k (String.◌∷◌ c s) = nat_eq (code c) 45 && k s

  unfoldable pub is_date : String → Bool
  unfolding digits_then
  is_date = digits_then 4 (dash_then (digits_then 2 (dash_then (digits_then 2 λ s. s == ""))))

  -- `_deterministic_timestamp`
  unfoldable pub deterministic_timestamp : String → Result String
  unfolding is_date
  deterministic_timestamp standards_version =
      if is_date standards_version
      then ok (join standards_version "T00:00:00Z")
      else err value_error

pub record SummaryCounts : Type 0 where
  pub high_severity_count : ℕ
  pub medium_severity_count : ℕ
  pub low_severity_count : ℕ
  pub waived_count : ℕ

abbrev pub is_open_of : String → FindingRecord → Bool
is_open_of severity f = f.status == "open" && f.severity == severity

-- `_summary_counts`
unfoldable pub summary_counts : List FindingRecord → SummaryCounts
summary_counts findings = record {
  high_severity_count = count_by (is_open_of "high") findings;
  medium_severity_count = count_by (is_open_of "medium") findings;
  low_severity_count = count_by (is_open_of "low") findings;
  waived_count = count_by (λ f. f.status == "waived") findings;
}

-- `SEVERITY_ORDER.get(severity, 99)`
unfoldable pub severity_order : String → ℕ
severity_order severity =
    if severity == "critical"
    then 0
    else if severity == "high"
    then 1
    else if severity == "medium"
    then 2
    else if severity == "low"
    then 3
    else 99

abbrev pub audit_key : FindingRecord → Key
audit_key f = int (pos (severity_order f.severity)) ∷ text f.finding_id ∷ []

-- `_sorted_findings` of audit.py
abbrev pub sorted_by_severity : List FindingRecord → List FindingRecord
sorted_by_severity = sorted audit_key

-- The loop of `_recommended_actions`, by the set of what was seen: `unique_from` over the actions
-- of the open findings.
abbrev pub open_actions : List FindingRecord → List String
open_actions [] = []
open_actions (finding ∷ rest) =
    if finding.status == "open"
    then finding.suggested_remediation ++ open_actions rest
    else open_actions rest

-- `_recommended_actions`
unfoldable pub recommended_actions : List FindingRecord → List String
unfolding ordered_unique
recommended_actions findings = ordered_unique (open_actions findings)

abbrev pub applied_key : WaiverRecord → Key
applied_key w = text w.finding_id ∷ text w.waiver_id ∷ []

abbrev pub adjust : Option WaiverRecord → FindingRecord → FindingRecord
adjust none finding = finding
adjust (some waiver) finding = record finding { status = "waived" }

abbrev pub note : Option WaiverRecord → List WaiverRecord → List WaiverRecord
note none applied = applied
note (some waiver) applied = waiver ∷ applied

module _ (active_waivers : Dict WaiverRecord) where
  -- The two lists of the loop of `_apply_waivers`.
  abbrev pub adjusted : List FindingRecord → List FindingRecord
  adjusted [] = []
  adjusted (finding ∷ rest) = adjust (get finding.finding_id active_waivers) finding ∷ adjusted rest

  abbrev pub applied : List FindingRecord → List WaiverRecord
  applied [] = []
  applied (finding ∷ rest) = note (get finding.finding_id active_waivers) (applied rest)

  -- `_apply_waivers`
  unfoldable pub apply_waivers : List FindingRecord → List FindingRecord × List WaiverRecord
  unfolding get sorted
  apply_waivers findings = (adjusted findings, sorted applied_key (applied findings))

-- `isinstance(v, str) and v`, or the exception that `_ensure_scope` raises.
abbrev pub non_empty : Value → Result String
non_empty (str s) = if s == "" then err value_error else ok s
non_empty _ = err value_error

abbrev pub scope_paths_of : Option Value → Result (List String)
scope_paths_of (some (arr nil)) = err value_error
scope_paths_of (some (arr vs)) = traverse non_empty (to_list vs)
scope_paths_of _ = err value_error

abbrev pub subsystem_of : Option Value → Result String
subsystem_of none = err value_error
subsystem_of (some v) = non_empty v

abbrev pub area_hint_of : Option Value → Result (Option String)
area_hint_of none = ok none
area_hint_of (some null) = ok none
area_hint_of (some v) = non_empty v >>= λ s. ok (some s)

abbrev pub scope_of : Option Value → Result Fields
scope_of (some (obj fs)) = ok fs
scope_of _ = err value_error

pub record AuditScope : Type 0 where
  pub scope_paths : List String
  pub subsystem : String
  pub area_hint : Option String

-- `_ensure_scope`
unfoldable pub ensure_scope : Fields → Result AuditScope
ensure_scope request = do
  scope ← scope_of (Json.get "scope" request)
  scope_paths ← scope_paths_of (Json.get "paths" scope)
  subsystem ← subsystem_of (Json.get "subsystem" scope)
  area_hint ← area_hint_of (Json.get "area_id" scope)
  ok (record { scope_paths = scope_paths; subsystem = subsystem; area_hint = area_hint })
