-- ===== src/CiOutputs/Warnings.antt =====
-- The warnings of ci_outputs.py: of a finding and of a regression, with their source and order.
use Prim.Native.String.{◌++◌ as join}
use standards_control_plane.Prelude.{
  Bool, List, Option, Result, String, [], err, if◌then◌else◌, key_error, leb, map, none, ok,
  or_raise, some, value_error, ℕ, ◌==◌, ◌>>=◌, ◌∷◌,
}
use standards_control_plane.Prelude.Int.{pos}
use standards_control_plane.Order.{Key, int, sorted, text}
use standards_control_plane.Json.{Fields, Value, end, field, obj, str, strs}
use standards_control_plane.Unique.{ordered_unique}
use standards_control_plane.Decimal.{padded}
use standards_control_plane.Findings.{EvidenceRecord, FindingRecord, optional_then}
use standards_control_plane.Audit.{severity_order}

pub data Category : Type 0 where
  finding_threshold : Category
  regression : Category

pub record CiWarning : Type 0 where
  pub warning_id : String
  pub category : Category
  pub severity : String
  pub summary : String
  pub finding_id : Option String
  pub confidence_class : Option String
  pub area_id : Option String
  pub evidence_paths : Option (List String)

abbrev category_text : Category → String
category_text finding_threshold = "finding_threshold"
category_text regression = "regression"

abbrev optional_paths : Option (List String) → Fields
optional_paths none = end
optional_paths (some paths) = field "evidence_paths" (strs paths) end

unfoldable pub warning_to_dict : CiWarning → Value
warning_to_dict w = obj (
    field "warning_id" (str w.warning_id) (
      field "category" (str (category_text w.category)) (
        field "severity" (str w.severity) (
          field "summary" (str w.summary) (
            optional_then "finding_id" w.finding_id (
              optional_then "confidence_class" w.confidence_class
                (optional_then "area_id" w.area_id (optional_paths w.evidence_paths))))))))

-- `CONFIDENCE_ORDER`
unfoldable pub confidence_order : String → Option ℕ
confidence_order confidence_class =
    if confidence_class == "low"
    then some 0
    else if confidence_class == "medium"
    then some 1
    else if confidence_class == "high"
    then some 2
    else none

-- `_confidence_meets_threshold`
unfoldable pub confidence_meets_threshold : String → String → Result Bool
unfolding confidence_order
confidence_meets_threshold confidence_class minimum_confidence_class = do
  class_rank ← or_raise key_error (confidence_order confidence_class)
  minimum_rank ← or_raise key_error (confidence_order minimum_confidence_class)
  ok (leb minimum_rank class_rank)

pub data CiSource : Type 0 where
  audit : CiSource
  audit_changed : String → String → List String → CiSource

abbrev given : Option String → Option String
given none = none
given (some s) = if s == "" then none else some s

abbrev changed_source : Option String → Option String → List String → Result CiSource
changed_source (some base_ref) (some head_ref) paths = ok (audit_changed base_ref head_ref paths)
changed_source _ _ paths = err value_error

-- `_build_source`
unfoldable pub build_source : String → Option String → Option String → List String → Result CiSource
build_source source_mode base_ref head_ref changed_paths =
    if source_mode == "audit"
    then ok audit
    else if source_mode == "audit_changed"
    then changed_source (given base_ref) (given head_ref) changed_paths
    else err value_error

abbrev pub text_key : String → Key
text_key s = text s ∷ []

-- The dict of `_finding_warning`.
unfoldable pub finding_warning : FindingRecord → CiWarning
unfolding sorted ordered_unique
finding_warning f = record {
  warning_id = join "WARN-FINDING-" f.finding_id;
  category = finding_threshold;
  severity = f.severity;
  summary =
      join "Open finding " (join f.finding_id (join " meets the CI warning threshold: " f.title));
  finding_id = some f.finding_id;
  confidence_class = some f.confidence_class;
  area_id = some f.area_id;
  evidence_paths =
      some (sorted text_key (ordered_unique (map (λ (e : EvidenceRecord). e.path) f.evidence)));
}

-- The dict of `_regression_warning`.
unfoldable pub regression_warning : String → ℕ → CiWarning
unfolding padded
regression_warning regression' index = record {
  warning_id = join "WARN-REGRESSION-" (padded index);
  category = regression;
  severity = "high";
  summary = regression';
  finding_id = none;
  confidence_class = none;
  area_id = none;
  evidence_paths = none;
}

abbrev category_rank : Category → ℕ
category_rank finding_threshold = 0
category_rank regression = 1

abbrev or_blank : Option String → String
or_blank none = ""
or_blank (some s) = s

-- `_warning_sort_key`
abbrev pub warning_sort_key : CiWarning → Key
warning_sort_key w =
    int (pos (category_rank w.category))
    ∷ int (pos (severity_order w.severity))
    ∷ text (or_blank w.finding_id)
    ∷ text w.warning_id
    ∷ []
