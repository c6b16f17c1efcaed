-- ===== src/CiOutputs.antt =====
-- ci_outputs.py: the CI summary of an audit result; the child Warnings has its warnings. The writer
-- of the two files is in Artifacts; the Markdown text is not modelled.
pub mod Warnings
pub mod Laws
pub mod Summary
use standards_control_plane.CiOutputs.Warnings.{
  CiSource, CiWarning, audit, audit_changed, build_source, confidence_meets_threshold,
  confidence_order, finding_warning, regression_warning, text_key, warning_sort_key,
  warning_to_dict,
}
use Prim.Native.String.{◌++◌ as join}
use standards_control_plane.Prelude.{
  Bool, List, Option, Result, String, [], elem, false, guard, if◌then◌else◌, length, map, none, ok,
  some, true, value_error, ℕ, ◌&&◌, ◌++◌, ◌+◌, ◌==◌, ◌>>=◌, ◌>>◌, ◌∷◌,
}
use standards_control_plane.Order.{sorted}
use standards_control_plane.Json.{
  Schemas, Value, arr, bool, end, field, obj, of_list, str, strs, validate_with_schema,
}
use standards_control_plane.Findings.{FindingRecord}
use standards_control_plane.Audit.{severity_order}
use standards_control_plane.Audit.Build.{
  AuditResult, audit_to_dict, count, fields_of, status_to_dict, summary_to_dict,
}

pub record Thresholds : Type 0 where
  pub warning_severities : List String
  pub minimum_confidence_class : String
  pub warn_on_regressions : Bool

pub record CiOutput : Type 0 where
  pub audit_id : String
  pub generated_at : String
  pub source : CiSource
  pub audit_result : AuditResult
  pub thresholds : Thresholds
  pub warnings : List CiWarning
  pub warning_count : ℕ
  pub outcome : String
  pub recommended : List String

module _ (accepts : Schemas) (thresholds : Thresholds) where
  -- A warning is validated as it is built.
  unfoldable pub checked : CiWarning → Result CiWarning
  unfolding validate_with_schema warning_to_dict
  checked w = validate_with_schema accepts (warning_to_dict w) "ci-warning.schema.json" >> ok w

  abbrev pub concerns : FindingRecord → Bool
  concerns f = f.status == "open" && elem f.severity thresholds.warning_severities

  -- The body of the loop over the findings.
  unfoldable pub warn_of : FindingRecord → Result (Option CiWarning)
  unfolding confidence_meets_threshold finding_warning checked
  warn_of f =
      if concerns f
      then (confidence_meets_threshold f.confidence_class thresholds.minimum_confidence_class
          >>= (λ meets.
              if meets then (checked (finding_warning f) >>= (λ w. ok (some w))) else ok none))
      else ok none

  abbrev pub add : Option CiWarning → List CiWarning → List CiWarning
  add none ws = ws
  add (some w) ws = w ∷ ws

  unfoldable pub finding_warnings : List FindingRecord → Result (List CiWarning)
  unfolding warn_of
  finding_warnings [] = ok []
  finding_warnings (f ∷ rest) =
      let others = finding_warnings rest in
      warn_of f >>= λ warned. others >>= λ ws. ok (add warned ws)

  -- The loop over the regressions, which are counted from one.
  unfoldable pub regression_warnings : ℕ → List String → Result (List CiWarning)
  unfolding regression_warning checked
  regression_warnings index [] = ok []
  regression_warnings index (r ∷ rest) = checked (regression_warning r index) >>= λ w.
      regression_warnings (index + 1) rest >>= λ ws. ok (w ∷ ws)

abbrev source_to_dict : CiSource → Value
source_to_dict audit = obj (field "mode" (str "audit") end)
source_to_dict (audit_changed base_ref head_ref changed_paths) = obj (
    field "mode" (str "audit_changed") (
      field "base_ref" (str base_ref)
        (field "head_ref" (str head_ref) (field "changed_paths" (strs changed_paths) end))))

abbrev thresholds_to_dict : Thresholds → Value
thresholds_to_dict t = obj (
    field "advisory_only" (bool true) (
      field "finding_severities" (strs t.warning_severities) (
        field "minimum_confidence_class" (str t.minimum_confidence_class)
          (field "warn_on_regressions" (bool t.warn_on_regressions) end))))

-- The dict `ci_output`.
unfoldable pub ci_to_dict : CiOutput → Value
unfolding warning_to_dict summary_to_dict
ci_to_dict c = obj (
    field "artifact_version" (str "0.1.0") (
      field "audit_id" (str c.audit_id) (
        field "generated_at" (str c.generated_at) (
          field "source" (source_to_dict c.source) (
            field "scope" (obj c.audit_result.scope) (
              field "domain_status" (obj (fields_of status_to_dict c.audit_result.domain_status)) (
                field "scores" (obj (fields_of count c.audit_result.scores)) (
                  field "summary" (summary_to_dict c.audit_result.summary) (
                    field "warning_thresholds" (thresholds_to_dict c.thresholds) (
                      field "warnings" (arr (of_list (map warning_to_dict c.warnings))) (
                        field "warning_count" (count c.warning_count) (
                          field "outcome" (str c.outcome)
                            (field "recommended_actions" (strs c.recommended) end)))))))))))))

abbrev pub outcome_of : List CiWarning → String
outcome_of [] = "pass"
outcome_of (w ∷ ws) = "pass_with_warnings"

abbrev pub ci_of : AuditResult → Thresholds → CiSource → List CiWarning → CiOutput
ci_of audit_result thresholds source sorted_warnings = record {
  audit_id = audit_result.audit_id;
  generated_at = audit_result.generated_at;
  source = source;
  audit_result = audit_result;
  thresholds = thresholds;
  warnings = sorted_warnings;
  warning_count = length sorted_warnings;
  outcome = outcome_of sorted_warnings;
  recommended = audit_result.recommended;
}

abbrev pub is_known : Option ℕ → Bool
is_known none = false
is_known (some n) = true

-- `build_ci_output`; an absent list of changed paths is an empty one.
unfoldable pub build_ci_output :
    Schemas
    → Thresholds
    → AuditResult
    → String
    → Option String
    → Option String
    → List String
    → Result CiOutput
unfolding validate_with_schema confidence_order build_source finding_warnings regression_warnings
    ci_to_dict severity_order sorted
build_ci_output accepts thresholds audit_result source_mode base_ref head_ref changed_paths = do
  validate_with_schema accepts (audit_to_dict audit_result) "audit-result.schema.json"
  guard (is_known (confidence_order thresholds.minimum_confidence_class)) value_error
  source ← build_source source_mode base_ref head_ref changed_paths
  from_findings ← finding_warnings accepts thresholds audit_result.findings
  from_regressions ←
      (if thresholds.warn_on_regressions
        then regression_warnings accepts thresholds 1 (sorted text_key audit_result.regressions)
        else ok [])
  let ci_output =
      ci_of audit_result thresholds source
        (sorted warning_sort_key (from_findings ++ from_regressions))
  validate_with_schema accepts (ci_to_dict ci_output) "ci-output.schema.json"
  ok ci_output
