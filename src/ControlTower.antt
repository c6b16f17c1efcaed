-- ===== src/ControlTower.antt =====
-- control_tower.py: the dashboard of a subsystem; the child Estate has that of the estate. A
-- subsystem's name stands in paths as one plain part. The atomic writer is the same code as in ci_outputs.py, in Artifacts.
pub mod Estate
pub mod Laws
pub mod Entry
use standards_control_plane.CiOutputs.Warnings.{text_key}
use Prim.Native.String.{◌++◌ as join}
use standards_control_plane.Json
use standards_control_plane.Prelude.{
  Bool, List, Option, Result, String, [], count_by, false, filter, if◌then◌else◌, length, ltb, map,
  ok, some, take, true, ℕ, ◌&&◌, ◌==◌, ◌>>=◌, ◌>>◌, ◌||◌, ◌∷◌,
}
use standards_control_plane.Order.{sorted}
use standards_control_plane.Json.{
  Schemas, Value, arr, end, field, item, obj, of_list, str, strs, validate_with_schema,
}
use standards_control_plane.Dict.{Dict, get, keys, values}
use standards_control_plane.Findings.{FindingRecord, FindingsStore}
use standards_control_plane.Audit.{audit_key, severity_order}
use standards_control_plane.Audit.Build.{
  AuditResult, DomainStatus, audit_to_dict, count, evaluated, fields_of, not_evaluated, text_value,
}
use standards_control_plane.CiOutputs.{CiOutput, ci_to_dict}

-- `_area_findings`, in the order of `_finding_sort_key` of control_tower.py, which is the key of
-- audit.py.
unfoldable pub area_findings : FindingsStore → String → List FindingRecord
unfolding sorted severity_order
area_findings open_store area_id =
    sorted audit_key (filter (λ f. f.status == "open" && f.area_id == area_id) open_store.findings)

-- `_subsystem_status`
unfoldable pub subsystem_status : ℕ → ℕ → ℕ → ℕ → String
subsystem_status worst_score open_findings_count high_severity_open_findings warning_count =
    if ltb 0 warning_count || (ltb 0 high_severity_open_findings || ltb worst_score 60)
    then "attention_required"
    else if ltb 0 open_findings_count || ltb worst_score 75
    then "monitor"
    else "healthy"

pub record TopFinding : Type 0 where
  pub finding_id : String
  pub severity : String
  pub title : String
  pub summary : String

pub record SubsystemDashboard : Type 0 where
  pub latest_audit_id : String
  pub subsystem : String
  pub area_id : String
  pub generated_at : String
  pub status : String
  pub domains_evaluated : List String
  pub scores : Dict ℕ
  pub worst_score : ℕ
  pub open_findings_count : ℕ
  pub high_severity_open_findings : ℕ
  pub warning_count : ℕ
  pub top_open_findings : List TopFinding

top_to_dict : TopFinding → Value
top_to_dict t = obj (
    field "finding_id" (str t.finding_id) (
      field "severity" (str t.severity)
        (field "title" (str t.title) (field "summary" (str t.summary) end))))

-- The dict `entry`.
unfoldable pub subsystem_to_dict : SubsystemDashboard → Value
unfolding top_to_dict
subsystem_to_dict e = obj (
    field "artifact_version" (str "0.1.0") (
      field "latest_audit_id" (str e.latest_audit_id) (
        field "subsystem" (str e.subsystem) (
          field "area_id" (str e.area_id) (
            field "generated_at" (str e.generated_at) (
              field "status" (str e.status) (
                field "domains_evaluated" (strs e.domains_evaluated) (
                  field "scores" (obj (fields_of count e.scores)) (
                    field "worst_score" (count e.worst_score) (
                      field "open_findings_count" (count e.open_findings_count) (
                        field "high_severity_open_findings" (count e.high_severity_open_findings) (
                          field "warning_count" (count e.warning_count) (
                            field "report_path"
                              (str (join "reports/subsystems/" (join e.subsystem "-review.md")))
                              (field "ci_artifact_path" (str "ci/latest-ci.json") (
                                field "ci_summary_path" (str "ci/latest-ci.md") (
                                  field "area_summary_path"
                                    (str
                                      (join "findings/area-summaries/" (join e.subsystem ".json")))
                                    (field "top_open_findings"
                                      (arr (of_list (map top_to_dict e.top_open_findings)))
                                      end)))))))))))))))))

-- `min(scores.values()) if scores else 100`
abbrev pub least : ℕ → List ℕ → ℕ
least n [] = n
least n (m ∷ ms) = least (if ltb m n then m else n) ms

abbrev pub worst_of : List ℕ → ℕ
worst_of [] = 100
worst_of (n ∷ ns) = least n ns

abbrev says_evaluated : DomainStatus → Bool
says_evaluated evaluated = true
says_evaluated (not_evaluated reason) = false

abbrev pub is_severe : FindingRecord → Bool
is_severe f = f.severity == "critical" || f.severity == "high"

abbrev is_named : Option Value → String → Bool
is_named (some (str s)) subsystem = s == subsystem
is_named _ subsystem = false

abbrev pub top_of : FindingRecord → TopFinding
top_of f = record {
  finding_id = f.finding_id;
  severity = f.severity;
  title = f.title;
  summary = f.summary;
}

abbrev pub warnings_for : String → CiOutput → ℕ
warnings_for subsystem ci_output =
    if is_named (Json.get "subsystem" ci_output.audit_result.scope) subsystem
    then ci_output.warning_count
    else 0

-- The entry, once the subsystem and the area are read from the scope.
unfoldable pub subsystem_entry :
    AuditResult → FindingsStore → CiOutput → String → String → SubsystemDashboard
unfolding area_findings subsystem_status sorted
subsystem_entry audit_result open_store ci_output subsystem area_id =
    let subsystem_findings = area_findings open_store area_id in
    let high_severity_count = count_by is_severe subsystem_findings in
    let worst_score = worst_of (values audit_result.scores) in
    record {
      latest_audit_id = audit_result.audit_id;
      subsystem = subsystem;
      area_id = area_id;
      generated_at = audit_result.generated_at;
      status =
          subsystem_status worst_score (length subsystem_findings) high_severity_count
            (warnings_for subsystem ci_output);
      domains_evaluated =
          sorted text_key (keys (filter (λ p. says_evaluated p.1) audit_result.domain_status));
      scores = audit_result.scores;
      worst_score = worst_score;
      open_findings_count = length subsystem_findings;
      high_severity_open_findings = high_severity_count;
      warning_count = warnings_for subsystem ci_output;
      top_open_findings = map top_of (take 3 subsystem_findings);
    }

-- `build_subsystem_dashboard`
unfoldable pub build_subsystem_dashboard :
    Schemas → AuditResult → FindingsStore → CiOutput → Result SubsystemDashboard
unfolding validate_with_schema audit_to_dict ci_to_dict subsystem_entry subsystem_to_dict
build_subsystem_dashboard accepts audit_result open_store ci_output = do
  validate_with_schema accepts (audit_to_dict audit_result) "audit-result.schema.json"
  validate_with_schema accepts (ci_to_dict ci_output) "ci-output.schema.json"
  subsystem_value ← item "subsystem" audit_result.scope
  subsystem ← text_value subsystem_value
  area_value ← item "area_id" audit_result.scope
  area_id ← text_value area_value
  let entry = subsystem_entry audit_result open_store ci_output subsystem area_id
  validate_with_schema accepts (subsystem_to_dict entry) "control-tower-subsystem.schema.json"
  ok entry
