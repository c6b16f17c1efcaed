-- ===== src/Evaluators/ServiceLifecycle/Build.antt =====
-- `evaluate_service_lifecycle`: the findings of the three checks, or of a manifest that cannot be
-- read as one.
use Prim.Native.String.{◌++◌ as join}
use standards_control_plane.Prelude.{
  Bool, List, Option, Result, String, [], guard, if◌then◌else◌, key_error, none, ok, or_raise, some,
  traverse, value_error, ℕ, ◌++◌, ◌==◌, ◌>>=◌, ◌>>◌, ◌∷◌,
}
use standards_control_plane.Prelude.Int.{pos}
use standards_control_plane.Order.{sorted}
use standards_control_plane.Dict.{Dict, get}
use standards_control_plane.Json.{Fields, Schemas, validate_with_schema}
use standards_control_plane.Confidence.{classify_confidence}
use standards_control_plane.Findings.{FindingRecord, finding_to_dict}
use standards_control_plane.Scoring.{score_findings}
use standards_control_plane.Registry.{RuleRecord}
use standards_control_plane.Audit.{is_date, severity_order, sorted_by_severity}
use standards_control_plane.Normaliser.Build.{ProjectArea, area_to_dict, configs}
use standards_control_plane.Evaluators.{
  Evaluation, EvaluatorHost, evidence_at, finding_of, recommended_of, rules_by_id,
}
use standards_control_plane.Evaluators.ServiceLifecycle.{
  Issue, LifecycleHost, Services, code_paths_to_scan, declared, find_services_manifest, in_order,
  malformed, nothing_declared, parse_services, runtime_contract,
}
use standards_control_plane.Evaluators.ServiceLifecycle.Contracts.{contract_issues, health_issues}
use standards_control_plane.Evaluators.ServiceLifecycle.Auth.{
  auth_issues, known_waiver_ids, read_sources,
}

abbrev pub scope_suffix : Option String → String
scope_suffix none = ""
scope_suffix (some name) = if name == "" then "" else join "-" name

abbrev pub issue_finding : RuleRecord → String → String → String → Issue → String → FindingRecord
issue_finding rule area_id standards_version evaluated_at issue confidence_class =
    record (finding_of "service-lifecycle" rule area_id standards_version evaluated_at issue.draft
      confidence_class) {
        finding_id = join "F-" (
            join rule.rule_id (
              join "-" (
                join area_id
                  (join (scope_suffix issue.service_name) (join "-" issue.signal_key)))));
      }

-- `_build_finding` of service_lifecycle.py
unfoldable pub build_issue :
    Schemas → RuleRecord → String → String → String → Issue → Result FindingRecord
unfolding classify_confidence finding_to_dict validate_with_schema
build_issue accepts rule area_id standards_version evaluated_at issue = do
  confidence_class ← classify_confidence issue.draft.confidence
  let finding = issue_finding rule area_id standards_version evaluated_at issue confidence_class
  validate_with_schema accepts (finding_to_dict finding) "finding.schema.json"
  ok finding

module _ (accepts : Schemas) (area_id standards_version timestamp : String) where
  unfoldable pub build_issues : RuleRecord → List Issue → Result (List FindingRecord)
  unfolding build_issue
  build_issues rule issues =
      traverse (build_issue accepts rule area_id standards_version timestamp) issues

  -- The loop of a check over the services: the issues of one service and their findings, then the
  -- next service.
  unfoldable pub check_services :
      RuleRecord
      → (String → Fields → Result (List Issue))
      → Dict Fields
      → Result (List FindingRecord)
  unfolding build_issues
  check_services rule issues_of [] = ok []
  check_services rule issues_of ((service_name, config) ∷ rest) = do
    issues ← issues_of service_name config
    findings ← build_issues rule issues
    others ← check_services rule issues_of rest
    ok (findings ++ others)

-- `_validate_standards_version`
unfoldable pub validate_standards_version : (ℕ → Bool) → (String → Option ℕ) → String → Result ℕ
unfolding is_date
validate_standards_version is_decimal from_iso standards_version =
    guard (is_date is_decimal standards_version) value_error
    >> or_raise value_error (from_iso standards_version)

abbrev pub or_midnight : String → Option String → String
or_midnight standards_version none = join standards_version "T00:00:00Z"
or_midnight standards_version (some at) =
    if at == "" then join standards_version "T00:00:00Z" else at

abbrev pub clean : Evaluation
clean = record { score = 100; findings = []; recommended = [] }

-- The dict that is returned for findings in order.
unfoldable pub evaluation_of : List FindingRecord → Result Evaluation
unfolding score_findings recommended_of
evaluation_of findings = score_findings findings >>= λ score.
    ok (record { score = score; findings = findings; recommended = recommended_of findings })

module _ (host : EvaluatorHost) (lifecycle : LifecycleHost) (project_area : ProjectArea) where
  abbrev rule_named : String → Result RuleRecord
  unfolding get rules_by_id
  rule_named rule_id =
      or_raise key_error (get rule_id (rules_by_id host.snapshot "service-lifecycle"))

  abbrev pub malformed_issue : String → String → Issue
  malformed_issue manifest_path reason = record {
    service_name = none;
    signal_key = "services-yml-malformed";
    draft = record {
      title = "services.yml could not be parsed";
      summary = join manifest_path (join " is not a valid services manifest: " (join reason "."));
      evidence = evidence_at manifest_path "declared_metadata" "root" ∷ [];
      suggested_remediation =
          "Repair the YAML so the file parses and declares a top-level 'services' mapping of service names to service configuration."
          ∷ [];
      confidence = pos 9900;
    };
  }

  module _ (standards_version timestamp : String) (audit_date : ℕ) (manifest_path : String) where
    -- `_svc001_findings`
    unfoldable pub svc001_findings : Dict Fields → Result (List FindingRecord)
    unfolding rule_named check_services contract_issues runtime_contract in_order
    svc001_findings found = rule_named "SVC-001" >>= λ rule.
        check_services host.accepts project_area.area_id standards_version timestamp rule
          (λ name config. ok (contract_issues host manifest_path name (runtime_contract config)))
          (in_order host.unicode.lower found)

    -- `_svc002_findings`
    unfoldable pub svc002_findings : Dict Fields → Result (List FindingRecord)
    unfolding rule_named check_services health_issues code_paths_to_scan in_order
    svc002_findings found = rule_named "SVC-002" >>= λ rule.
        check_services host.accepts project_area.area_id standards_version timestamp rule
          (health_issues host manifest_path (code_paths_to_scan host project_area))
          (in_order host.unicode.lower found)

    -- `_svc003_findings`
    unfoldable pub svc003_findings : Dict Fields → Result (List FindingRecord)
    unfolding rule_named check_services auth_issues runtime_contract read_sources known_waiver_ids
        code_paths_to_scan in_order
    svc003_findings found = rule_named "SVC-003" >>= λ rule.
        read_sources host (code_paths_to_scan host project_area) >>= λ sources.
        check_services host.accepts project_area.area_id standards_version timestamp rule
          (λ name config. ok (
            auth_issues host.unicode lifecycle
              (known_waiver_ids host.accepts lifecycle.waivers_file) audit_date sources
              manifest_path name (runtime_contract config)))
          (in_order host.unicode.lower found)

    unfoldable pub evaluate_manifest : Services → Result Evaluation
    unfolding rule_named build_issue svc001_findings svc002_findings svc003_findings evaluation_of
        severity_order sorted
    evaluate_manifest nothing_declared = ok clean
    evaluate_manifest (declared []) = ok clean
    evaluate_manifest (malformed reason) = do
      rule ← rule_named "SVC-001"
      finding ←
          build_issue host.accepts rule project_area.area_id standards_version timestamp
            (malformed_issue manifest_path reason)
      evaluation_of (finding ∷ [])
    evaluate_manifest (declared (service ∷ rest)) = do
      contracts ← svc001_findings (service ∷ rest)
      health ← svc002_findings (service ∷ rest)
      auth ← svc003_findings (service ∷ rest)
      evaluation_of (sorted_by_severity (contracts ++ (health ++ auth)))

  unfoldable pub evaluate_found : String → String → ℕ → Option String → Result Evaluation
  unfolding parse_services evaluate_manifest
  evaluate_found standards_version timestamp audit_date none = ok clean
  evaluate_found standards_version timestamp audit_date (some manifest_path) =
      parse_services host lifecycle manifest_path >>= λ found.
      evaluate_manifest standards_version timestamp audit_date manifest_path found

  -- `evaluate_service_lifecycle`
  unfoldable pub evaluate_service_lifecycle : String → Option String → Result Evaluation
  unfolding validate_with_schema area_to_dict validate_standards_version find_services_manifest
      evaluate_found
  evaluate_service_lifecycle standards_version evaluated_at = do
    validate_with_schema host.accepts (area_to_dict project_area) "project-area.schema.json"
    audit_date ←
        validate_standards_version host.unicode.is_decimal lifecycle.from_iso standards_version
    evaluate_found standards_version (or_midnight standards_version evaluated_at) audit_date
        (find_services_manifest host (project_area.artefacts configs))
