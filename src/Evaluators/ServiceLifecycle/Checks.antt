-- ===== src/Evaluators/ServiceLifecycle/Checks.antt =====
-- The findings of each check of the service-lifecycle evaluator come from its rules.
use standards_control_plane.Prelude.{
  >>=-eq-ok, All, All-append, List, Result, String, [], guard-eq-ok, key_error, ok, ok-eq, or_raise,
  or_raise-some, refl, some, subst, traverse-All, value_error, ℕ, ◌>>=◌, ◌∷◌, ◌≡◌,
}
use standards_control_plane.Dict.{Dict, get}
use standards_control_plane.Json.{Fields, validate_with_schema}
use standards_control_plane.Confidence.{classify_confidence}
use standards_control_plane.Findings.{FindingRecord, finding_to_dict}
use standards_control_plane.Registry.{RuleRecord}
use standards_control_plane.Normaliser.Build.{ProjectArea}
use standards_control_plane.Evaluators.{EvaluatorHost, rules_by_id}
use standards_control_plane.Evaluators.Laws.{IsFromRule}
use standards_control_plane.Evaluators.ServiceLifecycle.{
  Issue, LifecycleHost, code_paths_to_scan, in_order, runtime_contract,
}
use standards_control_plane.Evaluators.ServiceLifecycle.Build.{
  build_issue, build_issues, check_services, issue_finding, svc001_findings, svc002_findings,
  svc003_findings,
}
use standards_control_plane.Evaluators.ServiceLifecycle.Auth.{
  auth_issues, known_waiver_ids, read_sources,
}
use standards_control_plane.Evaluators.ServiceLifecycle.Contracts.{contract_issues, health_issues}

module _ (host : EvaluatorHost) (lifecycle : LifecycleHost) (project_area : ProjectArea)
    (standards_version timestamp : String) where
  abbrev pub rules : Dict RuleRecord
  rules = rules_by_id host.snapshot "service-lifecycle"

  abbrev pub IsOurs : FindingRecord → Type 0
  IsOurs =
      IsFromRule host.accepts "service-lifecycle" project_area.area_id standards_version timestamp
        rules

  pub build_issue-IsOurs :
      (key : String) (rule : RuleRecord) (issue : Issue) (f : FindingRecord)
      → get key rules ≡ some rule
      → build_issue host.accepts rule project_area.area_id standards_version timestamp issue ≡ ok f
      → IsOurs f
  unfolding build_issue validate_with_schema
  build_issue-IsOurs key rule issue f g h =
      let (confidence_class, c, h1) = >>=-eq-ok (classify_confidence issue.draft.confidence) _ h in
      let finding =
        issue_finding rule project_area.area_id standards_version timestamp issue
          confidence_class in
      let (_, valid, h2) =
        >>=-eq-ok
          (validate_with_schema host.accepts (finding_to_dict finding) "finding.schema.json") _
          h1 in
      subst IsOurs (ok-eq h2) (record {
        key = key;
        rule = rule;
        listed = g;
        same_rule = refl;
        same_severity = refl;
        same_domain = refl;
        same_area = refl;
        is_open = refl;
        dated = (refl, refl);
        classified = c;
        accepted =
            guard-eq-ok (host.accepts "finding.schema.json" (finding_to_dict finding)) value_error
              valid;
      })

  check_services-IsOurs :
      (key : String) (rule : RuleRecord) (issues_of : String → Fields → Result (List Issue))
      (found : Dict Fields) {findings : List FindingRecord}
      → get key rules ≡ some rule
      → check_services host.accepts project_area.area_id standards_version timestamp rule issues_of
          found
        ≡ ok findings
      → All IsOurs findings
  unfolding check_services build_issues
  check_services-IsOurs key rule issues_of [] g h = subst (All IsOurs) (ok-eq h) tt
  check_services-IsOurs key rule issues_of ((name, config) ∷ rest) g h =
      let (issues, i, h1) = >>=-eq-ok (issues_of name config) _ h in
      let (findings, b, h2) =
        >>=-eq-ok
          (build_issues host.accepts project_area.area_id standards_version timestamp rule issues) _
          h1 in
      let (others, o, h3) =
        >>=-eq-ok
          (check_services host.accepts project_area.area_id standards_version timestamp rule
            issues_of rest)
          _ h2 in
      subst (All IsOurs) (ok-eq h3) (
        All-append IsOurs findings others
          (traverse-All IsOurs _ issues (λ issue f. build_issue-IsOurs key rule issue f g) b)
          (check_services-IsOurs key rule issues_of rest g o))

  named-IsOurs :
      (key : String) (rest : RuleRecord → Result (List FindingRecord))
      {findings : List FindingRecord}
      → ((rule : RuleRecord) (fs : List FindingRecord)
          → get key rules ≡ some rule
          → rest rule ≡ ok fs
          → All IsOurs fs)
      → (or_raise key_error (get key rules) >>= rest) ≡ ok findings
      → All IsOurs findings
  named-IsOurs key rest each h =
      let (rule, g, h1) = >>=-eq-ok (or_raise key_error (get key rules)) rest h in
      each rule _ (or_raise-some key_error (get key rules) g) h1

  module _ (audit_date : ℕ) (manifest_path : String) (found : Dict Fields) where
    pub svc001-IsOurs :
        {fs : List FindingRecord}
        → svc001_findings host lifecycle project_area standards_version timestamp audit_date
            manifest_path found
          ≡ ok fs
        → All IsOurs fs
    unfolding svc001_findings
    svc001-IsOurs h =
        named-IsOurs "SVC-001" _
          (λ rule fs.
            check_services-IsOurs "SVC-001" rule
              (λ name config.
                ok (contract_issues host manifest_path name (runtime_contract config)))
              (in_order host.unicode.lower found))
          h

    pub svc002-IsOurs :
        {fs : List FindingRecord}
        → svc002_findings host lifecycle project_area standards_version timestamp audit_date
            manifest_path found
          ≡ ok fs
        → All IsOurs fs
    unfolding svc002_findings
    svc002-IsOurs h =
        named-IsOurs "SVC-002" _
          (λ rule fs.
            check_services-IsOurs "SVC-002" rule
              (health_issues host manifest_path (code_paths_to_scan host project_area))
              (in_order host.unicode.lower found))
          h

    pub svc003-IsOurs :
        {fs : List FindingRecord}
        → svc003_findings host lifecycle project_area standards_version timestamp audit_date
            manifest_path found
          ≡ ok fs
        → All IsOurs fs
    unfolding svc003_findings
    svc003-IsOurs h =
        named-IsOurs "SVC-003" _
          (λ rule fs g q.
            let (sources, r, q1) =
              >>=-eq-ok (read_sources host (code_paths_to_scan host project_area)) _ q in
            check_services-IsOurs "SVC-003" rule
              (λ name config. ok (
                auth_issues host.unicode lifecycle
                  (known_waiver_ids host.accepts lifecycle.waivers_file) audit_date sources
                  manifest_path name (runtime_contract config)))
              (in_order host.unicode.lower found) g q1)
          h
