-- ===== src/Evaluators/ServiceLifecycle/Laws.antt =====
-- What the service-lifecycle evaluation returns is a report of its findings.
use standards_control_plane.Evaluators.ServiceLifecycle.Checks.{
  IsOurs, build_issue-IsOurs, svc001-IsOurs, svc002-IsOurs, svc003-IsOurs,
}
use standards_control_plane.Prelude.{
  >>=-eq-ok, All, All-append, List, Option, String, [], key_error, none, ok, ok-eq, or_raise,
  or_raise-some, refl, some, subst, ℕ, ◌++◌, ◌∷◌, ◌≡◌,
}
use standards_control_plane.Dict.{Dict, get}
use standards_control_plane.Json.{validate_with_schema}
use standards_control_plane.Findings.{FindingRecord}
use standards_control_plane.Registry.{RuleRecord}
use standards_control_plane.Normaliser.Build.{ProjectArea, area_to_dict, configs}
use standards_control_plane.Evaluators.{Evaluation, EvaluatorHost, rules_by_id}
use standards_control_plane.Evaluators.Laws.{IsReport, reported-IsReport}
use standards_control_plane.Evaluators.ServiceLifecycle.{
  LifecycleHost, Services, declared, find_services_manifest, malformed, nothing_declared,
  parse_services,
}
use standards_control_plane.Evaluators.ServiceLifecycle.Build.{
  build_issue, clean, evaluate_found, evaluate_manifest, evaluate_service_lifecycle, evaluation_of,
  malformed_issue, or_midnight, svc001_findings, svc002_findings, svc003_findings,
  validate_standards_version,
}
use standards_control_plane.Order.Sorted.{All-sorted, IsSorted, sorted-IsSorted}
use standards_control_plane.Scoring.{score_findings}
use standards_control_plane.Audit.{audit_key, sorted_by_severity}

module _ (host : EvaluatorHost) (lifecycle : LifecycleHost) (project_area : ProjectArea)
    (standards_version timestamp : String) where
  abbrev rules : Dict RuleRecord
  rules = rules_by_id host.snapshot "service-lifecycle"

  abbrev IsOurReport : Evaluation → Type 0
  IsOurReport =
      IsReport host.accepts "service-lifecycle" project_area.area_id standards_version timestamp
        rules

  evaluation_of-IsOurReport :
      (fs : List FindingRecord) {e : Evaluation}
      → IsSorted audit_key fs
      → All (IsOurs host lifecycle project_area standards_version timestamp) fs
      → evaluation_of fs ≡ ok e
      → IsOurReport e
  unfolding evaluation_of
  evaluation_of-IsOurReport fs o r h =
      let (score, s, h1) = >>=-eq-ok (score_findings fs) _ h in
      subst IsOurReport (ok-eq h1) (
        reported-IsReport host.accepts "service-lifecycle" project_area.area_id standards_version
          timestamp rules score fs o r s)

  clean-IsOurReport : IsOurReport clean
  unfolding score_findings
  clean-IsOurReport = record {
    in_order = tt;
    from_rules = tt;
    scored = refl;
    actions_once = tt;
    actions = λ s. refl;
  }

  manifest-IsOurReport :
      (audit_date : ℕ) (manifest_path : String) (found : Services) {e : Evaluation}
      → evaluate_manifest host lifecycle project_area standards_version timestamp audit_date
          manifest_path found
        ≡ ok e
      → IsOurReport e
  unfolding evaluate_manifest
  manifest-IsOurReport audit_date manifest_path nothing_declared h =
      subst IsOurReport (ok-eq h) clean-IsOurReport
  manifest-IsOurReport audit_date manifest_path (declared []) h =
      subst IsOurReport (ok-eq h) clean-IsOurReport
  manifest-IsOurReport audit_date manifest_path (malformed reason) h =
      let (rule, g, h1) = >>=-eq-ok (or_raise key_error (get "SVC-001" rules)) _ h in
      let issue = malformed_issue host lifecycle project_area manifest_path reason in
      let (f, b, h2) =
        >>=-eq-ok
          (build_issue host.accepts rule project_area.area_id standards_version timestamp issue) _
          h1 in
      evaluation_of-IsOurReport (f ∷ []) (tt, tt)
        (
          build_issue-IsOurs host lifecycle project_area standards_version timestamp "SVC-001" rule
              issue f (or_raise-some key_error (get "SVC-001" rules) g) b,
          tt,
        )
        h2
  manifest-IsOurReport audit_date manifest_path (declared (service ∷ rest)) h =
      let found = service ∷ rest in
      let (contracts, c, h1) =
        >>=-eq-ok
          (svc001_findings host lifecycle project_area standards_version timestamp audit_date
            manifest_path found)
          _ h in
      let (health, l, h2) =
        >>=-eq-ok
          (svc002_findings host lifecycle project_area standards_version timestamp audit_date
            manifest_path found)
          _ h1 in
      let (auth, a, h3) =
        >>=-eq-ok
          (svc003_findings host lifecycle project_area standards_version timestamp audit_date
            manifest_path found)
          _ h2 in
      let findings = contracts ++ (health ++ auth) in
      evaluation_of-IsOurReport (sorted_by_severity findings) (sorted-IsSorted audit_key findings)
        (All-sorted audit_key (IsOurs host lifecycle project_area standards_version timestamp)
          findings
          (All-append (IsOurs host lifecycle project_area standards_version timestamp) contracts
            (health ++ auth)
            (svc001-IsOurs host lifecycle project_area standards_version timestamp audit_date
              manifest_path found c)
            (All-append (IsOurs host lifecycle project_area standards_version timestamp) health auth
              (svc002-IsOurs host lifecycle project_area standards_version timestamp audit_date
                manifest_path found l)
              (svc003-IsOurs host lifecycle project_area standards_version timestamp audit_date
                manifest_path found a))))
        h3

  found-IsOurReport :
      (audit_date : ℕ) (manifest : Option String) {e : Evaluation}
      → evaluate_found host lifecycle project_area standards_version timestamp audit_date manifest
        ≡ ok e
      → IsOurReport e
  unfolding evaluate_found
  found-IsOurReport audit_date none h = subst IsOurReport (ok-eq h) clean-IsOurReport
  found-IsOurReport audit_date (some manifest_path) h =
      let (found, p, h1) = >>=-eq-ok (parse_services host lifecycle manifest_path) _ h in
      manifest-IsOurReport audit_date manifest_path found h1

-- The service-lifecycle evaluation of an area reports, in order, open findings of the area under
-- active rules.
pub evaluate_service_lifecycle-IsReport :
    (host : EvaluatorHost) (lifecycle : LifecycleHost) (project_area : ProjectArea)
    (standards_version : String) (evaluated_at : Option String) {e : Evaluation}
    → evaluate_service_lifecycle host lifecycle project_area standards_version evaluated_at ≡ ok e
    → IsReport host.accepts "service-lifecycle" project_area.area_id standards_version
        (or_midnight standards_version evaluated_at)
        (rules_by_id host.snapshot "service-lifecycle")
        e
unfolding evaluate_service_lifecycle
evaluate_service_lifecycle-IsReport host lifecycle project_area standards_version evaluated_at h =
    let (_, _, h1) =
      >>=-eq-ok
        (validate_with_schema host.accepts (area_to_dict project_area) "project-area.schema.json") _
        h in
    let (audit_date, d, h2) =
      >>=-eq-ok
        (validate_standards_version host.unicode.is_decimal lifecycle.from_iso standards_version) _
        h1 in
    found-IsOurReport host lifecycle project_area standards_version
      (or_midnight standards_version evaluated_at) audit_date
      (find_services_manifest host (project_area.artefacts configs)) h2
