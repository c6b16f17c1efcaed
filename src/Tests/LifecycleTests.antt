-- ===== src/Tests/LifecycleTests.antt =====
-- The accepted modes of a service: two modes, one of them declared twice, and a value that is none.
use standards_control_plane.Evaluators.Search.{IsReadable}
use standards_control_plane.Tests.Samples.{value_of}
use standards_control_plane.Evaluators.ServiceLifecycle.Health.{
  has_no_handler, health_id, ids_of-svc002_findings,
}
use standards_control_plane.Evaluators.ServiceLifecycle.Build.{svc002_findings}
use standards_control_plane.Evaluators.{EvaluatorHost, read_repo_file, rules_by_id}
use standards_control_plane.Normaliser.Build.{ProjectArea}
use standards_control_plane.Registry.{RegistrySnapshot, RuleRecord}
use standards_control_plane.Dict.{Dict, get}
use standards_control_plane.Findings.{FindingRecord}
use standards_control_plane.Prelude.{List, String, [], filter, map, none, ok, refl, some, ◌∷◌, ◌≡◌}
use standards_control_plane.Json.{
  Fields, Items, Value, arr, cons, end, field, nil, obj, str, to_list,
}
use standards_control_plane.Evaluators.ServiceLifecycle.{Issue, code_paths_to_scan, in_order}
use standards_control_plane.Evaluators.ServiceLifecycle.Auth.{after_walk, modes_issues}
use standards_control_plane.Evaluators.ServiceLifecycle.Modes.{IsReported, modes_issues-IsReported}
use standards_control_plane.Tests.PipelineSamples.{
  accepts, at, content_at, disk, lifecycle, no_area, rule, snapshot, unicode,
}

abbrev declares : String → Value
declares mode = obj (field "mode" (str mode) end)

abbrev later_values : Items
later_values =
    cons (declares "mode.user_oidc")
      (cons (str "mode.api_key") (cons (declares "mode.api_key") nil))

abbrev sources : List (String × String)
sources = ("src/app.py", "X-API-Key") ∷ []

abbrev reported_issues : List Issue
reported_issues =
    modes_issues unicode lifecycle none 1 sources "services.yml" "orders"
      (arr (cons (declares "mode.api_key") later_values))

signals : map (λ (i : Issue). i.signal_key) reported_issues ≡ (
    "missing-metadata-api_key-0" ∷ "missing-metadata-user_oidc-1" ∷ "malformed-entry-2"
    ∷ "missing-metadata-api_key-3" ∷ "duplicate-mode-api_key" ∷ "impl-missing-user_oidc" ∷ [])
unfolding modes_issues after_walk
signals = refl

modes_issues-IsReported_example :
    IsReported unicode lifecycle none 1 sources "services.yml" "orders"
      (to_list (cons (declares "mode.api_key") later_values))
      reported_issues
modes_issues-IsReported_example =
    modes_issues-IsReported unicode lifecycle none 1 sources "services.yml" "orders"
      (declares "mode.api_key") later_values

-- Two services, one of them with a handler in the only code file.
abbrev health_snapshot : RegistrySnapshot
health_snapshot = record snapshot {
  domains =
      (
        "service-lifecycle",
        record {
          domain = "service-lifecycle";
          version = "1";
          status = "active";
          rules = rule "SVC-002" ∷ [];
          patterns = [];
        },
      )
      ∷ [];
}

abbrev health_host : EvaluatorHost
unfolding disk
health_host = record {
  disk = disk;
  contents = λ place. ok (content_at place);
  unicode = unicode;
  accepts = accepts;
  snapshot = health_snapshot;
}

abbrev health_area : ProjectArea
health_area = record no_area { area_id = "shop"; artefacts = λ b. "src/app.py" ∷ [] }

abbrev checks_at : String → Fields
checks_at healthcheck = field "healthcheck" (str healthcheck) end

abbrev two_services : Dict Fields
two_services = ("orders", checks_at "/health") ∷ ("billing", checks_at "get(url)") ∷ []

abbrev health_findings : List FindingRecord
health_findings = value_of [] (
    svc002_findings health_host lifecycle health_area "2026-04-11" at 1 "services.yml" two_services)

abbrev app_text : String → String
app_text path = "requests.get(url)"

app_text-IsReadable : IsReadable health_host app_text (code_paths_to_scan health_host health_area)
unfolding code_paths_to_scan read_repo_file disk
app_text-IsReadable = (refl, tt)

reported-sample :
    svc002_findings health_host lifecycle health_area "2026-04-11" at 1 "services.yml" two_services
    ≡ ok health_findings
unfolding svc002_findings disk
reported-sample = refl

ids_of-svc002_findings_example :
    (svc_rule : RuleRecord) × (get "SVC-002" (rules_by_id health_host.snapshot "service-lifecycle")
      ≡ some svc_rule)
    × (map (λ (f : FindingRecord). f.finding_id) health_findings
        ≡ map
            (λ p. health_id svc_rule health_area.area_id p.0)
            (filter
              (λ p. has_no_handler app_text (code_paths_to_scan health_host health_area) p.1)
              (in_order health_host.unicode.lower two_services)))
ids_of-svc002_findings_example =
    ids_of-svc002_findings health_host lifecycle health_area "2026-04-11" at 1 "services.yml"
      two_services app_text app_text-IsReadable reported-sample

-- One finding is made.
one_reported :
    map (λ (f : FindingRecord). f.finding_id) health_findings
    ≡ ("F-SVC-002-shop-orders-missing-health-handler" ∷ [])
unfolding svc002_findings disk
one_reported = refl
