-- ===== src/Tests/ReportTests.antt =====
-- A CI summary, dashboards and a consult at small inputs.
use standards_control_plane.CiOutputs.Warnings.{audit}
use standards_control_plane.ControlTower.Estate.{
  EstateDashboard, build_estate_dashboard, estate_summary,
}
use standards_control_plane.Paths.{paths_overlap}
use standards_control_plane.Prelude.{List, [], none, ok, refl, true, ◌∷◌, ◌≡◌}
use standards_control_plane.Order.{insert, sorted}
use standards_control_plane.Json.{Schemas, end, field, get, nil, str}
use standards_control_plane.Findings.{FindingRecord}
use standards_control_plane.Audit.Build.{AuditResult, evaluated}
use standards_control_plane.CiOutputs.{CiOutput, Thresholds, build_ci_output, ci_of}
use standards_control_plane.CiOutputs.Summary.{IsSummary, build_ci_output-IsSummary}
use standards_control_plane.ControlTower.{
  SubsystemDashboard, build_subsystem_dashboard, subsystem_entry,
}
use standards_control_plane.ControlTower.Laws.{
  IsEstate, build_estate_dashboard-IsEstate, known_status,
}
use standards_control_plane.ControlTower.Entry.{IsEntry, build_subsystem_dashboard-IsEntry}
use standards_control_plane.Registry.{RegistrySnapshot}
use standards_control_plane.Consult.{ConsultRequest, ConsultResponse}
use standards_control_plane.Consult.Respond.{ConsultHost, build_consult_response, response_of}
use standards_control_plane.Consult.Laws.{IsAnswer, build_consult_response-IsAnswer}
use standards_control_plane.Tests.Samples.{first_finding, second_finding, store, value_of}

abbrev all_valid : Schemas
all_valid name value = true

abbrev findings : List FindingRecord
findings = first_finding ∷ second_finding ∷ []

abbrev audited : AuditResult
audited = record {
  audit_id = "audit-orders-2026-04-11";
  scope = field "subsystem" (str "orders") (field "area_id" (str "orders-core") end);
  domain_status = ("architecture", evaluated) ∷ [];
  scores = ("architecture", 65) ∷ [];
  summary = record {
    high_severity_count = 1;
    medium_severity_count = 0;
    low_severity_count = 1;
    waived_count = 0;
  };
  findings = findings;
  waivers_applied = [];
  regressions = "The score fell." ∷ [];
  recommended = [];
  generated_at = "2026-04-11T00:00:00Z";
}

abbrev thresholds : Thresholds
thresholds = record {
  warning_severities = "critical" ∷ "high" ∷ [];
  minimum_confidence_class = "high";
  warn_on_regressions = true;
}

-- What the tests below compute with.
program : Unit {0}
unfolding build_ci_output build_subsystem_dashboard build_estate_dashboard build_consult_response
    insert sorted get paths_overlap
program = tt

abbrev no_output : CiOutput
no_output = ci_of audited thresholds audit []

abbrev summary : CiOutput
summary = value_of no_output (build_ci_output all_valid thresholds audited "audit" none none [])

summary-sample : build_ci_output all_valid thresholds audited "audit" none none [] ≡ ok summary
unfolding program
summary-sample = refl

two_warnings : summary.warning_count ≡ 2
unfolding program
two_warnings = refl

build_ci_output-IsSummary_example : IsSummary all_valid thresholds audited summary
build_ci_output-IsSummary_example =
    build_ci_output-IsSummary all_valid thresholds audited "audit" none none [] summary-sample

abbrev no_entry : SubsystemDashboard
no_entry = subsystem_entry audited store summary "orders" "orders-core"

abbrev entry : SubsystemDashboard
entry = value_of no_entry (build_subsystem_dashboard all_valid audited store summary)

entry-sample : build_subsystem_dashboard all_valid audited store summary ≡ ok entry
unfolding program
entry-sample = refl

build_subsystem_dashboard-IsEntry_example : IsEntry audited store entry
build_subsystem_dashboard-IsEntry_example =
    build_subsystem_dashboard-IsEntry all_valid audited store summary entry-sample

entry-known : known_status entry ≡ true
unfolding program
entry-known = refl

abbrev no_estate : EstateDashboard
no_estate = record { generated_at = ""; summary = estate_summary []; subsystems = [] }

abbrev estate : EstateDashboard
estate = value_of no_estate (build_estate_dashboard all_valid (entry ∷ []) "2026-04-11T00:00:00Z")

estate-sample : build_estate_dashboard all_valid (entry ∷ []) "2026-04-11T00:00:00Z" ≡ ok estate
unfolding program
estate-sample = refl

build_estate_dashboard-IsEstate_example : IsEstate (entry ∷ []) estate
build_estate_dashboard-IsEstate_example =
    build_estate_dashboard-IsEstate all_valid (entry ∷ []) "2026-04-11T00:00:00Z" (entry-known, tt)
      estate-sample

abbrev registry : RegistrySnapshot
registry = record { name = "standards"; version = "1"; status = "active"; domains = [] }

abbrev consult_host : ConsultHost
consult_host = record {
  accepts = all_valid;
  lower = λ s. s;
  make_request_id = λ fields. "consult-1";
  select_historical_reviews = λ area paths. nil;
}

abbrev request : ConsultRequest
request = record {
  fields = end;
  domains = "architecture" ∷ "architecture" ∷ [];
  area_id = "orders-core";
  paths = "src/app.py" ∷ [];
  question = "Where does this go?";
  feature_summary = "";
}

abbrev no_response : ConsultResponse
no_response = response_of consult_host request [] [] [] [] ""

abbrev response : ConsultResponse
response = value_of no_response (build_consult_response consult_host request registry store)

response-sample : build_consult_response consult_host request registry store ≡ ok response
unfolding program
response-sample = refl

build_consult_response-IsAnswer_example : IsAnswer request registry response
build_consult_response-IsAnswer_example =
    build_consult_response-IsAnswer consult_host request registry store response-sample
