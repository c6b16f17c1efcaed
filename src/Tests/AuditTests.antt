-- ===== src/Tests/AuditTests.antt =====
-- A small audit.
use standards_control_plane.Prelude.{
  All, List, Option, Result, String, [], if◌then◌else◌, leb, none, ok, refl, some, true, ◌&&◌, ◌==◌,
  ◌∷◌, ◌≡◌,
}
use standards_control_plane.Order.{sorted}
use standards_control_plane.Dict.{Dict, get, put}
use standards_control_plane.Json.{Fields, end, field, obj, str, strs}
use standards_control_plane.Findings.{FindingRecord}
use standards_control_plane.Scoring.{score_findings}
use standards_control_plane.Waivers.{WaiverRecord}
use standards_control_plane.Unique.{ordered_unique}
use standards_control_plane.Audit.{
  apply_waivers, recommended_actions, severity_order, sorted_by_severity,
}
use standards_control_plane.Audit.Build.{
  AuditResult, Parts, Progress, assemble, audit_domains, build_audit_result, no_progress,
}
use standards_control_plane.Audit.Laws.{Reports, audit_domains-Reports}
use standards_control_plane.Tests.Samples.{first_finding, second_finding, value_of}

abbrev evaluators : String → Option (String → String → String → Result (List FindingRecord))
evaluators domain =
    if domain == "architecture"
    then some (λ area version at. ok (second_finding ∷ first_finding ∷ []))
    else none

-- The scope is its list of paths, the area its identifier.
abbrev parts' : Parts (List String) String
parts' = record {
  accepts = λ name value. true;
  parse_timestamp = λ s. ok (if s == "2026-04-11T00:00:00Z" then 1 else 2);
  is_decimal = λ c. leb 48 c && leb c 57;
  title = λ s. s;
  extract_scope = λ paths. ok paths;
  normalise_project_area = λ scope subsystem hint. ok "orders-core";
  area_id = λ area. area;
  evaluator = evaluators;
}

abbrev waiver : WaiverRecord
waiver = record {
  waiver_id = "W-1";
  finding_id = "F-1";
  reason = "Migration planned.";
  approved_by = "owner";
  expires_at = "2026-12-31T00:00:00Z";
  created_at = "2026-04-01T00:00:00Z";
}

abbrev active : Dict WaiverRecord
active = ("F-1", waiver) ∷ []

abbrev two : List FindingRecord
two = second_finding ∷ first_finding ∷ []

-- What the tests below compute with.
program : Unit {0}
unfolding build_audit_result apply_waivers score_findings get put sorted severity_order
    recommended_actions ordered_unique
program = tt

before-sample : score_findings two ≡ ok 65
unfolding program
before-sample = refl

after-sample : score_findings (sorted_by_severity (apply_waivers active two).0) ≡ ok 95
unfolding program
after-sample = refl

abbrev domains : List String
domains = "architecture" ∷ "security" ∷ []

abbrev audited : Progress
audited = value_of no_progress (
    audit_domains parts' "orders-core" "2026-04-11" "2026-04-11T00:00:00Z" active no_progress
      domains)

audited-sample :
    audit_domains parts' "orders-core" "2026-04-11" "2026-04-11T00:00:00Z" active no_progress
      domains
    ≡ ok audited
unfolding program
audited-sample = refl

scores-sample : audited.scores ≡ ("architecture", 95) ∷ []
unfolding program
scores-sample = refl

audit_domains-Reports_example :
    All
      (λ d.
        Reports parts' "orders-core" "2026-04-11" "2026-04-11T00:00:00Z" active audited d
          (evaluators d))
      domains
audit_domains-Reports_example =
    audit_domains-Reports parts' "orders-core" "2026-04-11" "2026-04-11T00:00:00Z" active
      no_progress domains audited-sample

abbrev request : Fields
request = field "standards_version" (str "2026-04-11") (
    field "domains" (strs domains) (
      field "scope"
        (obj (
          field "paths" (strs ("src/app.py" ∷ []))
            (field "subsystem" (str "orders") (field "area_id" (str "orders-core") end))))
        end))

abbrev nothing : AuditResult
nothing = assemble parts' "" "" "" end "" no_progress

abbrev result : AuditResult
result = value_of nothing (build_audit_result parts' request none)

summary-sample : result.summary.high_severity_count ≡ 1
unfolding program
summary-sample = refl
