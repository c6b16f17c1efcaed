-- ===== src/Tests/PipelineTests.antt =====
-- The repository of the samples, audited from its paths to its findings.
use standards_control_plane.Prelude.{
  All, String, [], area_id_inference_error, err, false, if◌then◌else◌, map, none, ok, refl, some,
  true, ◌==◌, ◌↔◌, ◌∷◌, ◌≡◌,
}
use standards_control_plane.Dict.{get}
use standards_control_plane.Json.{Fields}
use standards_control_plane.Text.{path_name}
use standards_control_plane.Extractor.{ExtractedFile, ExtractedScope, scope_to_dict}
use standards_control_plane.Extractor.Walk.{extract_scope}
use standards_control_plane.Extractor.Whole.{IsExtraction, extract_scope-IsExtraction}
use standards_control_plane.Normaliser.AreaId.{area_spec, infer_area_id}
use standards_control_plane.Normaliser.Build.{
  ProjectArea, area_to_dict, code_paths, normalise_project_area, paths_of, ui_components,
}
use standards_control_plane.Audit.Build.{AuditResult, build_audit_result}
use standards_control_plane.Evaluators.Table.{IsReportOf, evaluators, evaluators-IsReport}
use standards_control_plane.ChangedAudit.Build.{request_for}
use standards_control_plane.Tests.Samples.{value_of}
use standards_control_plane.Findings.{FindingRecord}
use standards_control_plane.Normaliser.Laws.{IsAreaOf, normalise_project_area-IsAreaOf}
use standards_control_plane.Normaliser.Inference.{infer_area_id_raises, is_route}
use standards_control_plane.Evaluators.{Evaluation, read_repo_file}
use standards_control_plane.Evaluators.Architecture.{
  ad_hoc_api_access_finding, async_eventing_finding, boundary_leak_finding, evaluate_architecture,
  ui_orchestration_finding,
}
use standards_control_plane.Evaluators.Architecture.Laws.{
  Reports, accesses, architecture-Reports, crosses, orchestrates, publishes,
}
use standards_control_plane.Assembly.Traced.{IsTracedAudit, build_audit_result-IsTracedAudit}
use standards_control_plane.Tests.PipelineSamples.{
  accepts, at, audit_host, by_program, disk, lifecycle, no_area, no_evaluation, no_result, no_scope,
  program_parts, requested, reviews, unicode,
}

abbrev scope : ExtractedScope
scope = value_of no_scope (extract_scope disk unicode accepts requested)

scope-sample : extract_scope disk unicode accepts requested ≡ ok scope
unfolding program_parts
scope-sample = refl

paths-sample :
    map (λ (f : ExtractedFile). f.path) scope.files
    ≡ "docs/enhancements/ENH-1-orders-core.md" ∷ "src/app.py" ∷ "src/components/page.tsx" ∷ []
unfolding program_parts
paths-sample = refl

extract_scope-IsExtraction_example :
    IsExtraction disk unicode requested scope
    × (accepts "extracted-scope.schema.json" (scope_to_dict scope) ≡ true)
extract_scope-IsExtraction_example =
    extract_scope-IsExtraction disk unicode accepts requested scope-sample

abbrev area : ProjectArea
area = value_of no_area (normalise_project_area unicode accepts scope "orders" none)

area-sample : normalise_project_area unicode accepts scope "orders" none ≡ ok area
unfolding program_parts
area-sample = refl

area_id-sample : area.area_id ≡ "orders-core"
unfolding program_parts
area_id-sample = refl

normalise_project_area-IsAreaOf_example :
    IsAreaOf unicode scope "orders" area
    × (infer_area_id unicode.is_decimal (paths_of scope) "orders" none ≡ ok area.area_id)
    × (accepts "project-area.schema.json" (area_to_dict area) ≡ true)
normalise_project_area-IsAreaOf_example =
    normalise_project_area-IsAreaOf unicode accepts scope "orders" none area-sample

infer_area_id_raises_example :
    ((hint : String)
      → infer_area_id unicode.is_decimal ("src/app.py" ∷ []) "orders" (some hint) ≡ ok hint)
    × ((infer_area_id unicode.is_decimal ("src/app.py" ∷ []) "orders" none
          ≡ err area_id_inference_error)
        ↔ (All (λ p. area_spec unicode.is_decimal (path_name p) ≡ none) ("src/app.py" ∷ [])
            × All (λ p. is_route p ≡ false) ("src/app.py" ∷ [])
            × (area_id_inference_error ≡ area_id_inference_error)))
infer_area_id_raises_example =
    infer_area_id_raises unicode.is_decimal ("src/app.py" ∷ []) "orders" area_id_inference_error

-- The content of a file by its path.
abbrev content : String → String
content p = if p == "src/app.py" then "requests.get(url)" else ""

code-sample : All (λ p. read_repo_file audit_host p ≡ ok (content p)) (area.artefacts code_paths)
unfolding program_parts
code-sample = (refl, (refl, tt))

ui-sample : All (λ p. read_repo_file audit_host p ≡ ok (content p)) (area.artefacts ui_components)
unfolding program_parts
ui-sample = (refl, tt)

architecture-Reports_example :
    Reports
      (boundary_leak_finding audit_host area)
      (crosses audit_host area content)
      (area.artefacts code_paths)
    × Reports
        (ui_orchestration_finding audit_host area)
        (orchestrates audit_host area content)
        (area.artefacts ui_components)
    × Reports
        (ad_hoc_api_access_finding audit_host area)
        (accesses audit_host area content)
        (area.artefacts code_paths)
    × Reports
        (async_eventing_finding audit_host area)
        (publishes audit_host area content)
        (area.artefacts code_paths)
architecture-Reports_example = architecture-Reports audit_host area content code-sample ui-sample

abbrev evaluation : Evaluation
evaluation = value_of no_evaluation (evaluate_architecture audit_host area "2026-04-11" (some at))

evaluation-sample : evaluate_architecture audit_host area "2026-04-11" (some at) ≡ ok evaluation
unfolding program_parts
evaluation-sample = refl

-- One path reaches out without a client.
found-sample :
    map (λ (f : FindingRecord). f.finding_id) evaluation.findings ≡ "F-ARCH-003-orders-core" ∷ []
unfolding program_parts
found-sample = refl

table-sample :
    get "architecture" (evaluators audit_host reviews lifecycle)
    ≡ some (evaluate_architecture audit_host)
unfolding program_parts
table-sample = refl

evaluators-IsReport_example :
    IsReportOf audit_host reviews lifecycle area "2026-04-11" at "architecture" evaluation
evaluators-IsReport_example =
    evaluators-IsReport audit_host reviews lifecycle area "2026-04-11" at "architecture" refl
      table-sample evaluation-sample

abbrev request : Fields
request = request_for ("architecture" ∷ []) requested "orders" "2026-04-11" (some "orders-core")

abbrev audit : AuditResult
audit = value_of no_result (build_audit_result by_program request none)

audit-sample : build_audit_result by_program request none ≡ ok audit
unfolding program_parts
audit-sample = refl

score-sample : audit.scores ≡ ("architecture", 70) ∷ []
unfolding program_parts
score-sample = refl

build_audit_result-IsTracedAudit_example :
    IsTracedAudit audit_host reviews lifecycle (λ s. ok 1) (λ s. s) request audit
build_audit_result-IsTracedAudit_example =
    build_audit_result-IsTracedAudit audit_host reviews lifecycle (λ s. ok 1) (λ s. s) request none
      audit-sample
