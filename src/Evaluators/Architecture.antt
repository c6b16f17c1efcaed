-- ===== src/Evaluators/Architecture.antt =====
-- evaluators/architecture.py: the four checks on code paths and screens. The child has the markers
-- and where they are found in a text.
pub mod Locators
pub mod Laws
use standards_control_plane.Evaluators.Architecture.Locators.{
  access_locator, boundary_locator, eventing_locator, is_skipped_for_access,
  is_skipped_for_eventing, orchestration_locator,
}
use Prim.Native.String.{◌++◌ as join}
use standards_control_plane.Prelude.{
  Bool, List, Option, Result, String, [], if◌then◌else◌, length, none, ok, some, ◌>>=◌, ◌>>◌, ◌∷◌,
}
use standards_control_plane.Prelude.Int.{pos, ℤ}
use standards_control_plane.Order.{sorted}
use standards_control_plane.Decimal.{decimal}
use standards_control_plane.Json.{validate_with_schema}
use standards_control_plane.Text.{join_with}
use standards_control_plane.Unique.Sets.{by_text}
use standards_control_plane.Findings.{EvidenceRecord}
use standards_control_plane.Normaliser.Build.{ProjectArea, area_to_dict, code_paths, ui_components}
use standards_control_plane.Evaluators.{
  Check, Draft, Evaluation, EvaluatorHost, evaluate_checks, paths_of_evidence, read_repo_file,
  rules_by_id, scan, timestamp_of,
}

-- What a check says of the violations that its loop found, if any.
unfoldable pub draft_of : String → String → List String → ℤ → List EvidenceRecord → Option Draft
unfolding decimal sorted
draft_of title summary suggested_remediation confidence [] = none
draft_of title summary suggested_remediation confidence (e ∷ es) = some (record {
  title = title;
  summary =
      join (decimal (length (e ∷ es)))
        (join summary (join_with ", " (sorted by_text (paths_of_evidence (e ∷ es)))));
  evidence = e ∷ es;
  suggested_remediation = suggested_remediation;
  confidence = confidence;
})

module _ (host : EvaluatorHost) (project_area : ProjectArea) where
  unfoldable pub located_in_file : (String → Option String) → String → Result (Option String)
  unfolding read_repo_file
  located_in_file locator path = read_repo_file host path >>= λ content. ok (locator content)

  -- A path that is skipped is not read.
  abbrev pub unless : Bool → Result (Option String) → Result (Option String)
  unless b located = if b then ok none else located

  unfoldable pub scanned :
      String
      → String
      → String
      → ℤ
      → (String → Result (Option String))
      → List String
      → Result (Option Draft)
  unfolding scan draft_of
  scanned title summary remediation confidence locate paths = scan locate paths >>= λ evidence.
      ok (draft_of title summary (remediation ∷ []) confidence evidence)

  -- `_boundary_leak_finding`
  unfoldable pub boundary_leak_finding : Result (Option Draft)
  unfolding scanned boundary_locator located_in_file
  boundary_leak_finding =
      scanned "Code crosses bounded service roots"
        " file(s) reach directly across frontend/backend boundaries: "
        "Route cross-boundary work through the approved integration seam instead of importing bounded implementation modules directly."
        (pos 9500) (λ path. located_in_file (boundary_locator host.unicode path) path)
        (project_area.artefacts code_paths)

  -- `_ui_orchestration_finding`
  unfoldable pub ui_orchestration_finding : Result (Option Draft)
  unfolding scanned orchestration_locator located_in_file
  ui_orchestration_finding =
      scanned "UI layer contains multi-step workflow orchestration"
        " UI file(s) coordinate workflow logic through backend imports or multiple awaited branches: "
        "Move workflow orchestration into an action or service layer and keep UI modules focused on state binding."
        (pos 9200) (located_in_file (orchestration_locator host.unicode))
        (project_area.artefacts ui_components)

  -- `_ad_hoc_api_access_finding`
  unfoldable pub ad_hoc_api_access_finding : Result (Option Draft)
  unfolding scanned access_locator located_in_file is_skipped_for_access
  ad_hoc_api_access_finding =
      scanned "Feature code uses ad hoc remote access"
        " non-service file(s) use direct remote-access markers outside the approved service path: "
        "Move remote-access setup behind the approved service abstraction for the subsystem."
        (pos 9000)
        (λ path.
          unless (is_skipped_for_access host.unicode path)
            (located_in_file (access_locator host.unicode) path))
        (project_area.artefacts code_paths)

  -- `_async_eventing_finding`
  unfoldable pub async_eventing_finding : Result (Option Draft)
  unfolding scanned eventing_locator located_in_file is_skipped_for_eventing
  async_eventing_finding =
      scanned "Backend workflow mixes async or eventing style without wrapper seam"
        " backend service file(s) use explicit async/event markers without approved wrappers: "
        "Route background work and event publication through the approved workflow wrapper for the subsystem."
        (pos 8800)
        (λ path.
          unless (is_skipped_for_eventing host.unicode path)
            (located_in_file (eventing_locator host.unicode) path))
        (project_area.artefacts code_paths)

  unfoldable pub architecture_checks : List Check
  unfolding boundary_leak_finding ui_orchestration_finding ad_hoc_api_access_finding
      async_eventing_finding
  architecture_checks =
      record { rule_id = "ARCH-001"; outcome = boundary_leak_finding }
      ∷ record { rule_id = "ARCH-002"; outcome = ui_orchestration_finding }
      ∷ record { rule_id = "ARCH-003"; outcome = ad_hoc_api_access_finding }
      ∷ record { rule_id = "ARCH-004"; outcome = async_eventing_finding }
      ∷ []

  -- `evaluate_architecture`
  unfoldable pub evaluate_architecture : String → Option String → Result Evaluation
  unfolding validate_with_schema area_to_dict timestamp_of evaluate_checks architecture_checks
      rules_by_id
  evaluate_architecture standards_version evaluated_at = do
    validate_with_schema host.accepts (area_to_dict project_area) "project-area.schema.json"
    timestamp ← timestamp_of host.unicode.is_decimal standards_version evaluated_at
    evaluate_checks host.accepts "architecture" project_area.area_id standards_version timestamp
        (rules_by_id host.snapshot "architecture") architecture_checks
