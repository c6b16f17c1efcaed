-- ===== src/Evaluators/Governance.antt =====
-- evaluators/governance.py: the three checks on the boundary of an area, its specification and its
-- reviews.
use Prim.Native.String.{◌++◌ as join}
use standards_control_plane.Prelude.{
  Bool, List, Option, Result, String, [], all, any, elem, false, if◌then◌else◌, none, ok, some,
  true, ◌&&◌, ◌++◌, ◌==◌, ◌>>=◌, ◌>>◌, ◌∷◌,
}
use standards_control_plane.Prelude.Int.{pos}
use standards_control_plane.Json.{validate_with_schema}
use standards_control_plane.Paths.{paths_overlap}
use standards_control_plane.Text.{join_with, path_name, starts_with}
use standards_control_plane.Unique.Sets.{dedupe_sorted}
use standards_control_plane.Findings.{EvidenceRecord}
use standards_control_plane.Normaliser.AreaId.{area_spec}
use standards_control_plane.Normaliser.Build.{
  ProjectArea, area_to_dict, docs, enhancement_specs, review_evidence,
}
use standards_control_plane.ReviewEvidence.{
  ReviewEvidenceFinding, ReviewEvidenceRecord, ReviewHost, load_review_evidence_records,
}
use standards_control_plane.Evaluators.{
  Check, Draft, Evaluation, EvaluatorHost, evaluate_checks, evidence_at, rules_by_id, timestamp_of,
}

abbrev pub first_or : List String → String → String
first_or [] otherwise = otherwise
first_or (x ∷ xs) otherwise = x

module _ (host : EvaluatorHost) (reviews : ReviewHost) (project_area : ProjectArea) where
  -- `_evidence_path` without a preferred path
  unfoldable pub evidence_path : String
  evidence_path =
      first_or (project_area.artefacts docs)
        (first_or project_area.paths (join "area:" project_area.area_id))

  abbrev lowered : Option String → Option String
  lowered none = none
  lowered (some slug) = some (host.unicode.lower slug)

  -- `_enhancement_slug`
  unfoldable pub enhancement_slug : String → Option String
  unfolding area_spec path_name
  enhancement_slug path_value = lowered (area_spec host.unicode.is_decimal (path_name path_value))

  -- The slug of the first specification; an empty text counts as none.
  unfoldable pub slug_of_specs : List String → Option String
  unfolding enhancement_slug
  slug_of_specs [] = none
  slug_of_specs (path_value ∷ rest) = truthy (enhancement_slug path_value)
    where
      truthy : Option String → Option String
      truthy none = none
      truthy (some slug) = if slug == "" then none else some slug

  abbrev add_marker : Option String → List String → List String
  add_marker none markers = markers
  add_marker (some slug) markers = slug ∷ markers

  -- `_resolved_area_markers`
  unfoldable pub resolved_area_markers : List String
  unfolding slug_of_specs dedupe_sorted
  resolved_area_markers = dedupe_sorted (
      host.unicode.lower project_area.area_id
      ∷ add_marker (slug_of_specs (project_area.artefacts enhancement_specs)) [])

  abbrev finding_statuses : List String
  finding_statuses =
      "open" ∷ "accepted" ∷ "waived" ∷ "resolved" ∷ "false_positive" ∷ "superseded" ∷ []

  abbrev has_findings : List ReviewEvidenceFinding → Bool
  has_findings [] = false
  has_findings (f ∷ fs) = true

  unfoldable pub is_traceable : ReviewEvidenceRecord → Bool
  unfolding resolved_area_markers paths_overlap
  is_traceable r =
      elem (host.unicode.lower r.area_id) resolved_area_markers
      && (has_findings r.findings
          && (any
                (λ reviewed_path.
                  any (λ area_path. paths_overlap reviewed_path area_path) project_area.paths)
                r.reviewed_paths
              && all (λ (f : ReviewEvidenceFinding). elem f.status finding_statuses) r.findings))

  -- `_has_traceable_review_evidence`
  unfoldable pub has_traceable_review_evidence : Result Bool
  unfolding load_review_evidence_records is_traceable
  has_traceable_review_evidence =
      load_review_evidence_records reviews (project_area.artefacts review_evidence) >>= λ records.
      ok (any is_traceable records)

  abbrev pub slug_issue : Option String → List String
  slug_issue none = []
  slug_issue (some slug) =
      if slug == project_area.area_id
      then []
      else join "enhancement spec slug '"
          (join slug (join "' does not match area_id '" (join project_area.area_id "'")))
        ∷ []

  abbrev or_area_id : Option String → String
  or_area_id none = project_area.area_id
  or_area_id (some slug) = slug

  unfoldable pub subsystem_issue : String → List String
  unfolding starts_with
  subsystem_issue resolved_area =
      if starts_with resolved_area (join project_area.subsystem "-")
      then []
      else join "resolved area '" (
          join resolved_area (join "' falls outside subsystem '" (join project_area.subsystem "'")))
        ∷ []

  abbrev pub spec_evidence : List String → List EvidenceRecord
  spec_evidence [] = []
  spec_evidence (path ∷ rest) =
      if path == ""
      then []
      else evidence_at path "declared_metadata" "artefacts.enhancement_specs[0]" ∷ []

  unfoldable pub boundary_draft : List String → Option Draft
  unfolding evidence_path
  boundary_draft [] = none
  boundary_draft (issue ∷ issues) = some (record {
    title = "Declared area boundary does not align";
    summary = join_with "; " (issue ∷ issues);
    evidence =
        spec_evidence (project_area.artefacts enhancement_specs)
        ++ (evidence_at evidence_path "declared_metadata" "area_id" ∷ []);
    suggested_remediation =
        "Align the enhancement-spec slug, area_id, and subsystem naming before implementation continues."
        ∷ "Keep the requested subsystem boundary explicit when preparing audit scope." ∷ [];
    confidence = pos 9400;
  })

  -- `_boundary_finding`
  unfoldable pub boundary_finding : Result (Option Draft)
  unfolding slug_of_specs subsystem_issue boundary_draft
  boundary_finding =
      let slug = slug_of_specs (project_area.artefacts enhancement_specs) in
      ok (boundary_draft (slug_issue slug ++ subsystem_issue (or_area_id slug)))

  unfoldable pub spec_draft : List String → Option Draft
  unfolding evidence_path
  spec_draft (path ∷ rest) = none
  spec_draft [] = some (record {
    title = "Required enhancement spec is missing";
    summary = join "Area '" (
        join project_area.area_id
          "' has no enhancement spec artefact under docs/enhancements, so the work lacks the expected planning record.");
    evidence = evidence_at evidence_path "declared_metadata" "artefacts.enhancement_specs" ∷ [];
    suggested_remediation =
        "Add an enhancement spec under docs/enhancements for this area before continuing implementation."
        ∷ [];
    confidence = pos 9700;
  })

  -- `_missing_enhancement_spec_finding`
  unfoldable pub missing_enhancement_spec_finding : Result (Option Draft)
  unfolding spec_draft
  missing_enhancement_spec_finding = ok (spec_draft (project_area.artefacts enhancement_specs))

  unfoldable pub review_draft : Bool → Option Draft
  unfolding evidence_path
  review_draft true = none
  review_draft false = some (record {
    title = "Review evidence is missing";
    summary = join "Area '" (
        join project_area.area_id
          "' has no traceable review evidence tied to the area, with finding identifiers and statuses, under docs/reviews.");
    evidence = evidence_at evidence_path "declared_metadata" "artefacts.review_evidence" ∷ [];
    suggested_remediation =
        "Add review findings under docs/reviews that reference the area and include finding IDs plus explicit statuses."
        ∷ [];
    confidence = pos 9200;
  })

  -- `_missing_review_evidence_finding`
  unfoldable pub missing_review_evidence_finding : Result (Option Draft)
  unfolding has_traceable_review_evidence review_draft
  missing_review_evidence_finding =
      has_traceable_review_evidence >>= λ traceable. ok (review_draft traceable)

  unfoldable pub governance_checks : List Check
  unfolding boundary_finding missing_enhancement_spec_finding missing_review_evidence_finding
  governance_checks =
      record { rule_id = "GOV-001"; outcome = boundary_finding }
      ∷ record { rule_id = "GOV-002"; outcome = missing_enhancement_spec_finding }
      ∷ record { rule_id = "GOV-003"; outcome = missing_review_evidence_finding }
      ∷ []

  -- `evaluate_governance`
  unfoldable pub evaluate_governance : String → Option String → Result Evaluation
  unfolding validate_with_schema area_to_dict timestamp_of evaluate_checks governance_checks
      rules_by_id
  evaluate_governance standards_version evaluated_at = do
    validate_with_schema host.accepts (area_to_dict project_area) "project-area.schema.json"
    timestamp ← timestamp_of host.unicode.is_decimal standards_version evaluated_at
    evaluate_checks host.accepts "governance" project_area.area_id standards_version timestamp
        (rules_by_id host.snapshot "governance") governance_checks
