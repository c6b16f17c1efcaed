-- ===== src/Evaluators/Product.antt =====
-- evaluators/product.py: the three checks on the language of specifications and screens.
use Prim.Native.String.{◌++◌ as join}
use standards_control_plane.Prelude.{
  Bool, List, Option, Result, String, [], if◌then◌else◌, none, not, ok, some, ◌&&◌, ◌==◌, ◌>>=◌,
  ◌>>◌, ◌||◌, ◌∷◌,
}
use standards_control_plane.Prelude.Int.{pos}
use standards_control_plane.Text.{mentions}
use standards_control_plane.Normaliser.Build.{ProjectArea, enhancement_specs, ui_components}
use standards_control_plane.Evaluators.{
  Check, Draft, Evaluation, EvaluatorHost, direct_file, evaluate_checks, first_of, first_path_where,
  joined_text, rules_by_id, timestamp_of,
}

-- `USER_OUTCOME_MARKERS`
abbrev pub user_outcome_markers : List String
user_outcome_markers = "review" ∷ "resolve" ∷ "approve" ∷ "manage" ∷ "track" ∷ "help" ∷ []

-- `INTERNAL_MARKERS`
abbrev pub internal_markers : List String
internal_markers =
    "shard" ∷ "pipeline" ∷ "recompute" ∷ "replay" ∷ "raw event" ∷ "console" ∷ "internals" ∷ []

module _ (host : EvaluatorHost) (project_area : ProjectArea) where
  -- `_spec_text`
  unfoldable pub spec_text : Result String
  unfolding joined_text
  spec_text = joined_text host (project_area.artefacts enhancement_specs)

  -- `_ui_text`
  unfoldable pub ui_text : Result String
  unfolding joined_text
  ui_text = joined_text host (project_area.artefacts ui_components)

  abbrev pub drafted : Bool → Result Draft → Result (Option Draft)
  drafted b draft = if b then (draft >>= λ d. ok (some d)) else ok none

  -- `_job_to_be_done_finding`
  unfoldable pub job_to_be_done_finding : Result (Option Draft)
  unfolding spec_text mentions
  job_to_be_done_finding = spec_text >>= λ source.
      (let content = host.unicode.lower source in
        drafted
          (not (content == "")
            && (mentions internal_markers content && not (mentions user_outcome_markers content)))
          (first_of (project_area.artefacts enhancement_specs) >>= λ spec_path. ok (record {
            title = "Feature intent reads as internal mechanics";
            summary =
                "The enhancement spec foregrounds internal system activity without clearly stating the user task or outcome.";
            evidence = direct_file spec_path "internal-language dominant spec" ∷ [];
            suggested_remediation =
                "Rewrite the enhancement summary around the user task and intended outcome." ∷ [];
            confidence = pos 7800;
          })))

  abbrev pub exposing : Option String → Option Draft
  exposing none = none
  exposing (some path_value) = some (record {
    title = "Screen actions expose internal mechanics";
    summary =
        "The visible screen language reads like internal maintenance or pipeline control rather than a user outcome.";
    evidence = direct_file path_value "internal-language action marker" ∷ [];
    suggested_remediation =
        "Rename visible actions so they read like user outcomes rather than internal operations."
        ∷ [];
    confidence = pos 8000;
  })

  -- `_action_alignment_finding`
  unfoldable pub action_alignment_finding : Result (Option Draft)
  unfolding ui_text first_path_where mentions
  action_alignment_finding = do
    ui_text
    found ←
        first_path_where host (λ content. mentions internal_markers (host.unicode.lower content))
          (project_area.artefacts ui_components)
    ok (exposing found)

  -- `_language_consistency_finding`
  unfoldable pub language_consistency_finding : Result (Option Draft)
  unfolding spec_text ui_text mentions
  language_consistency_finding = spec_text >>= λ specs. ui_text >>= λ screens.
      (let area_id = host.unicode.lower project_area.area_id in
        let combined_text =
          join (host.unicode.lower specs) (join "\n" (host.unicode.lower screens)) in
        drafted
          (mentions ("internals" ∷ "console" ∷ "pipeline" ∷ []) area_id
            || mentions ("shard" ∷ "raw event" ∷ "recompute" ∷ "replay" ∷ []) combined_text)
          (first_of project_area.paths >>= λ evidence_path. ok (record {
            title = "Visible terminology is not user-facing";
            summary =
                "The route or visible labels foreground internal architecture terms instead of stable product language.";
            evidence = direct_file evidence_path "internal terminology marker" ∷ [];
            suggested_remediation =
                "Replace internal architecture terms in visible language with stable product terminology."
                ∷ [];
            confidence = pos 7600;
          })))

  unfoldable pub product_checks : List Check
  unfolding job_to_be_done_finding action_alignment_finding language_consistency_finding
  product_checks =
      record { rule_id = "PROD-001"; outcome = job_to_be_done_finding }
      ∷ record { rule_id = "PROD-002"; outcome = action_alignment_finding }
      ∷ record { rule_id = "PROD-003"; outcome = language_consistency_finding }
      ∷ []

  -- `evaluate_product`
  unfoldable pub evaluate_product : String → Option String → Result Evaluation
  unfolding timestamp_of evaluate_checks product_checks rules_by_id
  evaluate_product standards_version evaluated_at = do
    timestamp ← timestamp_of host.unicode.is_decimal standards_version evaluated_at
    evaluate_checks host.accepts "product" project_area.area_id standards_version timestamp
        (rules_by_id host.snapshot "product") product_checks
