-- ===== src/CiOutputs/Summary.antt =====
-- `build_ci_output` from end to end.
use standards_control_plane.CiOutputs.Warnings.{
  CiSource, CiWarning, build_source, confidence_order, finding_warning, text_key, warning_sort_key,
}
use mathlib.Core.List.{Perm}
use standards_control_plane.Prelude.{
  ==-false→ne, >>=-eq-ok, Bool, Ensures, List, Option, Result, String, [], ap, arith, false, filter,
  guard, if◌then◌else◌, length, map, ok, refl, subst, sym, true, value_error, ◌++◌, ◌↔◌, ◌∙◌, ◌∷◌,
  ◌≡◌,
}
use standards_control_plane.Order.{sorted}
use standards_control_plane.Order.Sorted.{IsSorted, length-sorted, sorted-IsSorted, sorted-perm}
use standards_control_plane.Json.{Schemas, validate_with_schema}
use standards_control_plane.Audit.Build.{AuditResult, audit_to_dict}
use standards_control_plane.CiOutputs.{
  CiOutput, Thresholds, build_ci_output, ci_of, ci_to_dict, finding_warnings, is_known, outcome_of,
  regression_warnings,
}
use standards_control_plane.CiOutputs.Laws.{
  finding_warnings_lem, numbered, qualifies, regression_warnings_lem,
}

module _ (accepts : Schemas) (thresholds : Thresholds) (audit_result : AuditResult) where
  -- What is to be warned of: the findings that qualify, and the regressions if they are asked for.
  abbrev pub due : List CiWarning
  due =
      map finding_warning (filter (qualifies accepts thresholds) audit_result.findings)
      ++ (if thresholds.warn_on_regressions
          then numbered accepts thresholds 1 (sorted text_key audit_result.regressions)
          else [])

  pub record IsSummary (c : CiOutput) : Type 0 where
    pub complete : Perm c.warnings due
    pub in_order : IsSorted warning_sort_key c.warnings
    pub counted : c.warning_count ≡ length due
    pub passes : (c.outcome ≡ "pass") ↔ (due ≡ [])

  abbrev warn_regressions : Result (List CiWarning)
  warn_regressions =
      if thresholds.warn_on_regressions
      then regression_warnings accepts thresholds 1 (sorted text_key audit_result.regressions)
      else ok []

  regressions_if :
      (b : Bool) (ws : List CiWarning)
      → (if b
          then regression_warnings accepts thresholds 1 (sorted text_key audit_result.regressions)
          else ok [])
        ≡ ok ws
      → ws ≡ (
          if b
          then numbered accepts thresholds 1 (sorted text_key audit_result.regressions)
          else [])
  regressions_if true ws h =
      regression_warnings_lem accepts thresholds 1 (sorted text_key audit_result.regressions) h
  regressions_if false ws h = subst (Ensures (λ u. u ≡ [])) h refl

  no_warnings : (ws : List CiWarning) → length ws ≡ 0 → ws ≡ []
  no_warnings [] e = refl
  no_warnings (w ∷ ws) e = absurd (omega arith)

  outcome_iff : (ws : List CiWarning) → (outcome_of ws ≡ "pass") ↔ (length ws ≡ 0)
  outcome_iff [] = (λ e. refl, λ e. refl)
  outcome_iff (w ∷ ws) = (λ e. absurd (==-false→ne refl e), λ e. absurd (omega arith))

  ci_of-IsSummary :
      (source : CiSource) (ws : List CiWarning)
      → ws ≡ due
      → IsSummary (ci_of audit_result thresholds source (sorted warning_sort_key ws))
  ci_of-IsSummary source ws e =
      let sizes = length-sorted warning_sort_key ws ∙ ap length e in
      record {
        complete = subst (Perm (sorted warning_sort_key ws)) e (sorted-perm warning_sort_key ws);
        in_order = sorted-IsSorted warning_sort_key ws;
        counted = sizes;
        passes = (
          λ o. no_warnings due (sym sizes ∙ (outcome_iff (sorted warning_sort_key ws)).0 o),
          λ n. (outcome_iff (sorted warning_sort_key ws)).1 (sizes ∙ ap length n),
        );
      }

  -- A CI summary that is built warns, in order, exactly of the findings that qualify and, if they
  -- are asked for, of the regressions; it counts its warnings, and it passes without warnings
  -- exactly if there is nothing to warn of.
  pub build_ci_output-IsSummary :
      (source_mode : String) (base_ref head_ref : Option String) (changed_paths : List String)
      {c : CiOutput}
      → build_ci_output accepts thresholds audit_result source_mode base_ref head_ref changed_paths
        ≡ ok c
      → IsSummary c
  unfolding build_ci_output
  build_ci_output-IsSummary source_mode base_ref head_ref changed_paths h =
      let (_, _, h1) =
        >>=-eq-ok
          (validate_with_schema accepts (audit_to_dict audit_result) "audit-result.schema.json") _
          h in
      let (_, _, h2) =
        >>=-eq-ok
          (guard (is_known (confidence_order thresholds.minimum_confidence_class)) value_error) _
          h1 in
      let (source, _, h3) =
        >>=-eq-ok (build_source source_mode base_ref head_ref changed_paths) _ h2 in
      let (from_findings, f, h4) =
        >>=-eq-ok (finding_warnings accepts thresholds audit_result.findings) _ h3 in
      let (from_regressions, r, h5) = >>=-eq-ok warn_regressions _ h4 in
      let result =
        ci_of audit_result thresholds source
          (sorted warning_sort_key (from_findings ++ from_regressions)) in
      let (_, _, h6) =
        >>=-eq-ok (validate_with_schema accepts (ci_to_dict result) "ci-output.schema.json") _ h5 in
      subst (Ensures IsSummary) h6 (
        ci_of-IsSummary source (from_findings ++ from_regressions) (
          ap (λ l. l ++ from_regressions)
            (finding_warnings_lem accepts thresholds audit_result.findings f)
          ∙ ap
              (λ l.
                map finding_warning (filter (qualifies accepts thresholds) audit_result.findings)
                ++ l)
              (regressions_if thresholds.warn_on_regressions from_regressions r)))
