-- ===== src/Evaluators/Ux.antt =====
-- evaluators/ux.py: the three checks on the pages of an area.
use standards_control_plane.Prelude.{
  Bool, List, Option, Result, String, [], filter, if◌then◌else◌, map, none, ok, some, ◌&&◌, ◌>>=◌,
  ◌∷◌,
}
use standards_control_plane.Prelude.Int.{pos, ℤ}
use standards_control_plane.Paths.{with_slashes}
use standards_control_plane.Text.{ends_with_any, mentions}
use standards_control_plane.Normaliser.Build.{ProjectArea, ui_components}
use standards_control_plane.Evaluators.{
  Check, Draft, Evaluation, EvaluatorHost, direct_file, evaluate_checks, first_path_where,
  joined_text, rules_by_id, timestamp_of,
}

-- `PRIMARY_ACTION_MARKERS`
abbrev pub primary_action_markers : List String
primary_action_markers = "<button" ∷ "Button" ∷ "onClick" ∷ "primaryAction" ∷ "href=" ∷ []

-- `LOADING_MARKERS`, `EMPTY_MARKERS` and `ERROR_MARKERS`
abbrev pub loading_markers : List String
loading_markers = "loading" ∷ "spinner" ∷ "isLoading" ∷ "pending" ∷ []

abbrev pub empty_markers : List String
empty_markers = "empty" ∷ "no results" ∷ "no items" ∷ "nothing to review" ∷ []

abbrev pub error_markers : List String
error_markers = "error" ∷ "failed" ∷ "try again" ∷ "retry" ∷ []

-- `NAVIGATION_MARKERS`
abbrev pub navigation_markers : List String
navigation_markers = "<h1" ∷ "Heading" ∷ "breadcrumb" ∷ "nav" ∷ "title:" ∷ []

module _ (host : EvaluatorHost) (project_area : ProjectArea) where
  -- `_page_paths`
  unfoldable pub page_paths : List String
  unfolding with_slashes ends_with_any
  page_paths =
      filter
        (λ path_value. ends_with_any (with_slashes path_value) ("/page.tsx" ∷ "/page.jsx" ∷ []))
        (project_area.artefacts ui_components)

  abbrev pub missing_marker : String → Draft → Option String → Option Draft
  missing_marker page draft (some path) = none
  missing_marker page draft none = some draft

  -- The check for a marker in one of the pages; the evidence is the first page.
  unfoldable pub page_check :
      List String → String → String → String → String → ℤ → List String → Result (Option Draft)
  unfolding first_path_where mentions
  page_check markers title summary locator remediation confidence [] = ok none
  page_check markers title summary locator remediation confidence (page ∷ pages) =
      first_path_where host (mentions markers) (page ∷ pages) >>= λ found. ok (
        missing_marker page
          (record {
            title = title;
            summary = summary;
            evidence = direct_file page locator ∷ [];
            suggested_remediation = remediation ∷ [];
            confidence = confidence;
          })
          found)

  -- `_primary_action_finding`
  unfoldable pub primary_action_finding : Result (Option Draft)
  unfolding page_check page_paths
  primary_action_finding =
      page_check primary_action_markers "Screen lacks an explicit primary action"
        "The route entry point does not expose an obvious action marker, so the user outcome is hard to infer from the implementation shape."
        "missing primary action marker"
        "Expose one clear next-step action or review step in the route entry point." (pos 8400)
        page_paths

  unfoldable pub covers_states : String → Bool
  unfolding mentions
  covers_states content =
      mentions (map host.unicode.lower loading_markers) content
      && (mentions (map host.unicode.lower empty_markers) content
          && mentions (map host.unicode.lower error_markers) content)

  unfoldable pub state_coverage : List String → Result (Option Draft)
  unfolding joined_text covers_states
  state_coverage [] = ok none
  state_coverage (page ∷ pages) =
      joined_text host (project_area.artefacts ui_components) >>= λ content. ok (
        if covers_states (host.unicode.lower content)
        then none
        else some (record {
          title = "Screen omits one or more basic state markers";
          summary =
              "The UI implementation does not show a complete local signal set for loading, empty, and error handling.";
          evidence = direct_file page "missing loading/empty/error markers" ∷ [];
          suggested_remediation =
              "Represent loading, empty, and error states explicitly in the route or adjacent screen components."
              ∷ [];
          confidence = pos 8300;
        }))

  -- `_state_coverage_finding`
  unfoldable pub state_coverage_finding : Result (Option Draft)
  unfolding state_coverage page_paths
  state_coverage_finding = state_coverage page_paths

  -- `_navigation_clarity_finding`
  unfoldable pub navigation_clarity_finding : Result (Option Draft)
  unfolding page_check page_paths
  navigation_clarity_finding =
      page_check navigation_markers "Screen lacks a clear role or navigation cue"
        "The route entry point has no obvious heading, title, breadcrumb, or navigation marker to orient the user."
        "missing heading or navigation marker"
        "Add a heading, title, or breadcrumb-level cue that makes the screen role obvious."
        (pos 8000) page_paths

  unfoldable pub ux_checks : List Check
  unfolding primary_action_finding state_coverage_finding navigation_clarity_finding
  ux_checks =
      record { rule_id = "UX-001"; outcome = primary_action_finding }
      ∷ record { rule_id = "UX-002"; outcome = state_coverage_finding }
      ∷ record { rule_id = "UX-003"; outcome = navigation_clarity_finding }
      ∷ []

  -- `evaluate_ux`
  unfoldable pub evaluate_ux : String → Option String → Result Evaluation
  unfolding timestamp_of evaluate_checks ux_checks rules_by_id
  evaluate_ux standards_version evaluated_at = do
    timestamp ← timestamp_of host.unicode.is_decimal standards_version evaluated_at
    evaluate_checks host.accepts "ux" project_area.area_id standards_version timestamp
        (rules_by_id host.snapshot "ux") ux_checks
