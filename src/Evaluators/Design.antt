-- ===== src/Evaluators/Design.antt =====
-- evaluators/design.py: the three checks on the screens of an area.
use Prim.Native.Char.{code}
use standards_control_plane.Prelude.{
  Bool, List, Option, Result, String, [], false, leb, nat_eq, none, not, ok, some, suc, true, zero,
  ℕ, ◌&&◌, ◌++◌, ◌>>=◌, ◌||◌, ◌∷◌,
}
use standards_control_plane.Prelude.Int.{pos, ℤ}
use standards_control_plane.Text.{Unicode, drop_chars, mentions, size, span, starts_with}
use standards_control_plane.Normaliser.Build.{ProjectArea, ui_components}
use standards_control_plane.Evaluators.{
  Check, Draft, Evaluation, EvaluatorHost, direct_file, evaluate_checks, first_path_where,
  rules_by_id, timestamp_of,
}

-- `TOKEN_MARKERS`
abbrev pub token_markers : List String
token_markers = "tokens." ∷ "token." ∷ "space-" ∷ "color-" ∷ "text-" ∷ "bg-" ∷ []

-- `APPROVED_COMPONENT_MARKERS`
abbrev pub approved_component_markers : List String
approved_component_markers =
    "<Button" ∷ "import { Button" ∷ "from \"@/components\"" ∷ "from '../components'" ∷ []

-- `RAW_PRIMITIVE_MARKERS`
abbrev pub raw_primitive_markers : List String
raw_primitive_markers = "<button" ∷ "<input" ∷ "<select" ∷ []

-- `INTERACTIVE_STATE_MARKERS`
abbrev pub interactive_state_markers : List String
interactive_state_markers = "disabled" ∷ "aria-busy" ∷ "isLoading" ∷ "loading" ∷ []

abbrev is_hex : ℕ → Bool
is_hex c = (leb 48 c && leb c 57) || ((leb 97 c && leb c 102) || (leb 65 c && leb c 70))

-- At least `n` characters at the head pass.
begins_with : (ℕ → Bool) → ℕ → String → Bool
begins_with p zero s = true
begins_with p (suc n) String.[] = false
begins_with p (suc n) (String.◌∷◌ c s) = p (code c) && begins_with p n s

module _ (unicode : Unicode) where
  ends_word : String → Bool
  ends_word String.[] = true
  ends_word (String.◌∷◌ c s) = not (unicode.is_word (code c))

  abbrev pixels_behind : String × String → Bool
  unfolding starts_with ends_word
  pixels_behind (digits, rest) =
      (nat_eq (size digits) 2 || nat_eq (size digits) 3)
      && (starts_with rest "px" && ends_word (drop_chars 2 rest))

  -- A match of `HARDCODED_STYLE_PATTERN` at the head, behind a character of a word or not.
  unfoldable pub style_at : Bool → String → Bool
  unfolding starts_with begins_with span pixels_behind
  style_at behind_word s =
      (starts_with s "#" && begins_with is_hex 3 (drop_chars 1 s))
      || ((not behind_word && pixels_behind (span unicode.is_decimal s))
          || starts_with s "style={{")

  -- `HARDCODED_STYLE_PATTERN.search(s)`
  unfoldable pub has_hardcoded_style : Bool → String → Bool
  unfolding style_at
  has_hardcoded_style behind_word String.[] = false
  has_hardcoded_style behind_word (String.◌∷◌ c s) =
      style_at behind_word (String.◌∷◌ c s) || has_hardcoded_style (unicode.is_word (code c)) s

module _ (host : EvaluatorHost) (project_area : ProjectArea) where
  abbrev pub draft_at : Draft → String → Option String → Option Draft
  draft_at draft locator none = none
  draft_at draft locator (some path) =
      some (record draft { evidence = direct_file path locator ∷ [] })

  -- The first screen that passes the test is the evidence.
  unfoldable pub screen_check :
      (String → Bool) → String → String → String → String → ℤ → Result (Option Draft)
  unfolding first_path_where
  screen_check test title summary locator remediation confidence =
      first_path_where host test (project_area.artefacts ui_components) >>= λ found. ok (
        draft_at
          (record {
            title = title;
            summary = summary;
            evidence = [];
            suggested_remediation = remediation ∷ [];
            confidence = confidence;
          })
          locator found)

  -- `_approved_component_finding`
  unfoldable pub approved_component_finding : Result (Option Draft)
  unfolding screen_check mentions
  approved_component_finding =
      screen_check
        (λ content.
          mentions raw_primitive_markers content
          && not (mentions approved_component_markers content))
        "Screen uses off-pattern raw primitives"
        "The UI implementation uses raw interactive primitives in a screen module without an approved component marker."
        "raw primitive marker"
        "Prefer the approved component layer for screen-level interactive elements." (pos 8300)

  -- `_token_usage_finding`
  unfoldable pub token_usage_finding : Result (Option Draft)
  unfolding screen_check mentions has_hardcoded_style
  token_usage_finding =
      screen_check
        (λ content.
          has_hardcoded_style host.unicode false content && not (mentions token_markers content))
        "Screen uses hard-coded visual values"
        "The UI implementation carries explicit visual literals with no token-like marker for spacing or colour."
        "hard-coded visual literal"
        "Replace bespoke visual literals with token-backed spacing and colour references."
        (pos 8500)

  -- `_interactive_state_finding`
  unfoldable pub interactive_state_finding : Result (Option Draft)
  unfolding screen_check mentions
  interactive_state_finding =
      screen_check
        (λ content.
          mentions (raw_primitive_markers ++ ("onClick" ∷ [])) content
          && not (mentions interactive_state_markers content))
        "Interactive elements omit state markers"
        "The screen exposes action controls with no disabled, busy, or loading marker in the local implementation."
        "missing interactive-state marker"
        "Expose disabled or busy state markers on primary interactive elements." (pos 8200)

  unfoldable pub design_checks : List Check
  unfolding approved_component_finding token_usage_finding interactive_state_finding
  design_checks =
      record { rule_id = "DS-001"; outcome = approved_component_finding }
      ∷ record { rule_id = "DS-002"; outcome = token_usage_finding }
      ∷ record { rule_id = "DS-003"; outcome = interactive_state_finding }
      ∷ []

  -- `evaluate_design`
  unfoldable pub evaluate_design : String → Option String → Result Evaluation
  unfolding timestamp_of evaluate_checks design_checks rules_by_id
  evaluate_design standards_version evaluated_at = do
    timestamp ← timestamp_of host.unicode.is_decimal standards_version evaluated_at
    evaluate_checks host.accepts "design" project_area.area_id standards_version timestamp
        (rules_by_id host.snapshot "design") design_checks
