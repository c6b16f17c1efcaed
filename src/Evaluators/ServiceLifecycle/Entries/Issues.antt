-- ===== src/Evaluators/ServiceLifecycle/Entries/Issues.antt =====
-- The checks of one entry of `accepted_modes` in `_svc003_findings`.
use Prim.Native.String.{◌++◌ as join}
use standards_control_plane.Json
use standards_control_plane.Prelude.{
  List, Option, String, [], elem, filter, if◌then◌else◌, leb, none, not, some, ℕ, ◌++◌, ◌==◌, ◌||◌,
  ◌∷◌,
}
use standards_control_plane.Prelude.Int.{pos, ℤ}
use standards_control_plane.Order.{sorted}
use standards_control_plane.Decimal.{decimal as digits_of}
use standards_control_plane.Json.{Fields, Value, obj, str, text_of}
use standards_control_plane.Text.{Unicode, join_with}
use standards_control_plane.Unique.Sets.{by_text}
use standards_control_plane.Evaluators.ServiceLifecycle.{Issue, LifecycleHost, has_key, issue_at}
use standards_control_plane.Evaluators.ServiceLifecycle.Entries.{
  CloseDate, Entry, allowed_fields, approved_modes, date, is_audience, is_jwks_url,
  mode_metadata_required, names_of, no_date, not_a_date, parse_close_date, short_mode, type_name,
  value_or_null, with_mode, without_mode,
}

module _ (unicode : Unicode) (lifecycle : LifecycleHost) (known_waiver_ids : Option (List String))
    (audit_date : ℕ) (manifest_path service_name : String) where
  abbrev about : String → String
  about rest = join "Service '" (join service_name (join "'" rest))

  -- The place of an entry, and of a key in it.
  abbrev entry_locator : ℕ → String → String
  unfolding digits_of
  entry_locator index key = join service_name (
      join ".local.runtime_contract.auth_contract.accepted_modes["
        (join (digits_of index) (join "]" key)))

  abbrev indexed : String → ℕ → String
  unfolding digits_of
  indexed signal index = join signal (join "-" (digits_of index))

  abbrev entry_issue : String → String → String → String → String → ℤ → Issue
  unfolding issue_at
  entry_issue signal_key title summary locator remediation confidence =
      issue_at manifest_path service_name signal_key title (about summary) locator remediation
        confidence

  abbrev when_any : List String → Issue → List Issue
  when_any [] issue = []
  when_any (x ∷ xs) issue = issue ∷ []

  abbrev unknown_field_issues : String → ℕ → Fields → List Issue
  unfolding entry_issue allowed_fields sorted short_mode entry_locator
  unknown_field_issues mode index entry =
      let unknown_fields =
        sorted by_text (filter (λ k. not (elem k (allowed_fields mode))) (names_of entry)) in
      when_any unknown_fields (
        entry_issue (indexed (join "unknown-field-" (short_mode mode)) index)
          (join mode " entry carries unknown fields")
          (join " " (
            join mode (
              join " entry has unknown field(s): " (
                join (join_with ", " unknown_fields)
                  ". The auth-contract schema does not allow extra fields. Typos in required-field names surface here."))))
          (entry_locator index "")
          (join "Remove or correct "
            (join (join_with ", " unknown_fields) (join " in the " (join mode " entry."))))
          (pos 9700))

  abbrev audience_issues : String → ℕ → Option String → List Issue
  unfolding entry_issue is_audience short_mode entry_locator
  audience_issues mode index none = []
  audience_issues mode index (some audience) =
      if is_audience audience
      then []
      else entry_issue (indexed (join "audience-invalid-" (short_mode mode)) index)
          (join mode " audience is not a bare app-id")
          (join " " (
            join mode (
              join " audience '" (
                join audience
                  "' does not match the bare app-id pattern '^[a-z][a-z0-9-]*$'. The audience must be the service's services.yml key, not a URI."))))
          (entry_locator index ".audience")
          "Set audience to the service's services.yml key (e.g. 'widget', 'scp-dev')." (pos 9700)
        ∷ []

  abbrev jwks_issues : String → ℕ → Option String → List Issue
  unfolding entry_issue is_jwks_url short_mode entry_locator
  jwks_issues mode index none = []
  jwks_issues mode index (some jwks_url) =
      if is_jwks_url unicode jwks_url
      then []
      else entry_issue (indexed (join "jwks-url-invalid-" (short_mode mode)) index)
          (join mode " jwks_url is not a valid http(s) URL")
          (join " "
            (join mode (join " jwks_url '" (join jwks_url "' is not a valid http(s) URL."))))
          (entry_locator index ".jwks_url")
          "Set jwks_url to the authoritative JWKS endpoint URL the service verifies against."
          (pos 9500)
        ∷ []

  abbrev waiver_issues : ℕ → Option (List String) → Option String → List Issue
  unfolding entry_issue entry_locator
  waiver_issues index (some known) (some waiver_ref) =
      if waiver_ref == "" || elem waiver_ref known
      then []
      else entry_issue (indexed "bearer-legacy-waiver-not-found" index)
          "mode.bearer_legacy waiver_ref is not registered"
          (join " mode.bearer_legacy waiver_ref '" (
            join waiver_ref
              "' is not found in the waivers registered in output/findings/waivers.json."))
          (entry_locator index ".waiver_ref")
          "Register the migration waiver in output/findings/waivers.json, or update the waiver_ref to match an existing waiver_id."
          (pos 9500)
        ∷ []
  waiver_issues index _ _ = []

  abbrev close_date_issues : ℕ → Value → CloseDate → List Issue
  unfolding entry_issue entry_locator
  close_date_issues index value no_date = []
  close_date_issues index value not_a_date =
      entry_issue (indexed "bearer-legacy-close-date-malformed" index)
        "mode.bearer_legacy deprecation_close_date is not a valid ISO date"
        (join " mode.bearer_legacy deprecation_close_date '"
          (join (lifecycle.repr value) "' is not a parseable YYYY-MM-DD date."))
        (entry_locator index ".deprecation_close_date")
        "Set deprecation_close_date to a YYYY-MM-DD date." (pos 9700)
      ∷ []
  close_date_issues index value (date day) =
      if leb day audit_date
      then entry_issue (indexed "bearer-legacy-close-date-passed" index)
          "mode.bearer_legacy deprecation_close_date has passed"
          (join " mode.bearer_legacy deprecation_close_date is " (
            join (lifecycle.iso_format day)
              (join ", on or before audit date " (join (lifecycle.iso_format audit_date) "."))))
          (entry_locator index ".deprecation_close_date")
          "Complete the migration to mode.api_key or another approved mode and remove the bearer_legacy entry, or renew the waiver with an updated close date after governance review."
          (pos 9700)
        ∷ []
      else []

  -- The checks of the values of an entry whose keys are all there.
  unfoldable pub value_issues : String → ℕ → Fields → List Issue
  unfolding Json.get audience_issues jwks_issues waiver_issues close_date_issues parse_close_date
  value_issues mode index entry =
      (if elem mode ("mode.user_oidc" ∷ "mode.service_rs256" ∷ [])
        then audience_issues mode index (text_of (Json.get "audience" entry))
          ++ jwks_issues mode index (text_of (Json.get "jwks_url" entry))
        else [])
      ++ (if mode == "mode.bearer_legacy"
          then waiver_issues index known_waiver_ids (text_of (Json.get "waiver_ref" entry))
            ++ (let close = value_or_null (Json.get "deprecation_close_date" entry) in
                close_date_issues index close (parse_close_date lifecycle.from_iso close))
          else [])

  abbrev metadata_issues : String → ℕ → Fields → List String → List Issue
  unfolding entry_issue short_mode entry_locator value_issues
  metadata_issues mode index entry [] = value_issues mode index entry
  metadata_issues mode index entry (name ∷ names) =
      entry_issue (indexed (join "missing-metadata-" (short_mode mode)) index)
        (join mode " entry missing required metadata")
        (join " declares "
          (join mode (join " but the entry is missing: " (join_with ", " (name ∷ names)))))
        (entry_locator index "")
        (join "Add " (join (join_with ", " (name ∷ names)) (join " to the " (join mode " entry."))))
        (pos 9500)
      ∷ []

  -- What the loop reports of an entry with a mode.
  unfoldable pub mode_issues : String → ℕ → Fields → List Issue
  unfolding entry_issue unknown_field_issues metadata_issues mode_metadata_required
  mode_issues mode index entry =
      let missing = filter (λ k. not (has_key k entry)) (mode_metadata_required mode) in
      if elem mode approved_modes
      then unknown_field_issues mode index entry ++ metadata_issues mode index entry missing
      else entry_issue (indexed "unknown-mode" index)
          "Declared auth mode is not in the approved set"
          (join " declares mode '" (
            join mode
              "', which is not one of mode.user_oidc, mode.service_rs256, mode.api_key, mode.bearer_legacy."))
          (entry_locator index ".mode")
          "Replace the mode value with one of the four approved modes, or raise a standards change."
          (pos 9700)
        ∷ []

  unfoldable pub entry_of : ℕ → Value → Entry
  unfolding Json.get entry_issue entry_locator
  entry_of index (obj entry) = of_mode (value_or_null (Json.get "mode" entry))
    where
      of_mode : Value → Entry
      of_mode (str mode) = with_mode mode entry
      of_mode v = without_mode (
          entry_issue (indexed "malformed-mode" index) "accepted_modes entry has non-string mode"
            (join " accepted_modes[" (
              join (digits_of index)
                (join "].mode is not a string (got " (join (type_name v) ")."))))
            (entry_locator index ".mode") "Set 'mode' to one of the four approved mode strings."
            (pos 9700))
  entry_of index v = without_mode (
      entry_issue (indexed "malformed-entry" index) "accepted_modes entry is not a mapping"
        (join " accepted_modes["
          (join (digits_of index) (join "] is not a mapping (got " (join (type_name v) ")."))))
        (entry_locator index "")
        "Rewrite the entry as a mapping with a 'mode' key and the required per-mode metadata."
        (pos 9700))
