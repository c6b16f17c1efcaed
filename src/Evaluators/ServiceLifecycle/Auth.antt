-- ===== src/Evaluators/ServiceLifecycle/Auth.antt =====
-- `_svc003_findings` of evaluators/service_lifecycle.py: the declared auth modes of a service, and
-- the modes whose markers stand in the scanned code.
use standards_control_plane.Evaluators.ServiceLifecycle.Entries.Issues.{entry_of, mode_issues}
use Prim.Native.String.{◌++◌ as join}
use standards_control_plane.Json
use standards_control_plane.Prelude.{
  List, Option, Result, String, [], elem, err, filter, if◌then◌else◌, map, none, not, ok, some,
  traverse, ℕ, ◌++◌, ◌+◌, ◌==◌, ◌>>=◌, ◌∷◌,
}
use standards_control_plane.Prelude.Int.{pos, ℤ}
use standards_control_plane.Json.{Fields, Schemas, Value, arr, cons, nil, null, obj, to_list}
use standards_control_plane.Text.{Unicode, first_marker, join_with}
use standards_control_plane.Unique.Sets.{dedupe_sorted}
use standards_control_plane.Waivers.{WaiverRecord, load_waivers}
use standards_control_plane.Evaluators.{EvaluatorHost, direct_file, evidence_at, read_repo_file}
use standards_control_plane.Evaluators.ServiceLifecycle.{Issue, LifecycleHost, issue_at}
use standards_control_plane.Evaluators.ServiceLifecycle.Entries.{
  Entry, approved_modes, short_mode, type_name, value_or_null, with_mode, without_mode,
}

-- `MODE_CODE_MARKERS[mode]` of an approved mode
unfoldable pub mode_code_markers : String → List String
mode_code_markers mode =
    if mode == "mode.user_oidc"
    then "ControlTowerAuth" ∷ "ct_auth." ∷ "create_bff_routes" ∷ "CT_JWKS_URL" ∷ []
    else if mode == "mode.service_rs256"
    then "algorithms=[\"RS256\"]" ∷ "algorithms=['RS256']" ∷ "algorithm=\"RS256\""
      ∷ "algorithm='RS256'" ∷ []
    else if mode == "mode.api_key"
    then "X-API-Key" ∷ "x-api-key" ∷ []
    else "secrets.compare_digest" ∷ []

-- `_known_waiver_ids`: none if there is no file, if it cannot be loaded, or if it is empty.
unfoldable pub known_waiver_ids : Schemas → Option Value → Option (List String)
unfolding load_waivers
known_waiver_ids accepts none = none
known_waiver_ids accepts (some payload) = ids_of (load_waivers accepts (some payload))
  where
    ids_of : Result (List WaiverRecord) → Option (List String)
    ids_of (err e) = none
    ids_of (ok []) = none
    ids_of (ok (w ∷ ws)) = some (map (λ (v : WaiverRecord). v.waiver_id) (w ∷ ws))

-- The paths with their texts.
unfoldable pub read_sources : EvaluatorHost → List String → Result (List (String × String))
unfolding read_repo_file
read_sources host scanned_paths =
    traverse (λ path. read_repo_file host path >>= λ content. ok (path, content)) scanned_paths

abbrev add_hit : String → Option String → List (String × String) → List (String × String)
add_hit path none hits = hits
add_hit path (some marker) hits = (path, marker) ∷ hits

-- `_mode_marker_hits(…)[mode]`
unfoldable pub mode_marker_hits : List (String × String) → String → List (String × String)
unfolding mode_code_markers first_marker
mode_marker_hits [] mode = []
mode_marker_hits ((path, content) ∷ rest) mode =
    add_hit path (first_marker (mode_code_markers mode) content) (mode_marker_hits rest mode)

-- The variables of the loop over `accepted_modes`; the set `seen_modes` has what the list has.
pub record Walked : Type 0 where
  pub declared_modes : List String
  pub duplicates : List String
  pub issues : List Issue

module _ (unicode : Unicode) (lifecycle : LifecycleHost) (waiver_ids : Option (List String))
    (audit_date : ℕ) (sources : List (String × String)) (manifest_path service_name : String) where
  unfoldable pub enter : Walked → ℕ → Entry → Walked
  unfolding mode_issues
  enter w index (without_mode issue) = record w { issues = w.issues ++ (issue ∷ []) }
  enter w index (with_mode mode entry) = record {
    declared_modes =
        if elem mode w.declared_modes then w.declared_modes else w.declared_modes ++ (mode ∷ []);
    duplicates = if elem mode w.declared_modes then w.duplicates ++ (mode ∷ []) else w.duplicates;
    issues =
        w.issues
        ++ mode_issues unicode lifecycle waiver_ids audit_date manifest_path service_name mode index
            entry;
  }

  unfoldable pub walk_entries : Walked → ℕ → List Value → Walked
  unfolding enter entry_of
  walk_entries w index [] = w
  walk_entries w index (v ∷ vs) =
      walk_entries
        (enter w index
          (entry_of unicode lifecycle waiver_ids audit_date manifest_path service_name index v))
        (index + 1) vs

  abbrev about : String → String
  about rest = join "Service '" (join service_name (join "'" rest))

  abbrev modes_locator : String
  modes_locator = join service_name ".local.runtime_contract.auth_contract.accepted_modes"

  abbrev pub duplicate_issue : String → Issue
  unfolding issue_at short_mode
  duplicate_issue mode =
      issue_at manifest_path service_name (join "duplicate-mode-" (short_mode mode))
        "Mode declared more than once"
        (about (
          join " declares " (
            join mode
              " more than once in accepted_modes. Each approved mode may appear at most once.")))
        modes_locator
        (join "Collapse the duplicate "
          (join mode " entries into a single entry with the authoritative metadata."))
        (pos 9500)

  abbrev when_no_hit : List (String × String) → Issue → List Issue
  when_no_hit [] issue = issue ∷ []
  when_no_hit (hit ∷ hits) issue = []

  -- A declared mode without a marker in the code.
  abbrev missing_issues : String → List Issue
  unfolding issue_at short_mode mode_marker_hits
  missing_issues mode =
      if elem mode approved_modes
      then when_no_hit (mode_marker_hits sources mode) (
          issue_at manifest_path service_name (join "impl-missing-" (short_mode mode))
            (join "Declared " (join mode " has no matching implementation markers"))
            (about (
              join " declares " (
                join mode (
                  join
                    " but no implementation markers for that mode were found in scanned source. The code-pattern scan looked for: "
                    (join_with ", " (mode_code_markers mode))))))
            modes_locator
            (join "Implement handler code for " (
              join mode
                " in the service, or drop the mode from accepted_modes if it is not actually used."))
            (pos 8500))
      else []

  abbrev undeclared_at : String → List (String × String) → List Issue
  unfolding issue_at short_mode
  undeclared_at mode [] = []
  undeclared_at mode ((path, marker) ∷ hits) =
      record {
        service_name = some service_name;
        signal_key = join "impl-undeclared-" (short_mode mode);
        draft = record {
          title = join "Implementation markers present for undeclared " mode;
          summary = about (
              join " does not declare " (
                join mode (
                  join " in accepted_modes, but a marker for that mode was found in "
                    (join path (join " (locator: '" (join marker "')."))))));
          evidence =
              direct_file path marker
              ∷ evidence_at manifest_path "declared_metadata" modes_locator
              ∷ [];
          suggested_remediation =
              join "Declare "
                (join mode " in accepted_modes, or remove the implementation path that handles it.")
              ∷ [];
          confidence = pos 8500;
        };
      }
      ∷ []

  abbrev pub flat_issues : (String → List Issue) → List String → List Issue
  flat_issues f [] = []
  flat_issues f (x ∷ xs) = f x ++ flat_issues f xs

  -- What is reported of the code, unless no code is scanned.
  unfoldable pub implementation_issues : List String → List Issue
  unfolding missing_issues undeclared_at mode_marker_hits
  implementation_issues declared_modes = if_scanned sources (
      flat_issues missing_issues declared_modes
      ++ flat_issues (λ mode. undeclared_at mode (mode_marker_hits sources mode))
          (filter (λ mode. not (elem mode declared_modes)) approved_modes))
    where
      if_scanned : List (String × String) → List Issue → List Issue
      if_scanned [] issues = []
      if_scanned (s ∷ ss) issues = issues

  unfoldable pub after_walk : Walked → List Issue
  unfolding duplicate_issue implementation_issues dedupe_sorted
  after_walk w =
      w.issues
      ++ (map duplicate_issue (dedupe_sorted w.duplicates)
          ++ implementation_issues w.declared_modes)

  abbrev auth_issue : String → String → String → String → String → ℤ → Issue
  unfolding issue_at
  auth_issue signal_key title summary key remediation confidence =
      issue_at manifest_path service_name signal_key title (about summary)
        (join service_name (join ".local.runtime_contract.auth_contract" key)) remediation
        confidence

  abbrev no_modes : List Issue
  unfolding auth_issue
  no_modes =
      auth_issue "empty-accepted-modes" "auth_contract.accepted_modes is empty"
        " declares an auth_contract block but no accepted_modes entries." ".accepted_modes"
        "Declare at least one approved mode in accepted_modes." (pos 9500)
      ∷ []

  unfoldable pub modes_issues : Value → List Issue
  unfolding auth_issue no_modes walk_entries after_walk
  modes_issues (arr (cons v vs)) = after_walk (
      walk_entries (record { declared_modes = []; duplicates = []; issues = [] }) 0
        (to_list (cons v vs)))
  modes_issues (arr nil) = no_modes
  modes_issues null = no_modes
  modes_issues v =
      auth_issue "accepted-modes-wrong-type" "accepted_modes is not a list"
        (join " accepted_modes value is not a list (got " (join (type_name v) ")."))
        ".accepted_modes" "Rewrite accepted_modes as a non-empty list of mode entries." (pos 9700)
      ∷ []

  unfoldable pub auth_contract_issues : Value → List Issue
  unfolding auth_issue modes_issues Json.get
  auth_contract_issues null =
      auth_issue "missing-auth-contract" "Service missing auth_contract block"
        (join " has no auth_contract under runtime_contract in " (join manifest_path ".")) ""
        "Declare auth_contract.accepted_modes listing one or more approved auth modes." (pos 9500)
      ∷ []
  auth_contract_issues (obj auth_contract) =
      modes_issues (value_or_null (Json.get "accepted_modes" auth_contract))
  auth_contract_issues v =
      auth_issue "auth-contract-wrong-type" "auth_contract block is not a mapping"
        (join " has an auth_contract value that is not a mapping (got " (join (type_name v) ")."))
        "" "Rewrite auth_contract as a mapping containing an accepted_modes array." (pos 9700)
      ∷ []

  -- What `_svc003_findings` reports of one service.
  unfoldable pub auth_issues : Option Fields → List Issue
  unfolding auth_contract_issues Json.get
  auth_issues none = []
  auth_issues (some contract) =
      auth_contract_issues (value_or_null (Json.get "auth_contract" contract))
