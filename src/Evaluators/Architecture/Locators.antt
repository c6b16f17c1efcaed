-- ===== src/Evaluators/Architecture/Locators.antt =====
-- The markers of evaluators/architecture.py, and where each of its checks finds them in a text.
use standards_control_plane.Prelude.{
  Bool, List, Option, String, [], any, filter, if◌then◌else◌, leb, none, not, some, suc, zero, ℕ,
  ◌&&◌, ◌-◌, ◌==◌, ◌||◌, ◌∷◌,
}
use standards_control_plane.Paths.{ends_with, with_slashes}
use standards_control_plane.Text.{
  Unicode, ends_with_any, first_marker, join_with, mentions, occurs_in, path_name, size,
}
use standards_control_plane.Text.Sources.{count_occurrences, import_lines, strip_comments}
use standards_control_plane.Extractor.{suffix}

-- `REMOTE_ACCESS_MARKERS`
abbrev pub remote_access_markers : List String
remote_access_markers = "fetch(" ∷ "axios." ∷ "requests." ∷ "httpx." ∷ []

-- `ASYNC_EVENT_MARKERS`
abbrev pub async_event_markers : List String
async_event_markers =
    "asyncio.create_task(" ∷ "threading.Thread(" ∷ "publish_event(" ∷ "emit_event(" ∷ []

-- `APPROVED_WRAPPER_MARKERS`
abbrev pub approved_wrapper_markers : List String
approved_wrapper_markers = "workflow_runner" ∷ "task_queue" ∷ "event_bus" ∷ []

-- `WORKFLOW_ACTION_MARKERS`
abbrev pub workflow_action_markers : List String
workflow_action_markers = "resolve" ∷ "approve" ∷ "reject" ∷ "dispatch" ∷ "submit" ∷ []

abbrev pub backend_markers : List String
backend_markers = "backend/services" ∷ "/backend/" ∷ "backend." ∷ []

abbrev pub frontend_markers : List String
frontend_markers =
    "/frontend/" ∷ "frontend/" ∷ "from frontend." ∷ "import frontend." ∷ "frontend." ∷ []

-- `_path_root`
unfoldable pub path_root : String → String
unfolding with_slashes occurs_in
path_root path_value =
    let normalised = with_slashes path_value in
    if occurs_in "/frontend/" normalised
    then "frontend"
    else if occurs_in "/backend/" normalised
    then "backend"
    else "other"

-- `_is_service_path`
unfoldable pub is_service_path : String → Bool
unfolding with_slashes occurs_in
is_service_path path_value = occurs_in "/backend/services/" (with_slashes path_value)

abbrev take_chars : ℕ → String → String
take_chars zero s = String.[]
take_chars (suc n) String.[] = String.[]
take_chars (suc n) (String.◌∷◌ c s) = String.◌∷◌ c (take_chars n s)

-- `Path(s).stem`
unfoldable pub stem : String → String
unfolding path_name suffix
stem s = let name = path_name s in take_chars (size name - size (suffix (name ∷ []))) name

module _ (unicode : Unicode) where
  -- `_is_remote_client_wrapper`
  unfoldable pub is_remote_client_wrapper : String → Bool
  unfolding with_slashes stem ends_with_any
  is_remote_client_wrapper path_value =
      ends_with_any (unicode.lower (stem (with_slashes path_value))) ("_client" ∷ "-client" ∷ [])

  -- `_is_test_path`
  unfoldable pub is_test_path : String → Bool
  unfolding with_slashes occurs_in ends_with
  is_test_path path_value =
      let normalised = unicode.lower (with_slashes path_value) in
      occurs_in "/tests/" normalised
      || (ends_with normalised "_test.py" || occurs_in "/__tests__/" normalised)

  abbrev any_line : List String → List String → Bool
  unfolding mentions
  any_line markers lines = any (mentions markers) lines

  -- The locator of a path that `_boundary_leak_finding` takes for a violation.
  unfoldable pub boundary_locator : String → String → Option String
  unfolding import_lines path_root any_line
  boundary_locator path_value content =
      let lines = import_lines unicode content in
      if path_root path_value == "frontend" && any_line backend_markers lines
      then some "cross-boundary import marker"
      else if path_root path_value == "backend" && any_line frontend_markers lines
      then some "cross-boundary import marker"
      else none

  -- The same of `_ui_orchestration_finding`.
  unfoldable pub orchestration_locator : String → Option String
  unfolding strip_comments count_occurrences mentions import_lines any_line
  orchestration_locator source =
      let content = strip_comments unicode source in
      let await_count = count_occurrences content "await " in
      let has_branching = mentions ("if (" ∷ "if " ∷ "switch " ∷ "try {" ∷ []) content in
      let has_backend_import = any_line backend_markers (import_lines unicode content) in
      let has_workflow_marker = mentions workflow_action_markers (unicode.lower content) in
      if has_backend_import
        || (leb 2 await_count || (leb 1 await_count && (has_branching && has_workflow_marker)))
      then some "ui orchestration marker"
      else none

  -- The same of `_ad_hoc_api_access_finding`, for a path that is not skipped.
  unfoldable pub access_locator : String → Option String
  unfolding strip_comments first_marker
  access_locator source = first_marker remote_access_markers (strip_comments unicode source)

  unfoldable pub is_skipped_for_access : String → Bool
  unfolding is_service_path is_test_path is_remote_client_wrapper
  is_skipped_for_access path =
      is_service_path path || (is_test_path path || is_remote_client_wrapper path)

  abbrev joined_hits : List String → Option String
  joined_hits [] = none
  joined_hits (hit ∷ hits) = some (join_with ", " (hit ∷ hits))

  -- The same of `_async_eventing_finding`.
  unfoldable pub eventing_locator : String → Option String
  unfolding strip_comments occurs_in mentions
  eventing_locator source =
      let content = strip_comments unicode source in
      if mentions approved_wrapper_markers content
      then none
      else joined_hits (filter (λ marker. occurs_in marker content) async_event_markers)

  unfoldable pub is_skipped_for_eventing : String → Bool
  unfolding path_root is_test_path
  is_skipped_for_eventing path = not (path_root path == "backend") || is_test_path path
