-- ===== src/Evaluators/ServiceLifecycle/Contracts.antt =====
-- The checks of runtime contracts and of health handlers in evaluators/service_lifecycle.py.
use Prim.Native.String.{◌++◌ as join}
use standards_control_plane.Json
use standards_control_plane.Prelude.{
  Bool, List, Option, Result, String, [], false, filter, if◌then◌else◌, none, not, ok, some, ◌&&◌,
  ◌++◌, ◌==◌, ◌>>=◌, ◌||◌, ◌∷◌,
}
use standards_control_plane.Prelude.Int.{pos}
use standards_control_plane.Json.{Fields, text_of}
use standards_control_plane.Text.{join_with, occurs_in}
use standards_control_plane.Evaluators.{EvaluatorHost, first_path_where}
use standards_control_plane.Evaluators.ServiceLifecycle.{
  Issue, directory_exists, has_key, issue_at, required_runtime_contract_fields,
}

module _ (host : EvaluatorHost) where
  module _ (manifest_path : String) where
    abbrev named : String → String → String
    named service_name rest = join "Service '" (join service_name (join "'" rest))

    abbrev if_any : List String → List Issue → List Issue
    if_any [] issues = []
    if_any (x ∷ xs) issues = issues

    unfoldable pub missing_directory : String → Option String → List Issue
    unfolding issue_at directory_exists
    missing_directory service_name none = []
    missing_directory service_name (some working_dir) =
        if working_dir == "" || directory_exists host working_dir
        then []
        else issue_at manifest_path service_name "working-dir-missing"
            "Runtime contract working_dir does not exist"
            (named service_name (
              join " declares working_dir '" (
                join working_dir
                  "' but no directory exists at that path relative to the repo root.")))
            (join service_name ".local.runtime_contract.working_dir")
            "Update working_dir to point at the service's real directory, or create the directory."
            (pos 9700)
          ∷ []

    -- What `_svc001_findings` reports of one service.
    unfoldable pub contract_issues : String → Option Fields → List Issue
    unfolding issue_at Json.get missing_directory
    contract_issues service_name none =
        issue_at manifest_path service_name "missing-runtime-contract"
          "Service missing runtime_contract block"
          (named service_name (
            join " has no runtime_contract under its local environment in "
              (join manifest_path ".")))
          (join service_name ".local.runtime_contract")
          "Add a runtime_contract block under local declaring start_command, working_dir, interpreter, required_infra, and group."
          (pos 9500)
        ∷ []
    contract_issues service_name (some contract) =
        let missing_fields =
          filter (λ name. not (has_key name contract)) required_runtime_contract_fields in
        if_any missing_fields (
          issue_at manifest_path service_name "missing-required-fields"
            "Runtime contract missing required fields"
            (named service_name
              (join " runtime_contract is missing: " (join_with ", " missing_fields)))
            (join service_name ".local.runtime_contract")
            (join "Declare "
              (join (join_with ", " missing_fields) " under the runtime_contract block."))
            (pos 9500)
          ∷ [])
        ++ ((if is_venv (text_of (Json.get "interpreter" contract))
                && not (has_key "venv_path" contract)
              then issue_at manifest_path service_name "python-venv-missing-venv-path"
                  "python-venv interpreter requires venv_path"
                  (named service_name
                    " uses interpreter 'python-venv' but does not declare venv_path in its runtime_contract.")
                  (join service_name ".local.runtime_contract.interpreter")
                  "Declare venv_path as a relative path from working_dir to the service's Python venv."
                  (pos 9500)
                ∷ []
              else [])
            ++ missing_directory service_name (text_of (Json.get "working_dir" contract)))
      where
        is_venv : Option String → Bool
        is_venv none = false
        is_venv (some s) = s == "python-venv"

    unfoldable pub health_issue : String → String → Issue
    unfolding issue_at
    health_issue service_name healthcheck =
        issue_at manifest_path service_name "missing-health-handler"
          "Declared healthcheck path has no handler in scanned source"
          (named service_name (
            join " declares healthcheck '" (
              join healthcheck (
                join "' in " (
                  join manifest_path
                    ", but the exact path was not found in any scanned code file. Runtime response-shape checks are out of scope for the static evaluator.")))))
          (join service_name ".healthcheck")
          "Implement a handler for the declared healthcheck path that returns the platform schema (status, version, checks), or update the services.yml declaration to match the real route."
          (pos 8500)

    unfoldable pub unhandled : String → String → Option String → List Issue
    unfolding health_issue
    unhandled service_name healthcheck (some path) = []
    unhandled service_name healthcheck none = health_issue service_name healthcheck ∷ []

    -- What `_svc002_findings` reports of one service.
    unfoldable pub health_issues : List String → String → Fields → Result (List Issue)
    unfolding Json.get first_path_where occurs_in unhandled
    health_issues scanned_paths service_name service_config =
        checked (text_of (Json.get "healthcheck" service_config))
      where
        checked : Option String → Result (List Issue)
        checked none = ok []
        checked (some healthcheck) =
            let searched = first_path_where host (occurs_in healthcheck) scanned_paths in
            if healthcheck == ""
            then ok []
            else searched >>= λ found. ok (unhandled service_name healthcheck found)
