-- ===== src/Evaluators/ServiceLifecycle.antt =====
-- evaluators/service_lifecycle.py: what it reads of the services manifest; the children are its
-- checks. YAML and dates are parameters; a YAML value is taken to be one
-- of JSON's, so a date without quotes is outside the model.
pub mod Contracts
pub mod Entries
pub mod Auth
pub mod Build
pub mod Modes
pub mod Checks
pub mod Health
pub mod Laws
use Prim.Native.String.{◌++◌ as join}
use standards_control_plane.Json
use standards_control_plane.Prelude.{
  Bool, List, Option, Result, String, [], elem, false, filter, if◌then◌else◌, none, not, ok, some,
  ℕ, ◌&&◌, ◌++◌, ◌==◌, ◌>>=◌, ◌||◌, ◌∷◌,
}
use standards_control_plane.Prelude.Int.{ℤ}
use standards_control_plane.Order.{sorted, text}
use standards_control_plane.Dict.{Dict, get, put}
use standards_control_plane.Json.{Fields, Value, end, field, obj, text_of}
use standards_control_plane.Paths.{ends_with, is_relative_to, parts, split, with_slashes}
use standards_control_plane.Text.{ends_with_any, path_name}
use standards_control_plane.Unique.Sets.{dedupe_sorted}
use standards_control_plane.Extractor.{scoped_candidate}
use standards_control_plane.Normaliser.Build.{ProjectArea, code_paths, services}
use standards_control_plane.Evaluators.{Draft, EvaluatorHost, evidence_at, read_repo_file}

-- What `yaml.safe_load` does: a document, or an exception of the named class.
pub data Loaded : Type 0 where
  parsed : Value → Loaded
  yaml_error : String → Loaded

-- What the evaluator calls besides the host: YAML, `date.fromisoformat` as the number of a day and
-- its inverse, `repr`, and the file of the waivers.
pub record LifecycleHost : Type 0 where
  pub safe_load : String → Loaded
  pub from_iso : String → Option ℕ
  pub iso_format : ℕ → String
  pub repr : Value → String
  pub waivers_file : Option Value

-- `CODE_EXTENSIONS`
abbrev pub code_extensions : List String
code_extensions = ".py" ∷ ".ts" ∷ ".tsx" ∷ ".js" ∷ ".jsx" ∷ ".go" ∷ ".java" ∷ ".rs" ∷ ".rb" ∷ []

-- `REQUIRED_RUNTIME_CONTRACT_FIELDS`
abbrev pub required_runtime_contract_fields : List String
required_runtime_contract_fields =
    "start_command" ∷ "working_dir" ∷ "interpreter" ∷ "required_infra" ∷ "group" ∷ []

-- A finding before its rule is known: the service, the signal, and what the check says.
pub record Issue : Type 0 where
  pub service_name : Option String
  pub signal_key : String
  pub draft : Draft

-- The common case: one place of the manifest is the evidence.
unfoldable pub issue_at : String → String → String → String → String → String → String → ℤ → Issue
issue_at manifest_path service_name signal_key title summary locator remediation confidence =
    record {
      service_name = some service_name;
      signal_key = signal_key;
      draft = record {
        title = title;
        summary = summary;
        evidence = evidence_at manifest_path "declared_metadata" locator ∷ [];
        suggested_remediation = remediation ∷ [];
        confidence = confidence;
      };
    }

abbrev pub has_key : String → Fields → Bool
has_key k end = false
has_key k (field j v fs) = j == k || has_key k fs

abbrev pub object_of : Option Value → Option Fields
object_of (some (obj fs)) = some fs
object_of _ = none

-- `_service_is_planned`; no other value than a text is shown as one.
unfoldable pub service_is_planned : (String → String) → Fields → Bool
unfolding Json.get
service_is_planned lower service_config = planned (object_of (Json.get "local" service_config))
  where
    is_planned : Option String → Bool
    is_planned none = false
    is_planned (some s) = lower s == "planned"

    planned : Option Fields → Bool
    planned none = false
    planned (some local) = is_planned (text_of (Json.get "status" local))

-- `_runtime_contract`
unfoldable pub runtime_contract : Fields → Option Fields
unfolding Json.get
runtime_contract service_config = contract_of (object_of (Json.get "local" service_config))
  where
    contract_of : Option Fields → Option Fields
    contract_of none = none
    contract_of (some local) = object_of (Json.get "runtime_contract" local)

-- What `_parse_services` returns.
pub data Services : Type 0 where
  nothing_declared : Services
  malformed : String → Services
  declared : Dict Fields → Services

unfoldable pub configs_of : Dict Fields → Fields → Dict Fields
unfolding put
configs_of found end = found
configs_of found (field name (obj config) rest) = configs_of (put name config found) rest
configs_of found (field name _ rest) = configs_of found rest

unfoldable pub services_of : Loaded → Services
unfolding Json.get configs_of
services_of (yaml_error name) = malformed (join "yaml parse error: " name)
services_of (parsed (obj fs)) = block_of (Json.get "services" fs)
  where
    block_of : Option Value → Services
    block_of none = malformed "top-level 'services' key is missing"
    block_of (some (obj block)) = declared (configs_of [] block)
    block_of (some _) = malformed "'services' value is not a mapping"
services_of (parsed _) = malformed "top-level document is not a mapping"

-- The services that the loops go through, in the order of their names; planned ones are skipped.
unfoldable pub in_order : (String → String) → Dict Fields → Dict Fields
unfolding service_is_planned sorted
in_order lower found =
    filter (λ p. not (service_is_planned lower p.1)) (sorted (λ p. text p.0 ∷ []) found)

module _ (host : EvaluatorHost) where
  -- `_parse_services`
  unfoldable pub parse_services : LifecycleHost → String → Result Services
  unfolding read_repo_file services_of
  parse_services lifecycle manifest_path = read_repo_file host manifest_path >>= λ content.
      ok (if content == "" then nothing_declared else services_of (lifecycle.safe_load content))

  -- `_directory_exists`
  unfoldable pub directory_exists : String → Bool
  unfolding split parts is_relative_to
  directory_exists path_value =
      let place = host.disk.real (scoped_candidate host.disk path_value) in
      is_relative_to place host.disk.repo_root && (host.disk.exists place && host.disk.is_dir place)

  -- `_find_services_manifest`
  unfoldable pub find_services_manifest : List String → Option String
  unfolding path_name with_slashes
  find_services_manifest [] = none
  find_services_manifest (path_value ∷ rest) =
      let later = find_services_manifest rest in
      if elem (host.unicode.lower (path_name (with_slashes path_value)))
        ("services.yml" ∷ "services.yaml" ∷ [])
      then some path_value
      else later

  unfoldable pub is_scanned : String → Bool
  unfolding with_slashes ends_with ends_with_any
  is_scanned path =
      ends_with_any path code_extensions
      && not (
          with_slashes path == "evaluators/service_lifecycle.py"
          || ends_with (with_slashes path) "/evaluators/service_lifecycle.py")

  -- `_code_paths_to_scan`
  unfoldable pub code_paths_to_scan : ProjectArea → List String
  unfolding is_scanned dedupe_sorted
  code_paths_to_scan project_area =
      dedupe_sorted
        (filter is_scanned (project_area.artefacts code_paths ++ project_area.artefacts services))
