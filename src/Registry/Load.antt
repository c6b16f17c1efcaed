-- ===== src/Registry/Load.antt =====
-- The loader of registry.py. What the files hold is a parameter; places are resolved ones.
use standards_control_plane.Prelude.{
  Bool, List, Option, Result, String, [], elem, err, false, file_not_found, guard, if◌then◌else◌,
  none, ok, some, traverse, type_error, value_error, ◌==◌, ◌>>=◌, ◌>>◌, ◌∷◌,
}
use standards_control_plane.Order.{Key, sorted, text}
use standards_control_plane.Json.{
  Fields, Schemas, Value, arr, end, ensure_object, ensure_string, ensure_string_list, field, get,
  item, obj, or_empty, str, string_item, to_list, validate_with_schema,
}
use standards_control_plane.Dict.{Dict, put}
use standards_control_plane.Paths.{Location, is_relative_to, parent, resolve}
use standards_control_plane.Registry.{
  DomainRegistry, PatternRecord, RegistrySnapshot, RuleRecord, merge_registry_snapshots,
}

pub record RegistryHost : Type 0 where
  pub accepts : Schemas
  pub exists : Location → Bool
  pub is_dir : Location → Bool
  pub load_json_file : Location → Result Value
  pub standards_dir : Location

-- `SUPPORTED_DOMAINS`
abbrev pub supported_domains : List String
supported_domains =
    "governance" ∷ "architecture" ∷ "ux" ∷ "design" ∷ "product" ∷ "service-lifecycle" ∷ []

abbrev pub is_string : String → Value → Bool
is_string s (str t) = t == s
is_string s _ = false

abbrev says : String → Option Value → Bool
says s none = false
says s (some v) = is_string s v

abbrev entries_of : Option Value → Result (List Value)
entries_of none = ok []
entries_of (some (arr vs)) = ok (to_list vs)
entries_of (some _) = err type_error

unfoldable pub list_item : String → Fields → Result (List String)
unfolding ensure_string_list
list_item k fs = do v ← item k fs; ensure_string_list v

unfoldable pub optional_list : String → Fields → Result (List String)
unfolding ensure_string_list get
optional_list k fs = ensure_string_list (or_empty (get k fs))

-- An object's items: a key that stands twice has its last value, at its first place.
unfoldable pub object_items : Fields → Dict Value → Dict Value
unfolding put
object_items end d = d
object_items (field k v fs) d = object_items fs (put k v d)

abbrev object_of : Option Value → Result Fields
object_of (some (obj fs)) = ok fs
object_of _ = err type_error

module _ (host : RegistryHost) where
  -- `_normalise_index_path`
  unfoldable pub normalise_index_path : Option Location → Location
  normalise_index_path none = "standards-index.json" ∷ host.standards_dir
  normalise_index_path (some path_value) =
      if host.is_dir path_value then "standards-index.json" ∷ path_value else path_value

  -- `_resolve_existing_path`
  unfoldable pub resolve_existing_path : Location → String → Location → Result Location
  unfolding resolve is_relative_to
  resolve_existing_path base_dir relative_path boundary_root = do
    let resolved = resolve base_dir relative_path
    guard (host.exists resolved) file_not_found
    guard (is_relative_to resolved boundary_root) value_error
    ok resolved

  -- The fields of a rule, once its path is found and its domain checked.
  unfoldable pub rule_of : Fields → String → Location → Result RuleRecord
  unfolding string_item list_item optional_list
  rule_of payload path source_path = do
    rule_id ← string_item "rule_id" payload
    domain ← string_item "domain" payload
    title ← string_item "title" payload
    summary ← string_item "summary" payload
    severity_default ← string_item "severity_default" payload
    scope ← list_item "scope" payload
    signals ← list_item "signals" payload
    exceptions ← optional_list "exceptions" payload
    related_patterns ← optional_list "related_patterns" payload
    version ← string_item "version" payload
    status ← string_item "status" payload
    ok (record {
      rule_id = rule_id;
      domain = domain;
      title = title;
      summary = summary;
      path = path;
      severity_default = severity_default;
      scope = scope;
      signals = signals;
      exceptions = exceptions;
      related_patterns = related_patterns;
      version = version;
      status = status;
      source_path = source_path;
    })

  -- `_load_rule`
  unfoldable pub load_rule : Value → String → Location → Result RuleRecord
  unfolding ensure_object validate_with_schema string_item resolve_existing_path rule_of
  load_rule entry domain_name base_dir = do
    payload ← ensure_object entry
    validate_with_schema host.accepts (obj payload) "standards-rule.schema.json"
    path ← string_item "path" payload
    source_path ← resolve_existing_path base_dir path base_dir
    declared ← item "domain" payload
    guard (is_string domain_name declared) value_error
    rule_of payload path source_path

  -- `_load_pattern`
  unfoldable pub load_pattern : Value → String → Location → Result PatternRecord
  unfolding ensure_object validate_with_schema string_item resolve_existing_path optional_list
  load_pattern entry domain_name base_dir = do
    payload ← ensure_object entry
    validate_with_schema host.accepts (obj payload) "standards-pattern.schema.json"
    path ← string_item "path" payload
    source_path ← resolve_existing_path base_dir path base_dir
    declared ← item "domain" payload
    guard (is_string domain_name declared) value_error
    pattern_id ← string_item "pattern_id" payload
    domain ← string_item "domain" payload
    title ← string_item "title" payload
    summary ← string_item "summary" payload
    tags ← optional_list "tags" payload
    version ← string_item "version" payload
    status ← string_item "status" payload
    ok (record {
      pattern_id = pattern_id;
      domain = domain;
      title = title;
      summary = summary;
      path = path;
      tags = tags;
      version = version;
      status = status;
      source_path = source_path;
    })

  -- `_load_domain_registry`
  unfoldable pub load_domain_registry : Location → String → Result DomainRegistry
  unfolding ensure_object get string_item load_rule load_pattern
  load_domain_registry index_path domain_name = do
    value ← host.load_json_file index_path
    payload ← ensure_object value
    guard (says domain_name (get "domain" payload)) value_error
    rules_payload ← entries_of (get "rules" payload)
    patterns_payload ← entries_of (get "patterns" payload)
    version ← string_item "version" payload
    status ← string_item "status" payload
    rules ← traverse (λ entry. load_rule entry domain_name (parent index_path)) rules_payload
    patterns ←
        traverse (λ entry. load_pattern entry domain_name (parent index_path)) patterns_payload
    ok (record {
      domain = domain_name;
      version = version;
      status = status;
      rules = rules;
      patterns = patterns;
    })

  abbrev index_key : String × Value → Key
  index_key p = text p.0 ∷ []

  -- The body of the loop over the domains.
  unfoldable pub load_domain : Location → String × Value → Result (String × DomainRegistry)
  unfolding ensure_string resolve_existing_path load_domain_registry
  load_domain base_dir (domain_name, relative_index_path) = do
    guard (elem domain_name supported_domains) value_error
    relative_path ← ensure_string relative_index_path
    resolved_index_path ← resolve_existing_path base_dir relative_path base_dir
    loaded ← load_domain_registry resolved_index_path domain_name
    ok (domain_name, loaded)

  -- `_load_registry_snapshot`, of an index path that is normalised
  unfoldable pub load_registry_snapshot : Location → Result RegistrySnapshot
  unfolding normalise_index_path ensure_object get load_domain string_item sorted object_items
  load_registry_snapshot index_path = do
    let root_index_path = normalise_index_path (some index_path)
    value ← host.load_json_file root_index_path
    payload ← ensure_object value
    domains ← object_of (get "domains" payload)
    loaded_domains ←
        traverse (load_domain (parent root_index_path)) (sorted index_key (object_items domains []))
    name ← string_item "name" payload
    version ← string_item "version" payload
    status ← string_item "status" payload
    ok (record { name = name; version = version; status = status; domains = loaded_domains })

  -- The loop of `load_registry` over the overlays.
  unfoldable pub load_overlays : RegistrySnapshot → List Location → Result RegistrySnapshot
  unfolding load_registry_snapshot merge_registry_snapshots normalise_index_path
  load_overlays snapshot [] = ok snapshot
  load_overlays snapshot (overlay_path ∷ rest) =
      load_registry_snapshot (normalise_index_path (some overlay_path)) >>= λ overlay.
      load_overlays (merge_registry_snapshots snapshot overlay) rest

  -- `load_registry`
  unfoldable pub load_registry : Option Location → List Location → Result RegistrySnapshot
  unfolding load_registry_snapshot load_overlays normalise_index_path
  load_registry index_path overlay_paths = do
    snapshot ← load_registry_snapshot (normalise_index_path index_path)
    load_overlays snapshot overlay_paths
