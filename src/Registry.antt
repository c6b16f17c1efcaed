-- ===== src/Registry.antt =====
-- registry.py: the records of the standards registry, the choice of the active rules, and the merge
-- of an overlay. The loader stands in Load.
pub mod Load
pub mod Laws
pub mod Active
use standards_control_plane.Prelude.{
  List, Option, String, [], elem, filter, map, none, some, ◌++◌, ◌∷◌,
}
use standards_control_plane.Order.{Key, sorted, text}
use standards_control_plane.Dict.{Dict, get, put, update, values}
use standards_control_plane.Json.{Fields, Value, arr, end, field, obj, of_list, str, strs}
use standards_control_plane.Paths.{Location}

pub record RuleRecord : Type 0 where
  pub rule_id : String
  pub domain : String
  pub title : String
  pub summary : String
  pub path : String
  pub severity_default : String
  pub scope : List String
  pub signals : List String
  pub exceptions : List String
  pub related_patterns : List String
  pub version : String
  pub status : String
  pub source_path : Location

pub record PatternRecord : Type 0 where
  pub pattern_id : String
  pub domain : String
  pub title : String
  pub summary : String
  pub path : String
  pub tags : List String
  pub version : String
  pub status : String
  pub source_path : Location

pub record DomainRegistry : Type 0 where
  pub domain : String
  pub version : String
  pub status : String
  pub rules : List RuleRecord
  pub patterns : List PatternRecord

pub record RegistrySnapshot : Type 0 where
  pub name : String
  pub version : String
  pub status : String
  pub domains : Dict DomainRegistry

-- `RuleRecord.to_dict`
unfoldable pub rule_to_dict : RuleRecord → Value
rule_to_dict r = obj (
    field "rule_id" (str r.rule_id) (
      field "domain" (str r.domain) (
        field "title" (str r.title) (
          field "summary" (str r.summary) (
            field "path" (str r.path) (
              field "severity_default" (str r.severity_default) (
                field "scope" (strs r.scope) (
                  field "signals" (strs r.signals) (
                    field "exceptions" (strs r.exceptions) (
                      field "related_patterns" (strs r.related_patterns) (
                        field "version" (str r.version)
                          (field "status" (str r.status) end))))))))))))

-- `PatternRecord.to_dict`
unfoldable pub pattern_to_dict : PatternRecord → Value
pattern_to_dict p = obj (
    field "pattern_id" (str p.pattern_id) (
      field "domain" (str p.domain) (
        field "title" (str p.title) (
          field "summary" (str p.summary) (
            field "path" (str p.path) (
              field "tags" (strs p.tags)
                (field "version" (str p.version) (field "status" (str p.status) end))))))))

-- `DomainRegistry.to_dict`
unfoldable pub domain_to_dict : DomainRegistry → Value
unfolding rule_to_dict pattern_to_dict
domain_to_dict d = obj (
    field "domain" (str d.domain) (
      field "version" (str d.version) (
        field "status" (str d.status) (
          field "rules" (arr (of_list (map rule_to_dict d.rules)))
            (field "patterns" (arr (of_list (map pattern_to_dict d.patterns))) end)))))

abbrev pub pair_key : String × DomainRegistry → Key
pair_key p = text p.0 ∷ []

unfoldable pub domain_fields : List (String × DomainRegistry) → Fields
unfolding domain_to_dict
domain_fields [] = end
domain_fields ((k, d) ∷ rest) = field k (domain_to_dict d) (domain_fields rest)

-- `RegistrySnapshot.to_dict`
unfoldable pub snapshot_to_dict : RegistrySnapshot → Value
unfolding domain_fields sorted
snapshot_to_dict s = obj (
    field "name" (str s.name) (
      field "version" (str s.version) (
        field "status" (str s.status)
          (field "domains" (obj (domain_fields (sorted pair_key s.domains))) end))))

-- `USABLE_STATUSES`
abbrev pub usable_statuses : List String
usable_statuses = "active" ∷ []

abbrev pub usable_rules : Option DomainRegistry → List RuleRecord
usable_rules none = []
usable_rules (some d) = filter (λ r. elem r.status usable_statuses) d.rules

abbrev usable_patterns : Option DomainRegistry → List PatternRecord
usable_patterns none = []
usable_patterns (some d) = filter (λ p. elem p.status usable_statuses) d.patterns

-- `active_rules_for`
unfoldable pub active_rules_for : RegistrySnapshot → List String → List RuleRecord
unfolding get
active_rules_for s [] = []
active_rules_for s (domain_name ∷ rest) =
    usable_rules (get domain_name s.domains) ++ active_rules_for s rest

-- `active_patterns_for`
unfoldable pub active_patterns_for : RegistrySnapshot → List String → List PatternRecord
unfolding get
active_patterns_for s [] = []
active_patterns_for s (domain_name ∷ rest) =
    usable_patterns (get domain_name s.domains) ++ active_patterns_for s rest

-- `{key(x): x for x in xs}`
module _ {A : Type 0} (key : A → String) where
  abbrev pub entries : List A → Dict A
  entries xs = map (λ x. (key x, x)) xs

  unfoldable pub by_id : List A → Dict A
  unfolding update
  by_id xs = update [] (entries xs)

  -- The dict of the base updated by that of the overlay, in the order of the keys.
  unfoldable pub merged_by_id : List A → List A → List A
  unfolding by_id sorted
  merged_by_id base overlay =
      sorted (λ x. text (key x) ∷ []) (values (update (by_id base) (by_id overlay)))

-- `_merge_domain_registry`
unfoldable pub merge_domain_registry : DomainRegistry → DomainRegistry → DomainRegistry
unfolding merged_by_id
merge_domain_registry base overlay = record {
  domain = base.domain;
  version = overlay.version;
  status = overlay.status;
  rules = merged_by_id (λ (r : RuleRecord). r.rule_id) base.rules overlay.rules;
  patterns = merged_by_id (λ (p : PatternRecord). p.pattern_id) base.patterns overlay.patterns;
}

abbrev pub overlaid : Option DomainRegistry → DomainRegistry → DomainRegistry
overlaid none overlay = overlay
overlaid (some base) overlay = merge_domain_registry base overlay

-- The loop of `_merge_registry_snapshots`.
unfoldable pub merge_domains : Dict DomainRegistry → Dict DomainRegistry → Dict DomainRegistry
unfolding merge_domain_registry get put
merge_domains merged [] = merged
merge_domains merged ((domain_name, overlay_domain) ∷ rest) =
    merge_domains (put domain_name (overlaid (get domain_name merged) overlay_domain) merged) rest

-- `_merge_registry_snapshots`
unfoldable pub merge_registry_snapshots : RegistrySnapshot → RegistrySnapshot → RegistrySnapshot
unfolding merge_domains
merge_registry_snapshots base overlay = record {
  name = base.name;
  version = base.version;
  status = base.status;
  domains = merge_domains base.domains overlay.domains;
}
