-- ===== src/Tests/RegistryTests.antt =====
-- The registry, the globs of a rule and a consult at small inputs.
use standards_control_plane.Prelude.{
  List, String, [], elem, err, false, file_not_found, ok, refl, true, ◌++◌, ◌∷◌, ◌≡◌,
}
use standards_control_plane.Paths.{Location}
use standards_control_plane.Dict.{contains, get}
use standards_control_plane.Json.{Value, end, field, null, obj, str, strs}
use standards_control_plane.Unique.Laws.{IsUnique}
use standards_control_plane.AppliesTo.Fallback.{applies_to_for_rule}
use standards_control_plane.AppliesTo.Effective.{applies_to_for_rule_lem}
use standards_control_plane.Registry.{RegistrySnapshot, RuleRecord, merge_registry_snapshots}
use standards_control_plane.Registry.Load.{RegistryHost, load_rule}
use standards_control_plane.Registry.Laws.{IsMergeOf, merge_registry_snapshots_lem}
use standards_control_plane.Registry.Active.{load_rule_confined}

abbrev rule : String → String → String → RuleRecord
rule rule_id status version = record {
  rule_id = rule_id;
  domain = "architecture";
  title = "Layers";
  summary = "Keep the layers apart.";
  path = "rules/layers.md";
  severity_default = "high";
  scope = "src" ∷ [];
  signals = "A layer is skipped." ∷ [];
  exceptions = [];
  related_patterns = [];
  version = version;
  status = status;
  source_path = "layers.md" ∷ "rules" ∷ "architecture" ∷ [];
}

abbrev id_of : RuleRecord → String
id_of r = r.rule_id

abbrev base_rules : List RuleRecord
base_rules = rule "ARCH-002" "active" "1" ∷ rule "ARCH-001" "draft" "1" ∷ []

abbrev overlay_rules : List RuleRecord
overlay_rules = rule "ARCH-001" "active" "2" ∷ []

abbrev snapshot : List RuleRecord → RegistrySnapshot
snapshot rules = record {
  name = "standards";
  version = "1";
  status = "active";
  domains =
      (
        "architecture",
        record {
          domain = "architecture";
          version = "1";
          status = "active";
          rules = rules;
          patterns = [];
        },
      )
      ∷ [];
}

merge_registry_snapshots_lem_example :
    ((k : String)
      → IsMergeOf
          (get k (snapshot base_rules).domains)
          (get k (snapshot overlay_rules).domains)
          (get k (merge_registry_snapshots (snapshot base_rules) (snapshot overlay_rules)).domains))
    × ((merge_registry_snapshots (snapshot base_rules) (snapshot overlay_rules)).name
        ≡ (snapshot base_rules).name)
    × ((merge_registry_snapshots (snapshot base_rules) (snapshot overlay_rules)).version
        ≡ (snapshot base_rules).version)
    × ((merge_registry_snapshots (snapshot base_rules) (snapshot overlay_rules)).status
        ≡ (snapshot base_rules).status)
unfolding contains
merge_registry_snapshots_lem_example =
    merge_registry_snapshots_lem (snapshot base_rules) (snapshot overlay_rules) (refl, tt)

abbrev registry_host : RegistryHost
registry_host = record {
  accepts = λ name value. true;
  exists = λ place. true;
  is_dir = λ place. false;
  load_json_file = λ place. err file_not_found;
  standards_dir = "standards" ∷ [];
}

abbrev rule_entry : Value
rule_entry = obj (
    field "rule_id" (str "ARCH-002") (
      field "domain" (str "architecture") (
        field "title" (str "Layers") (
          field "summary" (str "Keep the layers apart.") (
            field "path" (str "rules/layers.md") (
              field "severity_default" (str "high") (
                field "scope" (strs ("src" ∷ [])) (
                  field "signals" (strs ("A layer is skipped." ∷ []))
                    (field "version" (str "1") (field "status" (str "active") end))))))))))

load_rule-sample :
    load_rule registry_host rule_entry "architecture" ("architecture" ∷ [])
    ≡ ok (rule "ARCH-002" "active" "1")
unfolding load_rule
load_rule-sample = refl

load_rule_confined_example :
    ◌≡◌ {A = String} "architecture" "architecture"
    × ((below : Location) × ◌≡◌ {A = Location}
          ("layers.md" ∷ "rules" ∷ "architecture" ∷ [])
          (below ++ ("architecture" ∷ [])))
    × (registry_host.exists ("layers.md" ∷ "rules" ∷ "architecture" ∷ []) ≡ true)
load_rule_confined_example =
    load_rule_confined registry_host rule_entry "architecture" ("architecture" ∷ [])
      load_rule-sample

applies_to_for_rule_lem_example :
    IsUnique (applies_to_for_rule "GOV-001" "governance" null)
    × ((globs : List String) (s : String)
        → elem s (applies_to_for_rule "GOV-001" "governance" (strs globs)) ≡ elem s globs)
applies_to_for_rule_lem_example = applies_to_for_rule_lem "GOV-001" "governance" null
