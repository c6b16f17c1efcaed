-- ===== src/AppliesTo/Fallback.antt =====
-- The fallback tables of applies_to.py, and the globs that hold for a rule.
use standards_control_plane.Prelude.{
  List, Option, Result, String, [], err, if◌then◌else◌, none, ok, some, ◌==◌, ◌∷◌,
}
use standards_control_plane.Json.{Value, ensure_string_list}
use standards_control_plane.Unique.{ordered_unique}

-- `FALLBACK_APPLIES_TO_BY_RULE_ID`
unfoldable pub fallback_by_rule_id : String → Option (List String)
fallback_by_rule_id rule_id =
    if rule_id == "SVC-001"
    then some ("services.yml" ∷ "**/services.yml" ∷ [])
    else if rule_id == "SVC-002"
    then some ("services.yml" ∷ "**/services.yml" ∷ [])
    else if rule_id == "SVC-003"
    then some ("services.yml" ∷ "**/services.yml" ∷ [])
    else if rule_id == "ARCH-006"
    then some (
        "services.yml" ∷ "**/services.yml" ∷ "**/ontology_complete.yaml" ∷ "**/value_mappings.json"
        ∷ "**/ontology.py" ∷ "src/**/*.py" ∷ "backend/**/*.py" ∷ "src/**/*.ts" ∷ "src/**/*.go"
        ∷ "services/**/*.py" ∷ "services/**/*.go" ∷ [])
    else if rule_id == "SVC-004"
    then some (
        "scripts/deploy-dev.sh" ∷ "scripts/deploy-staging.sh" ∷ "scripts/deploy-*.sh"
        ∷ "docker-compose*.yml" ∷ "infra/**/deploy*.sh" ∷ "Dockerfile" ∷ "services.yml"
        ∷ "**/services.yml" ∷ [])
    else none

-- `FALLBACK_APPLIES_TO_BY_DOMAIN`
unfoldable pub fallback_by_domain : String → Option (List String)
fallback_by_domain domain =
    if domain == "governance"
    then some (
        "docs/**/*.md" ∷ "docs/DECISIONS.md" ∷ "docs/STATUS.md" ∷ "scripts/scp-policy-check"
        ∷ "lib/policy_check_invocation.sh" ∷ ".github/workflows/policy-check.yml" ∷ [])
    else if domain == "architecture"
    then some (
        "src/**/*.py" ∷ "src/**/*.ts" ∷ "src/**/*.tsx" ∷ "frontend/**/*.ts" ∷ "frontend/**/*.tsx"
        ∷ "backend/**/*.py" ∷ "src/**/*.go" ∷ "packages/**/*.go" ∷ "services/**/*.py"
        ∷ "services/**/*.go" ∷ "services/**/*.ts" ∷ [])
    else if domain == "ux"
    then some (
        "frontend/**/*.tsx" ∷ "frontend/**/*.jsx" ∷ "app/**/*.tsx" ∷ "app/**/*.jsx" ∷ "**/*.css"
        ∷ "**/*.scss" ∷ [])
    else if domain == "design"
    then some (
        "frontend/**/*.tsx" ∷ "frontend/**/*.jsx" ∷ "app/**/*.tsx" ∷ "app/**/*.jsx"
        ∷ "design-system/**" ∷ "**/*.css" ∷ "**/*.scss" ∷ [])
    else if domain == "product"
    then some
        ("docs/plans/**/*.md" ∷ "docs/reviews/**/*.md" ∷ "frontend/**/*.tsx" ∷ "app/**/*.tsx" ∷ [])
    else if domain == "service-lifecycle"
    then some ("services.yml" ∷ "**/services.yml" ∷ [])
    else none

abbrev pub or_nothing : Option (List String) → List String
or_nothing none = []
or_nothing (some globs) = globs

abbrev pub or_domain : Option (List String) → Option (List String) → List String
or_domain none by_domain = or_nothing by_domain
or_domain (some globs) by_domain = globs

-- What is declared, if it is a list of texts.
abbrev pub declared_globs : Result (List String) → Option (List String)
declared_globs (ok globs) = some globs
declared_globs (err e) = none

abbrev pub globs_of : Option (List String) → String → String → List String
globs_of (some globs) rule_id domain = ordered_unique globs
globs_of none rule_id domain = or_domain (fallback_by_rule_id rule_id) (fallback_by_domain domain)

-- `applies_to_for_rule`
unfoldable pub applies_to_for_rule : String → String → Value → List String
unfolding ensure_string_list fallback_by_rule_id fallback_by_domain ordered_unique
applies_to_for_rule rule_id domain declared =
    globs_of (declared_globs (ensure_string_list declared)) rule_id domain
