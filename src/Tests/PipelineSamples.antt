-- ===== src/Tests/PipelineSamples.antt =====
-- A repository with three files, and what the tests of the pipeline compute with.
use standards_control_plane.Prelude.{
  Bool, List, String, [], elem, false, if◌then◌else◌, leb, none, not, ok, some, true, ◌&&◌, ◌==◌,
  ◌∷◌,
}
use standards_control_plane.Order.{leb_key, sorted}
use standards_control_plane.Dict.{get, put}
use standards_control_plane.Json.{Schemas, end}
use standards_control_plane.Paths.{Location, climb}
use standards_control_plane.Text.{Unicode, path_name}
use standards_control_plane.Scoring.{score_findings}
use standards_control_plane.Registry.{RegistrySnapshot, RuleRecord, by_id}
use standards_control_plane.Extractor.{Disk, ExtractedScope, directory, listing, no_more}
use standards_control_plane.Extractor.Walk.{extract_scope}
use standards_control_plane.Normaliser.AreaId.{area_spec}
use standards_control_plane.Normaliser.Build.{ProjectArea, append_if, normalise_project_area}
use standards_control_plane.Audit.{apply_waivers, recommended_actions}
use standards_control_plane.Audit.Build.{
  AuditResult, Parts, assemble, build_audit_result, no_progress,
}
use standards_control_plane.Evaluators.Table.{evaluators}
use standards_control_plane.ChangedAudit.{derive_area_id, lesser, list_changed_files}
use standards_control_plane.ChangedAudit.Build.{build_changed_file_audit_result}
use standards_control_plane.Tests.Samples.{files}
use standards_control_plane.Prelude.Int.{pos}
use standards_control_plane.ReviewEvidence.{ReviewHost}
use standards_control_plane.Evaluators.{Evaluation, EvaluatorHost}
use standards_control_plane.Evaluators.ServiceLifecycle.{LifecycleHost, yaml_error}
use standards_control_plane.Assembly.{program}

abbrev pub file_names : List String
file_names = "app.py" ∷ "page.tsx" ∷ "ENH-1-orders-core.md" ∷ []

abbrev pub is_file_name : Location → Bool
is_file_name [] = false
is_file_name (name ∷ place) = elem name file_names

unfoldable pub disk : Disk
unfolding climb
disk = record {
  repo_root = "repo" ∷ "srv" ∷ [];
  real = climb [];
  is_symlink = λ path. false;
  exists = λ place. true;
  is_dir = λ place. not (is_file_name place);
  is_file = is_file_name;
  walk = λ place.
      listing ("app.py" ∷ []) (directory "components" (listing ("page.tsx" ∷ []) no_more) no_more);
}

abbrev pub unicode : Unicode
unicode = record {
  lower = λ s. s;
  is_decimal = λ c. leb 48 c && leb c 57;
  is_space = λ c. leb c 32;
  is_word = λ c. leb 65 c;
}

abbrev pub accepts : Schemas
accepts name value = true

abbrev pub requested : List String
requested = "src" ∷ "docs/enhancements/ENH-1-orders-core.md" ∷ []

abbrev pub no_scope : ExtractedScope
no_scope = record { scope_paths = []; files = [] }

abbrev pub no_area : ProjectArea
no_area = record {
  area_id = "";
  paths = [];
  subsystem = "";
  artefacts = λ b. [];
  languages = [];
  frameworks = [];
  tags = [];
}

abbrev pub rule : String → RuleRecord
rule rule_id = record {
  rule_id = rule_id;
  domain = "architecture";
  title = "Layering";
  summary = "Keep the layers apart.";
  path = "rule.md";
  severity_default = "high";
  scope = [];
  signals = [];
  exceptions = [];
  related_patterns = [];
  version = "1";
  status = "active";
  source_path = [];
}

abbrev pub snapshot : RegistrySnapshot
snapshot = record {
  name = "standards";
  version = "1";
  status = "active";
  domains =
      (
        "architecture",
        record {
          domain = "architecture";
          version = "1";
          status = "active";
          rules = rule "ARCH-001" ∷ rule "ARCH-002" ∷ rule "ARCH-003" ∷ rule "ARCH-004" ∷ [];
          patterns = [];
        },
      )
      ∷ [];
}

-- Only the code has a text.
abbrev pub content_at : Location → String
content_at [] = ""
content_at (name ∷ place) = if name == "app.py" then "requests.get(url)" else ""

unfoldable pub audit_host : EvaluatorHost
unfolding disk
audit_host = record {
  disk = disk;
  contents = λ place. ok (content_at place);
  unicode = unicode;
  accepts = accepts;
  snapshot = snapshot;
}

abbrev pub reviews : ReviewHost
reviews = record {
  files = files;
  accepts = accepts;
  review_block = λ place. ok none;
  timestamp = λ s. ok (pos 0);
}

abbrev pub lifecycle : LifecycleHost
lifecycle = record {
  safe_load = λ s. yaml_error "ScannerError";
  from_iso = λ s. some 1;
  iso_format = λ n. "2026-04-11";
  repr = λ v. "";
  waivers_file = none;
}

abbrev pub no_evaluation : Evaluation
no_evaluation = record { score = 0; findings = []; recommended = [] }

abbrev pub at : String
at = "2026-04-11T00:00:00Z"

abbrev pub by_program : Parts ExtractedScope ProjectArea
by_program = program audit_host reviews lifecycle (λ s. ok 1) (λ s. s)

abbrev pub no_result : AuditResult
no_result = assemble by_program "" "" "" end no_area no_progress

-- What the tests below compute with.
unfoldable pub program_parts : Unit {0}
unfolding build_changed_file_audit_result build_audit_result extract_scope normalise_project_area
    append_if evaluators get put sorted by_id disk audit_host score_findings apply_waivers
    recommended_actions area_spec path_name list_changed_files derive_area_id lesser leb_key
program_parts = tt
