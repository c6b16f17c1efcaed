-- ===== src/Evaluators.antt =====
-- The parts that the modules of evaluators/ repeat: reading a file of the audited repository,
-- building a finding, and putting the findings of an evaluator's checks together.
pub mod Architecture
pub mod Governance
pub mod Product
pub mod ServiceLifecycle
pub mod Ux
pub mod Design
pub mod Search
pub mod Laws
pub mod Table
pub mod Active
use Prim.Native.String.{◌++◌ as join}
use standards_control_plane.Prelude.{
  Bool, List, Option, Result, String, [], all, elem, err, guard, if◌then◌else◌, index_error,
  key_error, map, none, not, ok, or_raise, some, traverse, ℕ, ◌&&◌, ◌++◌, ◌==◌, ◌>>=◌, ◌>>◌, ◌∷◌,
}
use standards_control_plane.Prelude.Int.{ℤ}
use standards_control_plane.Order.{sorted}
use standards_control_plane.Dict.{Dict, get}
use standards_control_plane.Json.{Schemas, validate_with_schema}
use standards_control_plane.Paths.{Location, is_relative_to, parts, split}
use standards_control_plane.Confidence.{classify_confidence}
use standards_control_plane.Text.{Unicode, join_with}
use standards_control_plane.Unique.{ordered_unique}
use standards_control_plane.Findings.{
  EvidenceRecord, FindingRecord, finding_to_dict, sorted_findings,
}
use standards_control_plane.Scoring.{score_findings}
use standards_control_plane.Registry.{RegistrySnapshot, RuleRecord, active_rules_for, by_id}
use standards_control_plane.Extractor.{Disk, scoped_candidate}
use standards_control_plane.Audit.{deterministic_timestamp, severity_order, sorted_by_severity}

-- What an evaluator calls: the file tree, the texts of files, Unicode, and the schema library.
pub record EvaluatorHost : Type 0 where
  pub disk : Disk
  pub contents : Location → Result String
  pub unicode : Unicode
  pub accepts : Schemas
  pub snapshot : RegistrySnapshot

-- `_read_repo_file`: a path that leads elsewhere or to no file reads as the empty text.
unfoldable pub read_repo_file : EvaluatorHost → String → Result String
unfolding split parts is_relative_to
read_repo_file host path_value =
    let place = host.disk.real (scoped_candidate host.disk path_value) in
    if not (is_relative_to place host.disk.repo_root)
    then ok ""
    else if not (host.disk.exists place && host.disk.is_file place)
    then ok ""
    else host.contents place

-- The texts of several files, on lines of their own.
unfoldable pub joined_text : EvaluatorHost → List String → Result String
unfolding read_repo_file
joined_text host paths = do texts ← traverse (read_repo_file host) paths; ok (join_with "\n" texts)

-- The first path whose text passes; no file behind it is read.
unfoldable pub first_path_where :
    EvaluatorHost → (String → Bool) → List String → Result (Option String)
unfolding read_repo_file
first_path_where host test [] = ok none
first_path_where host test (path_value ∷ rest) =
    let later = first_path_where host test rest in
    read_repo_file host path_value >>= λ content.
    (if test content then ok (some path_value) else later)

-- `xs[0]`
abbrev pub first_of : List String → Result String
first_of [] = err index_error
first_of (x ∷ xs) = ok x

-- What a check says of the area; the rest of a finding comes from its rule and the audit.
pub record Draft : Type 0 where
  pub title : String
  pub summary : String
  pub evidence : List EvidenceRecord
  pub suggested_remediation : List String
  pub confidence : ℤ

abbrev pub evidence_at : String → String → String → EvidenceRecord
evidence_at path evidence_class locator = record {
  path = path;
  evidence_class = evidence_class;
  locator = some locator;
  snippet_ref = none;
}

abbrev pub direct_file : String → String → EvidenceRecord
direct_file path locator = evidence_at path "direct_file" locator

abbrev pub finding_of :
    String → RuleRecord → String → String → String → Draft → String → FindingRecord
finding_of domain rule area_id standards_version evaluated_at draft confidence_class = record {
  finding_id = join "F-" (join rule.rule_id (join "-" area_id));
  domain = domain;
  severity = rule.severity_default;
  status = "open";
  title = draft.title;
  summary = draft.summary;
  evidence = draft.evidence;
  area_id = area_id;
  suggested_remediation = draft.suggested_remediation;
  confidence = draft.confidence;
  confidence_class = confidence_class;
  detected_by = join domain "-evaluator";
  standards_version = standards_version;
  created_at = evaluated_at;
  updated_at = evaluated_at;
  rule_id = some rule.rule_id;
}

-- `_build_finding`
unfoldable pub build_finding :
    Schemas → String → RuleRecord → String → String → String → Draft → Result FindingRecord
unfolding classify_confidence finding_to_dict validate_with_schema
build_finding accepts domain rule area_id standards_version evaluated_at draft = do
  confidence_class ← classify_confidence draft.confidence
  let finding = finding_of domain rule area_id standards_version evaluated_at draft confidence_class
  validate_with_schema accepts (finding_to_dict finding) "finding.schema.json"
  ok finding

-- `_architecture_rules` and the like.
unfoldable pub rules_by_id : RegistrySnapshot → String → Dict RuleRecord
unfolding by_id active_rules_for
rules_by_id snapshot domain =
    by_id (λ (r : RuleRecord). r.rule_id) (active_rules_for snapshot (domain ∷ []))

-- A check by the rule that it is for.
pub record Check : Type 0 where
  pub rule_id : String
  pub outcome : Result (Option Draft)

pub record Evaluation : Type 0 where
  pub score : ℕ
  pub findings : List FindingRecord
  pub recommended : List String

abbrev pub known_severities : List String
known_severities = "critical" ∷ "high" ∷ "medium" ∷ "low" ∷ []

-- `_sorted_findings`, which raises on a severity that `SEVERITY_ORDER` does not have.
unfoldable pub sorted_known : List FindingRecord → Result (List FindingRecord)
unfolding sorted severity_order
sorted_known findings =
    guard (all (λ (f : FindingRecord). elem f.severity known_severities) findings) key_error
    >> ok (sorted_by_severity findings)

abbrev pub all_actions : List FindingRecord → List String
all_actions [] = []
all_actions (finding ∷ rest) = finding.suggested_remediation ++ all_actions rest

-- `_recommended_actions` of the evaluators.
unfoldable pub recommended_of : List FindingRecord → List String
unfolding ordered_unique
recommended_of findings = ordered_unique (all_actions findings)

abbrev pub prepend : Option FindingRecord → List FindingRecord → List FindingRecord
prepend none findings = findings
prepend (some finding) findings = finding ∷ findings

-- `evaluated_at or _deterministic_timestamp(standards_version)`
unfoldable pub timestamp_of : (ℕ → Bool) → String → Option String → Result String
unfolding deterministic_timestamp
timestamp_of is_decimal standards_version none =
    deterministic_timestamp is_decimal standards_version
timestamp_of is_decimal standards_version (some evaluated_at) =
    let derived = deterministic_timestamp is_decimal standards_version in
    if evaluated_at == "" then derived else ok evaluated_at

module _ (accepts : Schemas) (domain area_id standards_version timestamp : String)
    (rules : Dict RuleRecord) where
  unfoldable pub built : RuleRecord → Option Draft → Result (Option FindingRecord)
  unfolding build_finding
  built rule none = ok none
  built rule (some draft) =
      build_finding accepts domain rule area_id standards_version timestamp draft >>= λ finding.
      ok (some finding)

  -- One check: `rules[rule_id]`, the check itself, and its finding.
  unfoldable pub run_check : Check → Result (Option FindingRecord)
  unfolding built get
  run_check check = do
    rule ← or_raise key_error (get check.rule_id rules)
    draft ← check.outcome
    built rule draft

  unfoldable pub run_checks : List Check → Result (List FindingRecord)
  unfolding run_check
  run_checks [] = ok []
  run_checks (check ∷ rest) = do
    finding ← run_check check
    findings ← run_checks rest
    ok (prepend finding findings)

  -- The end of `evaluate_architecture` and the like.
  unfoldable pub evaluate_checks : List Check → Result Evaluation
  unfolding run_checks sorted_known score_findings recommended_of
  evaluate_checks checks = do
    findings ← run_checks checks
    sorted_findings ← sorted_known findings
    score ← score_findings sorted_findings
    ok (record {
      score = score;
      findings = sorted_findings;
      recommended = recommended_of sorted_findings;
    })

-- The loop over paths of a check: the evidence of each path that has a locator.
abbrev pub add_located : String → Option String → List EvidenceRecord → List EvidenceRecord
add_located path none evidence = evidence
add_located path (some locator) evidence = direct_file path locator ∷ evidence

unfoldable pub scan : (String → Result (Option String)) → List String → Result (List EvidenceRecord)
scan locate [] = ok []
scan locate (path_value ∷ rest) = do
  located ← locate path_value
  evidence ← scan locate rest
  ok (add_located path_value located evidence)

abbrev pub paths_of_evidence : List EvidenceRecord → List String
paths_of_evidence = map λ (e : EvidenceRecord). e.path
