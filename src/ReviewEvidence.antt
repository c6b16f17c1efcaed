-- ===== src/ReviewEvidence.antt =====
-- review_evidence.py: reviews that are recorded in Markdown files, and the choice of those that a
-- consult quotes. What the block of a file parses to (a regular expression and `json.loads`) and
-- the time that a text names are parameters.
pub mod Laws
use standards_control_plane.Prelude.{
  Bool, List, Option, Result, String, [], any, err, filter, if◌then◌else◌, none, ok, some, take,
  traverse, type_error, ℕ, ◌+◌, ◌==◌, ◌>>=◌, ◌>>◌, ◌||◌, ◌∷◌,
}
use standards_control_plane.Prelude.Int.{neg, negsuc, pos, ℤ}
use standards_control_plane.Order.{Key, int, sorted, text}
use standards_control_plane.Json.{
  Schemas, Value, arr, ensure_object, ensure_string, get, item, string_item, text_of, to_list,
  validate_with_schema,
}
use standards_control_plane.Paths.{Files, Location, paths_overlap, resolve_repo_path}
use standards_control_plane.Unique.{ordered_unique}

pub record ReviewEvidenceFinding : Type 0 where
  pub finding_id : String
  pub status : String
  pub summary : String
  pub domain : Option String

pub record ReviewEvidenceRecord : Type 0 where
  pub review_id : String
  pub area_id : String
  pub reviewed_at : String
  pub summary : String
  pub reviewed_paths : List String
  pub findings : List ReviewEvidenceFinding
  pub source_path : String

-- `_ensure_string_list` of review_evidence.py, which refuses empty texts.
abbrev ensure_texts : Value → Result (List String)
unfolding ensure_string
ensure_texts (arr vs) = traverse ensure_string (to_list vs)
ensure_texts _ = err type_error

abbrev elements : Value → Result (List Value)
elements (arr vs) = ok (to_list vs)
elements _ = err type_error

-- `_load_review_finding`
unfoldable pub load_review_finding : Value → Result ReviewEvidenceFinding
unfolding ensure_object string_item get
load_review_finding entry = do
  payload ← ensure_object entry
  finding_id ← string_item "finding_id" payload
  status ← string_item "status" payload
  summary ← string_item "summary" payload
  ok (record {
    finding_id = finding_id;
    status = status;
    summary = summary;
    domain = text_of (get "domain" payload);
  })

pub record ReviewHost : Type 0 where
  pub files : Files
  pub accepts : Schemas
  pub review_block : Location → Result (Option Value)
  pub timestamp : String → Result ℤ

module _ (host : ReviewHost) where
  -- What follows the search for the block.
  unfoldable pub record_of : String → Option Value → Result (Option ReviewEvidenceRecord)
  unfolding validate_with_schema ensure_object ensure_texts string_item load_review_finding
  record_of path_value none = ok none
  record_of path_value (some block) = do
    validate_with_schema host.accepts block "review-evidence.schema.json"
    payload ← ensure_object block
    paths_value ← item "reviewed_paths" payload
    reviewed_paths ← ensure_texts paths_value
    review_id ← string_item "review_id" payload
    area_id ← string_item "area_id" payload
    reviewed_at ← string_item "reviewed_at" payload
    summary ← string_item "summary" payload
    findings_value ← item "findings" payload
    entries ← elements findings_value
    findings ← traverse load_review_finding entries
    ok (
        some (record {
          review_id = review_id;
          area_id = area_id;
          reviewed_at = reviewed_at;
          summary = summary;
          reviewed_paths = reviewed_paths;
          findings = findings;
          source_path = path_value;
        }))

  -- `parse_review_evidence_file`
  unfoldable pub parse_review_evidence_file : String → Result (Option ReviewEvidenceRecord)
  unfolding resolve_repo_path record_of
  parse_review_evidence_file path_value = do
    resolved_path ← resolve_repo_path host.files path_value
    block ← host.review_block resolved_path
    record_of path_value block

  abbrev keep : Option ReviewEvidenceRecord → List ReviewEvidenceRecord → List ReviewEvidenceRecord
  keep none rest = rest
  keep (some r) rest = r ∷ rest

  abbrev load_each : List String → Result (List ReviewEvidenceRecord)
  unfolding parse_review_evidence_file
  load_each [] = ok []
  load_each (path_value ∷ rest) = parse_review_evidence_file path_value >>= λ found.
      load_each rest >>= λ others. ok (keep found others)

  -- `load_review_evidence_records`, of the sorted set of the paths
  unfoldable pub load_review_evidence_records : List String → Result (List ReviewEvidenceRecord)
  unfolding load_each sorted ordered_unique
  load_review_evidence_records paths = load_each (sorted (λ s. text s ∷ []) (ordered_unique paths))

  module _ (area_id : String) (request_paths : List String) where
    -- `path_overlap`
    unfoldable pub touches_review : ReviewEvidenceRecord → Bool
    unfolding paths_overlap
    touches_review r =
        any
          (λ reviewed_path.
            any (λ request_path. paths_overlap reviewed_path request_path) request_paths)
          r.reviewed_paths

    abbrev pub is_related : ReviewEvidenceRecord → Bool
    is_related r = r.area_id == area_id || touches_review r

    abbrev negated : ℤ → ℤ
    negated (pos n) = neg n
    negated (negsuc n) = pos (n + 1)

    abbrev time_or_zero : Result ℤ → ℤ
    time_or_zero (ok t) = t
    time_or_zero (err e) = pos 0

    -- `sort_key`, once the time is known.
    abbrev pub review_key : ReviewEvidenceRecord → Key
    review_key r =
        int (if r.area_id == area_id then pos 0 else pos 1)
        ∷ int (if touches_review r then pos 0 else pos 1)
        ∷ int (negated (time_or_zero (host.timestamp r.reviewed_at)))
        ∷ text r.source_path
        ∷ []

    -- `select_historical_reviews` on the loaded records. Python computes every key before it sorts,
    -- and a time that cannot be read raises there.
    unfoldable pub select_historical_reviews :
        List ReviewEvidenceRecord → ℕ → Result (List ReviewEvidenceRecord)
    unfolding sorted touches_review
    select_historical_reviews records limit =
        let selected = filter is_related records in
        traverse (λ (r : ReviewEvidenceRecord). host.timestamp r.reviewed_at) selected
        >> ok (take limit (sorted review_key selected))
