-- ===== src/Findings/Reconcile.antt =====
-- `reconcile_findings` of findings.py: an audit's findings against the two persisted stores.
pub mod Records
pub mod Outcome
pub mod Again
pub mod Inputs
pub mod Distinct
pub mod Assembled
pub mod Stores
use standards_control_plane.Prelude.{
  Bool, List, Option, Result, String, [], elem, err, false, filter, guard, if◌then◌else◌, none, not,
  ok, some, type_error, value_error, ◌&&◌, ◌==◌, ◌>>=◌, ◌>>◌, ◌||◌, ◌∷◌,
}
use standards_control_plane.Dict.{Dict, contains, get, put, values}
use standards_control_plane.Json
use standards_control_plane.Json.{
  Fields, Value, end, ensure_object, field, item, obj, or_empty, string_item, text_of,
  validate_with_schema,
}
use standards_control_plane.Findings.{FindingRecord, FindingsStore, sorted_findings, store_to_dict}
use standards_control_plane.Findings.Load.{Host, ensure_list, load_finding}
use standards_control_plane.Findings.Merge.{ensure_scope_match, finding_eq, merge_existing_stores}

-- `a or b` for a text that may be missing.
abbrev pub or_text : Option String → String → String
or_text none t = t
or_text (some s) t = if s == "" then t else s

-- `_clone_finding`
unfoldable pub clone_finding :
    FindingRecord → Option String → Option String → Option String → FindingRecord
clone_finding finding status created_at updated_at = record finding {
  status = or_text status finding.status;
  created_at = or_text created_at finding.created_at;
  updated_at = or_text updated_at finding.updated_at;
}

abbrev pub default_store_version : String
default_store_version = "0.1.0"

-- `empty_findings_store`
unfoldable pub empty_findings_store : String → String → FindingsStore
empty_findings_store generated_at store_version = record {
  store_version = store_version;
  generated_at = generated_at;
  findings = [];
}

-- `_store_version` of two stores
unfoldable pub store_version_of : FindingsStore → FindingsStore → Result String
store_version_of a b =
    if a.store_version == b.store_version then ok a.store_version else err value_error

-- `status in {"open", "waived"}`
abbrev pub is_live : String → Bool
is_live status = status == "open" || status == "waived"

-- The step of the loop of `_deduplicate_audit_findings`, given what the dict has for the record.
unfoldable pub deduplicate_one :
    Dict FindingRecord → FindingRecord → Option FindingRecord → Result (Dict FindingRecord)
unfolding ensure_scope_match
deduplicate_one deduplicated record' none = ok (put record'.finding_id record' deduplicated)
deduplicate_one deduplicated record' (some existing) =
    ensure_scope_match existing record'
    >> guard (finding_eq existing record') value_error
    >> ok deduplicated

module _ (host : Host) where
  unfoldable pub deduplicate_from : Dict FindingRecord → List Value → Result (Dict FindingRecord)
  unfolding deduplicate_one
  deduplicate_from deduplicated [] = ok deduplicated
  deduplicate_from deduplicated (finding_payload ∷ rest) =
      load_finding host finding_payload >>= λ record'.
      guard (is_live record'.status) value_error
      >> (deduplicate_one deduplicated record' (get record'.finding_id deduplicated) >>= λ next.
          deduplicate_from next rest)

-- The first loop of `reconcile_findings`: every current finding enters the history.
module _ (generated_at : String) (evaluated_domains : List String) where
  abbrev pub scope_check : Option FindingRecord → FindingRecord → Result (Unit {0})
  scope_check none finding = ok tt
  scope_check (some existing) finding = ensure_scope_match existing finding

  abbrev pub entered : Option FindingRecord → FindingRecord → FindingRecord
  entered none finding =
      clone_finding finding (some finding.status) (some finding.created_at) (some generated_at)
  entered (some existing) finding =
      clone_finding finding (some finding.status) (some existing.created_at) (some generated_at)

  unfoldable pub enter_current :
      Dict FindingRecord → Dict FindingRecord → Result (Dict FindingRecord)
  unfolding ensure_scope_match
  enter_current [] history = ok history
  enter_current ((finding_id, finding) ∷ rest) history =
      guard (elem finding.domain evaluated_domains) value_error
      >> (scope_check (get finding_id history) finding
          >> enter_current rest (put finding_id (entered (get finding_id history) finding) history))

-- The second loop: what the audit covers and no longer reports is resolved.
module _ (generated_at scope_area_id : String) (evaluated_domains : List String)
    (current : Dict FindingRecord) where
  abbrev pub is_gone : String → FindingRecord → Bool
  is_gone finding_id finding =
      not (contains finding_id current)
      && (is_live finding.status
          && (finding.area_id == scope_area_id && elem finding.domain evaluated_domains))

  abbrev pub resolved : FindingRecord → FindingRecord
  resolved finding = clone_finding finding (some "resolved") none (some generated_at)

  unfoldable pub resolve_gone : Dict FindingRecord → Dict FindingRecord → Dict FindingRecord
  resolve_gone [] history = history
  resolve_gone ((finding_id, finding) ∷ rest) history =
      resolve_gone rest
        (if is_gone finding_id finding then put finding_id (resolved finding) history else history)

-- The records of the new history, from those of the old one.
unfoldable pub reconcile_records :
    String
    → String
    → List String
    → Dict FindingRecord
    → Dict FindingRecord
    → Result (Dict FindingRecord)
unfolding enter_current resolve_gone
reconcile_records generated_at scope_area_id evaluated_domains current existing_records = do
  history ← enter_current generated_at evaluated_domains current existing_records
  ok (resolve_gone generated_at scope_area_id evaluated_domains current history history)

-- `evaluated_domains`: the keys whose value is an object with the status "evaluated".
abbrev says_evaluated : Option String → Bool
says_evaluated none = false
says_evaluated (some s) = s == "evaluated"

abbrev is_evaluated : Value → Bool
is_evaluated (obj fs) = says_evaluated (text_of (Json.get "status" fs))
is_evaluated _ = false

abbrev pub evaluated_domains_of : Fields → List String
evaluated_domains_of end = []
evaluated_domains_of (field domain status rest) =
    let others = evaluated_domains_of rest in
    if is_evaluated status then domain ∷ others else others

abbrev pub or_store : Option FindingsStore → FindingsStore → FindingsStore
or_store none s = s
or_store (some s) _ = s

unfoldable pub ensure_status : Option Value → Result Fields
ensure_status none = ok end
ensure_status (some (obj fs)) = ok fs
ensure_status (some _) = err type_error

abbrev pub history_result : String → String → Dict FindingRecord → FindingsStore
history_result store_version generated_at records = record {
  store_version = store_version;
  generated_at = generated_at;
  findings = sorted_findings (values records);
}

abbrev pub open_result : FindingsStore → FindingsStore
open_result history = record history {
  findings = filter (λ f. f.status == "open") history.findings;
}

abbrev pub opened_store : Option FindingsStore → String → FindingsStore
opened_store open_store generated_at =
    or_store open_store (empty_findings_store generated_at default_store_version)

abbrev pub past_store : Option FindingsStore → Option FindingsStore → String → FindingsStore
past_store open_store history_store generated_at =
    or_store history_store
      (empty_findings_store generated_at (opened_store open_store generated_at).store_version)

module _ (host : Host) where
  -- `_deduplicate_audit_findings`
  unfoldable pub deduplicate_audit_findings : Fields → Result (Dict FindingRecord)
  unfolding deduplicate_from ensure_list
  deduplicate_audit_findings audit_result = do
    findings_payload ← ensure_list (or_empty (Json.get "findings" audit_result))
    deduplicate_from host [] findings_payload

  -- The end of `reconcile_findings`: both stores are validated and returned.
  unfoldable pub finish : FindingsStore → Result (FindingsStore × FindingsStore)
  unfolding validate_with_schema
  finish history = do
    validate_with_schema host.accepts (store_to_dict (open_result history))
        "findings-store.schema.json"
    validate_with_schema host.accepts (store_to_dict history) "findings-store.schema.json"
    ok (open_result history, history)

  -- The middle of `reconcile_findings`, once the audit result is read.
  unfoldable pub reconcile_stores :
      String
      → String
      → Dict FindingRecord
      → Option Value
      → FindingsStore
      → FindingsStore
      → Result (FindingsStore × FindingsStore)
  unfolding ensure_status store_version_of merge_existing_stores reconcile_records finish
  reconcile_stores generated_at scope_area_id current status current_open current_history = do
    store_version ← store_version_of current_open current_history
    domain_status ← ensure_status status
    existing_records ← merge_existing_stores current_history current_open
    records ←
        reconcile_records generated_at scope_area_id (evaluated_domains_of domain_status) current
          existing_records
    finish (history_result store_version generated_at records)

  -- `reconcile_findings`: the open store and the history store.
  unfoldable pub reconcile_findings :
      Value → Option FindingsStore → Option FindingsStore → Result (FindingsStore × FindingsStore)
  unfolding ensure_object string_item validate_with_schema deduplicate_audit_findings
      reconcile_stores empty_findings_store
  reconcile_findings audit_result open_store history_store = do
    validate_with_schema host.accepts audit_result "audit-result.schema.json"
    payload ← ensure_object audit_result
    generated_at ← string_item "generated_at" payload
    scope_value ← item "scope" payload
    scope ← ensure_object scope_value
    scope_area_id ← string_item "area_id" scope
    current ← deduplicate_audit_findings payload
    reconcile_stores generated_at scope_area_id current (Json.get "domain_status" payload)
        (opened_store open_store generated_at) (past_store open_store history_store generated_at)
