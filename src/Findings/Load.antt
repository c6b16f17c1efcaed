-- ===== src/Findings/Load.antt =====
-- The loaders of findings.py, from a parsed JSON value to a store.
use standards_control_plane.Prelude.{
  List, Result, err, guard, ok, traverse, type_error, value_error, ◌==◌, ◌>>=◌, ◌>>◌,
}
use standards_control_plane.Json.{
  Schemas, Value, arr, ensure_object, ensure_string_list, get, item, obj, or_empty, string_item,
  text_of, to_float, to_list, validate_with_schema,
}
use standards_control_plane.Paths.{Files, resolve_repo_path}
use standards_control_plane.Confidence.{classify_confidence}
use standards_control_plane.Findings.{EvidenceRecord, FindingRecord, FindingsStore, sorted_findings}

-- What the loaders ask of the outside: the file tree and the schema validator.
pub record Host : Type 0 where
  pub files : Files
  pub accepts : Schemas

unfoldable pub ensure_list : Value → Result (List Value)
ensure_list (arr vs) = ok (to_list vs)
ensure_list _ = err type_error

module _ (host : Host) where
  -- `_load_evidence`
  unfoldable pub load_evidence : Value → Result EvidenceRecord
  unfolding ensure_object string_item
  load_evidence entry = do
    payload ← ensure_object entry
    path_value ← string_item "path" payload
    resolve_repo_path host.files path_value
    evidence_class ← string_item "evidence_class" payload
    ok (record {
      path = path_value;
      evidence_class = evidence_class;
      locator = text_of (get "locator" payload);
      snippet_ref = text_of (get "snippet_ref" payload);
    })

  -- `_load_finding`
  unfoldable pub load_finding : Value → Result FindingRecord
  unfolding ensure_object string_item validate_with_schema ensure_string_list to_float ensure_list
  load_finding entry = do
    payload ← ensure_object entry
    validate_with_schema host.accepts (obj payload) "finding.schema.json"
    evidence_payload ← ensure_list (or_empty (get "evidence" payload))
    confidence_value ← item "confidence" payload
    confidence ← to_float confidence_value
    confidence_class ← string_item "confidence_class" payload
    expected ← classify_confidence confidence
    guard (expected == confidence_class) value_error
    finding_id ← string_item "finding_id" payload
    domain ← string_item "domain" payload
    severity ← string_item "severity" payload
    status ← string_item "status" payload
    title ← string_item "title" payload
    summary ← string_item "summary" payload
    evidence ← traverse load_evidence evidence_payload
    area_id ← string_item "area_id" payload
    suggested_remediation ← ensure_string_list (or_empty (get "suggested_remediation" payload))
    detected_by ← string_item "detected_by" payload
    standards_version ← string_item "standards_version" payload
    created_at ← string_item "created_at" payload
    updated_at ← string_item "updated_at" payload
    ok (record {
      finding_id = finding_id;
      domain = domain;
      severity = severity;
      status = status;
      title = title;
      summary = summary;
      evidence = evidence;
      area_id = area_id;
      suggested_remediation = suggested_remediation;
      confidence = confidence;
      confidence_class = confidence_class;
      detected_by = detected_by;
      standards_version = standards_version;
      created_at = created_at;
      updated_at = updated_at;
      rule_id = text_of (get "rule_id" payload);
    })

  -- `load_findings_store`, from what `load_json_file` gives for the path.
  unfoldable pub load_findings_store : Value → Result FindingsStore
  unfolding ensure_object string_item validate_with_schema ensure_list
  load_findings_store file = do
    payload ← ensure_object file
    validate_with_schema host.accepts (obj payload) "findings-store.schema.json"
    findings_payload ← ensure_list (or_empty (get "findings" payload))
    store_version ← string_item "store_version" payload
    generated_at ← string_item "generated_at" payload
    findings ← traverse load_finding findings_payload
    ok (record {
      store_version = store_version;
      generated_at = generated_at;
      findings = sorted_findings findings;
    })
