-- ===== src/Findings/Persist.antt =====
-- `persist_audit_findings` of findings.py: the two files are read, reconciled with an audit, and
-- replaced. A file holds its JSON value.
pub mod Laws
use standards_control_plane.Prelude.{Option, Result, String, err, none, ok, some, ◌>>=◌, ◌>>◌}
use standards_control_plane.Json.{Value, ensure_object, string_item, validate_with_schema}
use standards_control_plane.Findings.{FindingsStore}
use standards_control_plane.Findings.Load.{Host, load_findings_store}
use standards_control_plane.Findings.Reconcile.{
  default_store_version, empty_findings_store, reconcile_findings,
}
use standards_control_plane.Findings.Write.{Disk, Faults, write_findings_stores}

module _ (host : Host) where
  -- `load_findings_store_or_empty`
  unfoldable pub load_findings_store_or_empty :
      Option Value → String → String → Result FindingsStore
  unfolding load_findings_store empty_findings_store
  load_findings_store_or_empty none generated_at store_version =
      ok (empty_findings_store generated_at store_version)
  load_findings_store_or_empty (some payload) generated_at store_version =
      load_findings_store host payload

  -- What is read and computed before anything is written.
  unfoldable pub reconciled :
      Value → Option Value → Option Value → Result (FindingsStore × FindingsStore)
  unfolding validate_with_schema ensure_object string_item load_findings_store_or_empty
      reconcile_findings
  reconciled audit_result open_file history_file = do
    validate_with_schema host.accepts audit_result "audit-result.schema.json"
    payload ← ensure_object audit_result
    generated_at ← string_item "generated_at" payload
    history_store ← load_findings_store_or_empty history_file generated_at default_store_version
    open_store ← load_findings_store_or_empty open_file generated_at history_store.store_version
    reconcile_findings host audit_result (some open_store) (some history_store)

  abbrev pub write_reconciled :
      Faults
      → Disk
      → Result (FindingsStore × FindingsStore)
      → Result (FindingsStore × FindingsStore) × Disk
  write_reconciled faults d (err e) = (err e, d)
  write_reconciled faults d (ok (open_store, history_store)) =
      let (written, d') = write_findings_stores host.accepts faults open_store history_store d in
      (written >> ok (open_store, history_store), d')

  -- `persist_audit_findings`
  unfoldable pub persist_audit_findings :
      Faults → Value → Disk → Result (FindingsStore × FindingsStore) × Disk
  unfolding reconciled write_findings_stores
  persist_audit_findings faults audit_result d =
      write_reconciled faults d (reconciled audit_result d.open_file.target d.history_file.target)
