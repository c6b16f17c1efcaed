-- ===== src/Findings/Persist/Laws.antt =====
-- Persisting an audit is all or nothing.
use standards_control_plane.Findings.Reconcile.Distinct.{IsDistinct}
use standards_control_plane.Prelude.{
  >>=-eq-ok, Bool, Option, Result, err, false, filter, if◌then◌else◌, ok, os_error, refl, some,
  subst, sym, true, ◌==◌, ◌>>◌, ◌||◌, ◌≡◌,
}
use standards_control_plane.Json.{Value, ensure_object, string_item, validate_with_schema}
use standards_control_plane.Findings.{FindingsStore, store_to_dict}
use standards_control_plane.Findings.Load.{Host}
use standards_control_plane.Findings.Reconcile.{default_store_version, reconcile_findings}
use standards_control_plane.Findings.Reconcile.Stores.{
  reconcile_findings-IsValid, reconcile_findings_stores,
}
use standards_control_plane.Findings.Write.{Disk, Faults, write_findings_stores}
use standards_control_plane.Findings.Write.Atomic.{plain, write_findings_stores_outcome}
use standards_control_plane.Findings.Persist.{
  load_findings_store_or_empty, persist_audit_findings, reconciled, write_reconciled,
}

-- Nothing happened, or both files hold the stores that are returned.
abbrev pub IsAtomic :
    Option Value → Option Value → Result (FindingsStore × FindingsStore) × Disk → Type 0
IsAtomic o h (ok stores, d) =
    (d ≡ plain (some (store_to_dict stores.0)) (some (store_to_dict stores.1)))
    × (stores.0.findings ≡ filter (λ f. f.status == "open") stores.1.findings)
    × IsDistinct stores.1.findings
IsAtomic o h (err e, d) = d ≡ plain o h

module _ (host : Host) (faults : Faults) (o h : Option Value) where
  reconciled_from :
      (audit_result : Value) {stores : FindingsStore × FindingsStore}
      → reconciled host audit_result o h ≡ ok stores
      → (open_store : FindingsStore) × (history_store : FindingsStore) × (reconcile_findings host
            audit_result
            (some open_store)
            (some history_store)
          ≡ ok stores)
  unfolding reconciled
  reconciled_from audit_result done =
      let (_, _, h1) =
        >>=-eq-ok (validate_with_schema host.accepts audit_result "audit-result.schema.json") _
          done in
      let (payload, _, h2) = >>=-eq-ok (ensure_object audit_result) _ h1 in
      let (generated_at, _, h3) = >>=-eq-ok (string_item "generated_at" payload) _ h2 in
      let (history_store, _, h4) =
        >>=-eq-ok (load_findings_store_or_empty host h generated_at default_store_version) _ h3 in
      let (open_store, _, h5) =
        >>=-eq-ok (load_findings_store_or_empty host o generated_at history_store.store_version) _
          h4 in
      (open_store, history_store, h5)

  module _ (audit_result : Value) (open_back : faults.restore_open ≡ false)
      (history_back : faults.restore_history ≡ false) where
    written-IsAtomic :
        (b : Bool) (stores : FindingsStore × FindingsStore) (r : Result (Unit {0}) × Disk)
        → reconciled host audit_result o h ≡ ok stores
        → r ≡ (
            if b
            then (err os_error, plain o h)
            else (ok tt, plain (some (store_to_dict stores.0)) (some (store_to_dict stores.1))))
        → IsAtomic o h (r.0 >> ok stores, r.1)
    written-IsAtomic true stores r done e =
        subst (λ (q : Result (Unit {0}) × Disk). IsAtomic o h (q.0 >> ok stores, q.1)) (sym e) refl
    written-IsAtomic false stores r done e =
        let (open_store, history_store, reconciles) = reconciled_from audit_result done in
        let (sorted, distinct, opened, _, _) =
          reconcile_findings_stores host audit_result (some open_store) (some history_store)
            reconciles in
        subst (λ (q : Result (Unit {0}) × Disk). IsAtomic o h (q.0 >> ok stores, q.1)) (sym e)
          (refl, opened, distinct)

    write-IsAtomic :
        (m : Result (FindingsStore × FindingsStore))
        → reconciled host audit_result o h ≡ m
        → IsAtomic o h (write_reconciled host faults (plain o h) m)
    write-IsAtomic (err e) done = refl
    write-IsAtomic (ok stores) done =
        let (open_store, history_store, reconciles) = reconciled_from audit_result done in
        let (valid_open, valid_history) =
          reconcile_findings-IsValid host audit_result (some open_store) (some history_store)
            reconciles in
        written-IsAtomic (faults.commit_open || faults.commit_history) stores
          (write_findings_stores host.accepts faults stores.0 stores.1 (plain o h)) done
          (write_findings_stores_outcome host.accepts stores.0 stores.1 valid_open valid_history
            faults o h open_back history_back)

    -- Persisting an audit, if putting back does not fail, either raises and leaves both files as
    -- they were, or returns two stores that the files then hold, the open one being the open part
    -- of the history, which names each finding once; no temporary file is left.
    pub persist_audit_findings-IsAtomic :
        IsAtomic o h (persist_audit_findings host faults audit_result (plain o h))
    unfolding persist_audit_findings
    persist_audit_findings-IsAtomic = write-IsAtomic (reconciled host audit_result o h) refl
