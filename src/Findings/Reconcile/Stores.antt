-- ===== src/Findings/Reconcile/Stores.antt =====
-- `reconcile_findings` from end to end.
use standards_control_plane.Prelude.{
  >>=-eq-ok, >>=-of_ok, All, Option, String, any, ap, filter, ok, some, subst, sym, true, ◌==◌,
  ◌>>=◌, ◌||◌, ◌∙◌, ◌≡◌,
}
use standards_control_plane.Order.Sorted.{All-sorted, IsSorted, any-sorted, sorted-IsSorted}
use standards_control_plane.Dict.{Dict, get, values}
use standards_control_plane.Json
use standards_control_plane.Json.{
  Fields, Value, ensure_object, item, string_item, validate_with_schema,
}
use standards_control_plane.Findings.{FindingRecord, FindingsStore, finding_sort_key}
use standards_control_plane.Findings.Load.{Host}
use standards_control_plane.Findings.Reconcile.Distinct.{
  IsDistinct, along, any-values, contains_of_found, found_of_contains, sorted-IsDistinct,
  values-IsDistinct,
}
use standards_control_plane.Findings.Reconcile.Assembled.{
  IsValid, Reconciliation, Reconciliation-of_stores, outcome-finding_id, outcome_found,
}
use standards_control_plane.Findings.Reconcile.{
  deduplicate_audit_findings, evaluated_domains_of, opened_store, past_store, reconcile_findings,
}
use standards_control_plane.Findings.Reconcile.Inputs.{
  IsKeyed, deduplicate_audit_findings-IsKeyed, has_id, merge_existing_stores-IsKeyed,
  merge_existing_stores-contains,
}
use standards_control_plane.Dict.Laws.{All-get, All-of_get, All-values}
use standards_control_plane.Findings.Reconcile.Outcome.{
  get-reconcile_records, outcome, reconcile_records-IsDict,
}

-- What was read from an audit result that was accepted.
pub record Accepted (host : Host) (audit_result : Value)
    (open_store history_store : Option FindingsStore) (stores : FindingsStore × FindingsStore)
    : Type 0 where
  pub payload : Fields
  pub payload_read : ensure_object audit_result ≡ ok payload
  pub generated_at : String
  pub at_read : string_item "generated_at" payload ≡ ok generated_at
  pub scope_area_id : String
  pub area_read :
      (item "scope" payload >>= λ scope_value. ensure_object scope_value >>= string_item "area_id")
      ≡ ok scope_area_id
  pub current : Dict FindingRecord
  pub reported : deduplicate_audit_findings host payload ≡ ok current
  pub reconciliation :
      Reconciliation host generated_at scope_area_id current
        (Json.get "domain_status" payload)
        (opened_store open_store generated_at)
        (past_store open_store history_store generated_at)
        stores

module _ (host : Host) (audit_result : Value)
    (open_store history_store : Option FindingsStore) where
  module _ {stores : FindingsStore × FindingsStore}
      (done : reconcile_findings host audit_result open_store history_store ≡ ok stores) where
    pub accepted : Accepted host audit_result open_store history_store stores
    unfolding reconcile_findings
    accepted =
        let (_, valid, e1) =
          >>=-eq-ok (validate_with_schema host.accepts audit_result "audit-result.schema.json") _
            done in
        let (payload, read, e2) = >>=-eq-ok (ensure_object audit_result) _ e1 in
        let (generated_at, at, e3) = >>=-eq-ok (string_item "generated_at" payload) _ e2 in
        let (scope_value, sv, e4) = >>=-eq-ok (item "scope" payload) _ e3 in
        let (scope, s, e5) = >>=-eq-ok (ensure_object scope_value) _ e4 in
        let (scope_area_id, area, e6) = >>=-eq-ok (string_item "area_id" scope) _ e5 in
        let (current, reported, e7) = >>=-eq-ok (deduplicate_audit_findings host payload) _ e6 in
        record {
          payload = payload;
          payload_read = read;
          generated_at = generated_at;
          at_read = at;
          scope_area_id = scope_area_id;
          area_read =
              >>=-of_ok (λ scope_value. ensure_object scope_value >>= string_item "area_id") sv
              ∙ (>>=-of_ok (string_item "area_id") s ∙ area);
          current = current;
          reported = reported;
          reconciliation =
              Reconciliation-of_stores host generated_at scope_area_id current
                (Json.get "domain_status" payload) (opened_store open_store generated_at)
                (past_store open_store history_store generated_at) e7;
        }

    records_lem :
        (k : String)
        → get k accepted.reconciliation.records
          ≡ outcome accepted.generated_at accepted.scope_area_id
              (evaluated_domains_of accepted.reconciliation.domain_status)
              accepted.current
              k
              (get k accepted.current)
              (get k accepted.reconciliation.existing)
    records_lem k =
        let a = accepted in
        let r = a.reconciliation in
        get-reconcile_records a.generated_at a.scope_area_id (evaluated_domains_of r.domain_status)
          a.current (deduplicate_audit_findings-IsKeyed host a.payload a.reported).1 r.existing
          (merge_existing_stores-IsKeyed _ _ r.known).1 r.reconciled k

    records-IsKeyed : IsKeyed accepted.reconciliation.records
    records-IsKeyed =
        let a = accepted in
        let r = a.reconciliation in
        let (current_ids, unique) = deduplicate_audit_findings-IsKeyed host a.payload a.reported in
        let (existing_ids, d) = merge_existing_stores-IsKeyed _ _ r.known in
        let is_dict =
          reconcile_records-IsDict a.generated_at a.scope_area_id
            (evaluated_domains_of r.domain_status) a.current r.existing d r.reconciled in
        (
          All-of_get (λ p. p.1.finding_id ≡ p.0) r.records is_dict
              λ k v here.
                outcome-finding_id a.generated_at a.scope_area_id
                  (evaluated_domains_of r.domain_status) a.current k v (get k a.current)
                  (get k r.existing)
                  (λ f e. All-get (λ p. p.1.finding_id ≡ p.0) k a.current current_ids e)
                  (λ f e. All-get (λ p. p.1.finding_id ≡ p.0) k r.existing existing_ids e)
                  (sym (records_lem k) ∙ here),
          is_dict,
        )

    -- The history is in order and names each finding once; the open store is its open part.
    pub reconcile_findings_stores :
        IsSorted finding_sort_key stores.1.findings
        × IsDistinct stores.1.findings
        × (stores.0.findings ≡ filter (λ f. f.status == "open") stores.1.findings)
        × (stores.0.store_version ≡ stores.1.store_version)
        × (stores.0.generated_at ≡ stores.1.generated_at)
    reconcile_findings_stores =
        let a = accepted in
        let r = a.reconciliation in
        (
          along (IsSorted finding_sort_key) r.history
              (sorted-IsSorted finding_sort_key (values r.records)),
          along IsDistinct r.history
              (sorted-IsDistinct (values r.records) (values-IsDistinct r.records records-IsKeyed)),
          ap (λ (s : FindingsStore). s.findings) r.opened,
          ap (λ (s : FindingsStore). s.store_version) r.opened,
          ap (λ (s : FindingsStore). s.generated_at) r.opened,
        )

    -- The record is the one that the description gives for an identifier.
    abbrev pub IsOutcomeAt : String → FindingRecord → Type 0
    IsOutcomeAt k f =
        outcome accepted.generated_at accepted.scope_area_id
          (evaluated_domains_of accepted.reconciliation.domain_status) accepted.current k
          (get k accepted.current) (get k accepted.reconciliation.existing)
        ≡ some f

    abbrev pub IsOutcome : FindingRecord → Type 0
    IsOutcome f = IsOutcomeAt f.finding_id f

    -- After a successful reconciliation every record of the new history is what is described for its
    -- identifier: the reported finding with the time at which it was first seen, if the audit reports
    -- it; else the stored one, which is resolved if it was open or waived and is of the audited area
    -- and of an evaluated domain, and is unchanged otherwise.
    pub reconcile_findings-IsOutcome : All IsOutcome stores.1.findings
    reconcile_findings-IsOutcome =
        let r = accepted.reconciliation in
        along (All IsOutcome) r.history (
          All-sorted finding_sort_key IsOutcome (values r.records) (
            All-values IsOutcome r.records (
              All-of_get (λ p. IsOutcome p.1) r.records records-IsKeyed.1
                λ k v here.
                  let same =
                    All-get (λ p. p.1.finding_id ≡ p.0) k r.records records-IsKeyed.0 here in
                  subst (λ i. IsOutcomeAt i v) (sym same) (sym (records_lem k) ∙ here))))

    -- No finding of the persisted stores is lost.
    pub reconcile_findings_keeps :
        (k : String)
        → any (has_id k) (past_store open_store history_store accepted.generated_at).findings
            || any (has_id k) (opened_store open_store accepted.generated_at).findings
          ≡ true
        → any (has_id k) stores.1.findings ≡ true
    reconcile_findings_keeps k h =
        let a = accepted in
        let r = a.reconciliation in
        let there = merge_existing_stores-contains _ _ r.known k ∙ h in
        along (λ fs. any (has_id k) fs ≡ true) r.history
          (any-sorted finding_sort_key (has_id k) (values r.records)
            ∙ any-values k r.records records-IsKeyed
            ∙ contains_of_found k r.records (λ e.
              outcome_found a.generated_at a.scope_area_id (evaluated_domains_of r.domain_status)
                a.current k (get k a.current) (get k r.existing)
                (λ q. absurd (found_of_contains k r.existing there q)) (sym (records_lem k) ∙ e)))

    -- Both new stores have passed the validator.
    pub reconcile_findings-IsValid : IsValid host stores.0 × IsValid host stores.1
    reconcile_findings-IsValid =
        (accepted.reconciliation.valid_open, accepted.reconciliation.valid_history)
