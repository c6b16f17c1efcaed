-- ===== src/Findings/Reconcile/Assembled.antt =====
-- How the two new stores are put together from what is reported and what was stored.
use standards_control_plane.Prelude.{
  >>=-eq-ok, Bool, List, Option, Result, String, ap, false, guard-eq-ok, if◌then◌else◌, none, ok,
  refl, some, subst, sym, true, value-eq, value_error, ◌∙◌, ◌≡◌, ◌≢◌,
}
use standards_control_plane.Dict.{Dict}
use standards_control_plane.Json.{Fields, Value, validate_with_schema}
use standards_control_plane.Findings.{FindingRecord, FindingsStore, store_to_dict}
use standards_control_plane.Findings.Load.{Host}
use standards_control_plane.Findings.Merge.{merge_existing_stores}
use standards_control_plane.Findings.Reconcile.{
  clone_finding, ensure_status, evaluated_domains_of, finish, history_result, open_result,
  reconcile_records, reconcile_stores, store_version_of,
}
use standards_control_plane.Findings.Reconcile.Outcome.{given_or, is_covered, outcome}

pub outcome-finding_id :
    (generated_at scope_area_id : String) (ds : List String) (current : Dict FindingRecord)
    (k : String) (v : FindingRecord) (c b : Option FindingRecord)
    → ((f : FindingRecord) → c ≡ some f → f.finding_id ≡ k)
    → ((f : FindingRecord) → b ≡ some f → f.finding_id ≡ k)
    → outcome generated_at scope_area_id ds current k c b ≡ some v
    → v.finding_id ≡ k
unfolding clone_finding
outcome-finding_id g a ds current k v (some f) none hc hb e =
    ap (λ (x : FindingRecord). x.finding_id) (sym (value-eq e)) ∙ hc f refl
outcome-finding_id g a ds current k v (some f) (some b) hc hb e =
    ap (λ (x : FindingRecord). x.finding_id) (sym (value-eq e)) ∙ hc f refl
outcome-finding_id g a ds current k v none none hc hb e = cc
outcome-finding_id g a ds current k v none (some b) hc hb e =
    ap (λ (x : FindingRecord). x.finding_id) (sym (value-eq e))
    ∙ same_id (is_covered g a ds current b)
    ∙ hb b refl
  where
    same_id :
        (t : Bool)
        → (if t
            then record b {
              status = "resolved";
              updated_at = given_or g a ds current g b.updated_at;
            }
            else b).finding_id
          ≡ b.finding_id
    same_id true = refl
    same_id false = refl

pub outcome_found :
    (generated_at scope_area_id : String) (ds : List String) (current : Dict FindingRecord)
    (k : String) (c b : Option FindingRecord)
    → b ≢ none
    → outcome generated_at scope_area_id ds current k c b ≢ none
outcome_found g a ds current k (some f) b h e = cc
outcome_found g a ds current k none none h e = h refl
outcome_found g a ds current k none (some b) h e = cc

pub pair-eq :
    {a b : FindingsStore} (t : FindingsStore × FindingsStore)
    → ◌≡◌ {A = Result (FindingsStore × FindingsStore)} (ok (a, b)) (ok t)
    → (t.0 ≡ a) × (t.1 ≡ b)
pair-eq t e = (cc, cc)

-- The validator accepts the JSON of the store.
abbrev pub IsValid : Host → FindingsStore → Type 0
IsValid host s = host.accepts "findings-store.schema.json" (store_to_dict s) ≡ true

pub validate_ok :
    (host : Host) (s : FindingsStore) {u : Unit {0}}
    → validate_with_schema host.accepts (store_to_dict s) "findings-store.schema.json" ≡ ok u
    → IsValid host s
unfolding validate_with_schema
validate_ok host s h =
    guard-eq-ok (host.accepts "findings-store.schema.json" (store_to_dict s)) value_error h

pub finish_lem :
    (host : Host) (history : FindingsStore) {stores : FindingsStore × FindingsStore}
    → finish host history ≡ ok stores
    → (stores.1 ≡ history)
      × (stores.0 ≡ open_result stores.1)
      × IsValid host stores.0
      × IsValid host stores.1
unfolding finish
finish_lem host history {stores} done =
    let (_, valid_open, e1) =
      >>=-eq-ok
        (validate_with_schema host.accepts (store_to_dict (open_result history))
          "findings-store.schema.json")
        _ done in
    let (_, valid_history, e2) =
      >>=-eq-ok
        (validate_with_schema host.accepts (store_to_dict history) "findings-store.schema.json")
        (λ _. ok (open_result history, history)) e1 in
    let (first, second) = pair-eq stores e2 in
    (
      second,
      first ∙ ap open_result (sym second),
      subst (IsValid host) (sym first) (validate_ok host (open_result history) valid_open),
      subst (IsValid host) (sym second) (validate_ok host history valid_history),
    )

-- How two new stores come about from what the audit reports and what was stored.
pub record Reconciliation (host : Host) (generated_at scope_area_id : String)
    (current : Dict FindingRecord) (status : Option Value)
    (current_open current_history : FindingsStore) (stores : FindingsStore × FindingsStore)
    : Type 0 where
  pub store_version : String
  pub domain_status : Fields
  pub status_read : ensure_status status ≡ ok domain_status
  pub existing : Dict FindingRecord
  pub records : Dict FindingRecord
  pub known : merge_existing_stores current_history current_open ≡ ok existing
  pub reconciled :
      reconcile_records generated_at scope_area_id
        (evaluated_domains_of domain_status)
        current
        existing
      ≡ ok records
  pub history : stores.1 ≡ history_result store_version generated_at records
  pub opened : stores.0 ≡ open_result stores.1
  pub valid_open : IsValid host stores.0
  pub valid_history : IsValid host stores.1

pub Reconciliation-of_stores :
    (host : Host) (generated_at scope_area_id : String) (current : Dict FindingRecord)
    (status : Option Value) (current_open current_history : FindingsStore)
    {stores : FindingsStore × FindingsStore}
    → reconcile_stores host generated_at scope_area_id current status current_open current_history
      ≡ ok stores
    → Reconciliation host generated_at scope_area_id current status current_open current_history
        stores
unfolding reconcile_stores
Reconciliation-of_stores host generated_at scope_area_id current status current_open current_history
      done =
    let (store_version, version, e1) =
      >>=-eq-ok (store_version_of current_open current_history) _ done in
    let (domain_status, ds, e2) = >>=-eq-ok (ensure_status status) _ e1 in
    let (existing, known, e3) =
      >>=-eq-ok (merge_existing_stores current_history current_open) _ e2 in
    let (records, reconciled, e4) =
      >>=-eq-ok
        (reconcile_records generated_at scope_area_id (evaluated_domains_of domain_status) current
          existing)
        (λ records. finish host (history_result store_version generated_at records)) e3 in
    let (history, opened, valid_open, valid_history) =
      finish_lem host (history_result store_version generated_at records) e4 in
    record {
      store_version = store_version;
      domain_status = domain_status;
      status_read = ds;
      existing = existing;
      records = records;
      known = known;
      reconciled = reconciled;
      history = history;
      opened = opened;
      valid_open = valid_open;
      valid_history = valid_history;
    }
