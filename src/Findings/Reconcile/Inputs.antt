-- ===== src/Findings/Reconcile/Inputs.antt =====
-- The dicts that `reconcile_findings` builds from its inputs: one entry for each identifier.
use standards_control_plane.Prelude.{
  >>=-eq-ok, All, Bool, Ensures, List, Option, Result, String, [], any, ap, arith, err, false,
  guard, none, ok, refl, some, subst, true, value_error, ◌==◌, ◌>>◌, ◌||◌, ◌∙◌, ◌∷◌, ◌≡◌,
}
use standards_control_plane.Dict.{Dict, IsDict, contains, get, put}
use standards_control_plane.Dict.Laws.{All-get, All-put, contains-put, put-IsDict}
use standards_control_plane.Json
use standards_control_plane.Json.{Fields, Value, or_empty}
use standards_control_plane.Findings.{FindingRecord, FindingsStore}
use standards_control_plane.Findings.Load.{Host, ensure_list, load_finding}
use standards_control_plane.Findings.Merge.{
  ensure_scope_match, finding_eq, merge_existing_record, merge_existing_stores, merge_store,
}
use standards_control_plane.Findings.Reconcile.{
  deduplicate_audit_findings, deduplicate_from, deduplicate_one, is_live,
}

-- Each entry stands under its record's identifier, and no identifier stands twice.
abbrev pub IsKeyed : Dict FindingRecord → Type 0
IsKeyed d = All (λ p. p.1.finding_id ≡ p.0) d × IsDict d

abbrev pub has_id : String → FindingRecord → Bool
has_id k f = f.finding_id == k

pub put-IsKeyed :
    (k : String) (f : FindingRecord) (d : Dict FindingRecord)
    → f.finding_id ≡ k
    → IsKeyed d
    → IsKeyed (put k f d)
put-IsKeyed k f d e h = (All-put (λ p. p.1.finding_id ≡ p.0) k f d e h.0, put-IsDict k f d h.1)

-- The merged record is one of the two.
merge_existing_record-finding_id :
    (o : Option FindingRecord) (f r : FindingRecord)
    → ((e : FindingRecord) → o ≡ some e → e.finding_id ≡ f.finding_id)
    → merge_existing_record o f ≡ ok r
    → r.finding_id ≡ f.finding_id
unfolding merge_existing_record
merge_existing_record-finding_id none f r same h = cc
merge_existing_record-finding_id (some e) f r same h = ground (arith, same e refl)

merge_store-IsKeyed :
    (merged : Dict FindingRecord) (fs : List FindingRecord) {d : Dict FindingRecord}
    → IsKeyed merged
    → merge_store merged fs ≡ ok d
    → IsKeyed d
unfolding merge_store
merge_store-IsKeyed merged [] h e = subst (Ensures IsKeyed) e h
merge_store-IsKeyed merged (f ∷ rest) h e =
    let (r, m, later) = >>=-eq-ok (merge_existing_record (get f.finding_id merged) f) _ e in
    merge_store-IsKeyed (put f.finding_id r merged) rest
      (put-IsKeyed f.finding_id r merged
        (merge_existing_record-finding_id (get f.finding_id merged) f r
          (λ x found. All-get (λ p. p.1.finding_id ≡ p.0) f.finding_id merged h.0 found) m)
        h)
      later

-- Merging a store drops no identifier, neither of the dict nor of the store.
merge_store-contains :
    (k : String) (merged : Dict FindingRecord) (fs : List FindingRecord) {d : Dict FindingRecord}
    → merge_store merged fs ≡ ok d
    → contains k d ≡ (contains k merged || any (has_id k) fs)
unfolding merge_store
merge_store-contains k merged [] e =
    subst (Ensures (λ d. contains k d ≡ (contains k merged || false))) e (ground arith)
merge_store-contains k merged (f ∷ rest) e =
    let (r, m, later) = >>=-eq-ok (merge_existing_record (get f.finding_id merged) f) _ e in
    merge_store-contains k (put f.finding_id r merged) rest later
    ∙ ground (arith, contains-put f.finding_id k r merged)

module _ (history_store open_store : FindingsStore) {existing : Dict FindingRecord}
    (merged : merge_existing_stores history_store open_store ≡ ok existing) where
  pub merge_existing_stores-IsKeyed : IsKeyed existing
  unfolding merge_existing_stores
  merge_existing_stores-IsKeyed =
      let (first, m, later) = >>=-eq-ok (merge_store [] history_store.findings) _ merged in
      merge_store-IsKeyed first open_store.findings
        (merge_store-IsKeyed [] history_store.findings (tt, tt) m) later

  pub merge_existing_stores-contains :
      (k : String)
      → contains k existing
        ≡ (any (has_id k) history_store.findings || any (has_id k) open_store.findings)
  unfolding merge_existing_stores contains
  merge_existing_stores-contains k =
      let (first, m, later) = >>=-eq-ok (merge_store [] history_store.findings) _ merged in
      merge_store-contains k first open_store.findings later
      ∙ ap (λ b. b || any (has_id k) open_store.findings)
          (merge_store-contains k [] history_store.findings m)

deduplicate_one-IsKeyed :
    (d : Dict FindingRecord) (f : FindingRecord) (o : Option FindingRecord)
    {next : Dict FindingRecord}
    → IsKeyed d
    → deduplicate_one d f o ≡ ok next
    → IsKeyed next
unfolding deduplicate_one
deduplicate_one-IsKeyed d f none h e =
    subst (Ensures IsKeyed) e (put-IsKeyed f.finding_id f d refl h)
deduplicate_one-IsKeyed d f (some x) {next} h e =
    subst IsKeyed (unchanged (ensure_scope_match x f) (finding_eq x f) e) h
  where
    unchanged :
        (m : Result (Unit {0})) (b : Bool) → (m >> guard b value_error >> ok d) ≡ ok next → d ≡ next
    unchanged (ok u) true q = cc
    unchanged (ok u) false q = cc
    unchanged (err x') b q = cc

module _ (host : Host) where
  deduplicate_from-IsKeyed :
      (d : Dict FindingRecord) (vs : List Value) {final : Dict FindingRecord}
      → IsKeyed d
      → deduplicate_from host d vs ≡ ok final
      → IsKeyed final
  unfolding deduplicate_from
  deduplicate_from-IsKeyed d [] h e = subst (Ensures IsKeyed) e h
  deduplicate_from-IsKeyed d (v ∷ vs) h e =
      let (f, loaded, e1) = >>=-eq-ok (load_finding host v) _ e in
      let (_, live, e2) = >>=-eq-ok (guard (is_live f.status) value_error) _ e1 in
      let (next, one, e3) = >>=-eq-ok (deduplicate_one d f (get f.finding_id d)) _ e2 in
      deduplicate_from-IsKeyed next vs (deduplicate_one-IsKeyed d f (get f.finding_id d) h one) e3

  pub deduplicate_audit_findings-IsKeyed :
      (audit_result : Fields) {final : Dict FindingRecord}
      → deduplicate_audit_findings host audit_result ≡ ok final
      → IsKeyed final
  unfolding deduplicate_audit_findings
  deduplicate_audit_findings-IsKeyed audit_result e =
      let (vs, listed, e1) =
        >>=-eq-ok (ensure_list (or_empty (Json.get "findings" audit_result)))
          (deduplicate_from host []) e in
      deduplicate_from-IsKeyed [] vs (tt, tt) e1
