-- ===== src/Findings/Consult/Selection.antt =====
-- What `select_consult_findings` selects.
use mathlib.Core.List.{Perm}
use Prim.Native.Nat.{min}
use standards_control_plane.Prelude.{
  >>=-eq-ok, All, All-filter_self, All-mono, All-take, List, Option-cases, String, [], ap, arith,
  drop, elem, eq_iff, filter, inl, inr, length, length-take, none, ok, refl, subst, sym, take,
  take-append-drop, traverse, true, ℕ, ◌++◌, ◌==◌, ◌||◌, ◌∙◌, ◌∷◌, ◌≡◌, ◌≢◌,
}
use standards_control_plane.Order.{sorted}
use standards_control_plane.Findings.{FindingRecord, FindingsStore}
use standards_control_plane.Findings.Consult.{
  check_severity, consult_key, is_candidate, select_consult_findings, severity_rank,
  specificity_score, touches,
}
use standards_control_plane.Order.Sorted.{
  All-sorted, IsSorted, length-sorted, sorted-IsSorted, sorted-perm,
}

module _ (requested_domains : List String) (area_id : String) (request_paths : List String)
    (store : FindingsStore) where
  abbrev candidates : List FindingRecord
  candidates = filter (is_candidate requested_domains area_id request_paths) store.findings

  abbrev ranked : List FindingRecord
  ranked = sorted (consult_key requested_domains area_id request_paths) candidates

  abbrev pub IsRanked : FindingRecord → Type 0
  IsRanked f = severity_rank f.severity ≢ none

  all_checked :
      (fs : List FindingRecord)
      → All IsRanked fs
      → (ranks : List ℕ) × (traverse (check_severity requested_domains area_id request_paths) fs
          ≡ ok ranks)
  all_checked [] h = ([], refl)
  all_checked (f ∷ fs) h = elim (Option-cases (severity_rank f.severity)) [
    | inl e ↦ absurd (h.0 e)
    | inr (r, e) ↦ let (rs, es) = all_checked fs h.1 in (r ∷ rs, rw (e, es))
  ]

  -- With a known severity on every candidate the selection succeeds, whatever the limit.
  pub select_consult_findings-ranked :
      (limit : ℕ)
      → All IsRanked candidates
      → select_consult_findings requested_domains area_id request_paths store limit
        ≡ ok (take limit ranked)
  unfolding select_consult_findings
  select_consult_findings-ranked limit h = let (rs, e) = all_checked candidates h in rw e

  select_eq-ok :
      (limit : ℕ) {selected : List FindingRecord}
      → select_consult_findings requested_domains area_id request_paths store limit ≡ ok selected
      → selected ≡ take limit ranked
  unfolding select_consult_findings
  select_eq-ok limit h =
      let (_, _, e) =
        >>=-eq-ok (traverse (check_severity requested_domains area_id request_paths) candidates)
          (λ _. ok (take limit ranked)) h in
      cc

  pub select_consult_findings_best :
      (limit : ℕ) {selected : List FindingRecord}
      → select_consult_findings requested_domains area_id request_paths store limit ≡ ok selected
      → (dropped : List FindingRecord) × Perm (selected ++ dropped) candidates
        × IsSorted (consult_key requested_domains area_id request_paths) (selected ++ dropped)
        × (length selected ≡ min limit (length candidates))
  select_consult_findings_best limit {selected} h =
      let key = consult_key requested_domains area_id request_paths in
      let e = select_eq-ok limit h in
      let whole = ap (λ l. l ++ drop limit ranked) e ∙ take-append-drop limit ranked in
      (
        drop limit ranked,
        subst (λ l. Perm l candidates) (sym whole) (sorted-perm key candidates),
        subst (IsSorted key) (sym whole) (sorted-IsSorted key candidates),
        ap length e ∙ length-take limit ranked ∙ ap (min limit) (length-sorted key candidates),
      )

  -- Every selected finding is open, and is of a requested domain, of the requested area, or
  -- touches a requested path.
  pub select_consult_findings_relevant :
      (limit : ℕ) {selected : List FindingRecord}
      → select_consult_findings requested_domains area_id request_paths store limit ≡ ok selected
      → All
          (λ f.
            (f.status ≡ "open")
            × ((elem f.domain requested_domains
                  || (f.area_id == area_id || touches requested_domains area_id request_paths f))
                ≡ true))
          selected
  unfolding specificity_score
  select_consult_findings_relevant limit h = subst (All _) (sym (select_eq-ok limit h)) (
      All-take _ limit ranked (
        All-sorted (consult_key requested_domains area_id request_paths) _ candidates (
          All-mono (λ f. is_candidate requested_domains area_id request_paths f ≡ true) _ candidates
            (λ f c. ground (arith, eq_iff f.status "open"))
            (All-filter_self (is_candidate requested_domains area_id request_paths)
              store.findings))))
