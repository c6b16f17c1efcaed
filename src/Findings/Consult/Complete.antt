-- ===== src/Findings/Consult/Complete.antt =====
-- When `select_consult_findings` returns, and what it returns then, by a description of which
-- findings matter to a request and which of them come first.
use standards_control_plane.Prelude.{
  All, All-mono, Bool, List, String, [], any, ap, elem, false, filter, if◌then◌else◌, inl, inr,
  length, ltb, none, ok, refl, some, subst, sym, take, true, ℕ, ◌&&◌, ◌++◌, ◌+◌, ◌==◌, ◌||◌, ◌∷◌,
  ◌≡◌, ◌≢◌,
}
use mathlib.Core.List.{Perm}
use Prim.Native.Nat.{min}
use standards_control_plane.Prelude.Int.{neg, pos}
use standards_control_plane.Order.{Key, int, sorted, text}
use standards_control_plane.Order.Sorted.{IsSorted}
use standards_control_plane.Paths.{paths_overlap}
use standards_control_plane.Findings.{EvidenceRecord, FindingRecord, FindingsStore}
use standards_control_plane.Scoring.Laws.{one_severity}
use standards_control_plane.Findings.Consult.{
  consult_key, is_candidate, rank_or_zero, select_consult_findings, severity_rank,
  specificity_score,
}
use standards_control_plane.Findings.Consult.Selection.{
  select_consult_findings_best, select_consult_findings-ranked,
}

abbrev pub is_known : String → Bool
is_known severity = elem severity ("critical" ∷ "high" ∷ "medium" ∷ "low" ∷ [])

-- How much a severity weighs.
abbrev pub weight : String → ℕ
weight severity =
    if severity == "critical"
    then 4
    else if severity == "high"
    then 3
    else if severity == "medium"
    then 2
    else if severity == "low"
    then 1
    else 0

known-ranked : (severity : String) → is_known severity ≡ true → severity_rank severity ≢ none
unfolding severity_rank
known-ranked s h e = elim (one_severity s h) [
  | inl q ↦ cc (rw q at e)
  | inr (inl q) ↦ cc (rw q at e)
  | inr (inr (inl q)) ↦ cc (rw q at e)
  | inr (inr (inr q)) ↦ cc (rw q at e)
]

module _ (requested_domains : List String) (area_id : String) (request_paths : List String) where
  -- Some evidence stands at a requested path.
  abbrev pub is_at_path : FindingRecord → Bool
  is_at_path f =
      any (λ (e : EvidenceRecord). any (λ p. paths_overlap e.path p) request_paths) f.evidence

  -- An open finding of a requested domain, of the area, or at a requested path.
  abbrev pub is_relevant : FindingRecord → Bool
  is_relevant f =
      f.status == "open"
      && (elem f.domain requested_domains || (f.area_id == area_id || is_at_path f))

  -- The area counts before the paths, these before the domain, then severity and identifier.
  abbrev pub precedence : FindingRecord → Key
  precedence f =
      int (neg ((if f.area_id == area_id then 2 else 0) + (if is_at_path f then 1 else 0)))
      ∷ int (if elem f.domain requested_domains then pos 0 else pos 1)
      ∷ int (neg (weight f.severity))
      ∷ text f.finding_id
      ∷ []

  rank-weight :
      (severity : String)
      → rank_or_zero requested_domains area_id request_paths (severity_rank severity)
        ≡ weight severity
  unfolding severity_rank
  rank-weight s = of_tests (s == "critical") (s == "high") (s == "medium") (s == "low")
    where
      of_tests :
          (a b c d : Bool)
          → rank_or_zero requested_domains area_id request_paths (
              if a
              then some 4
              else if b
              then some 3
              else if c
              then some 2
              else if d
              then some 1
              else none)
            ≡ (if a then 4 else if b then 3 else if c then 2 else if d then 1 else 0)
      of_tests true b c d = refl
      of_tests false true c d = refl
      of_tests false false true d = refl
      of_tests false false false true = refl
      of_tests false false false false = refl

  candidate-relevant :
      (f : FindingRecord) → is_candidate requested_domains area_id request_paths f ≡ is_relevant f
  unfolding specificity_score
  candidate-relevant f =
      of_score (f.area_id == area_id) (is_at_path f) (f.status == "open")
        (elem f.domain requested_domains)
    where
      of_score :
          (a t b d : Bool)
          → (b && (d || ltb 0 ((if a then 2 else 0) + (if t then 1 else 0))))
            ≡ (b && (d || (a || t)))
      of_score true true b d = refl
      of_score true false b d = refl
      of_score false true b d = refl
      of_score false false b d = refl

  key-precedence :
      (f : FindingRecord) → consult_key requested_domains area_id request_paths f ≡ precedence f
  unfolding specificity_score
  key-precedence f =
      ap
        (λ n.
          int (neg ((if f.area_id == area_id then 2 else 0) + (if is_at_path f then 1 else 0)))
          ∷ int (if elem f.domain requested_domains then pos 0 else pos 1)
          ∷ int (neg n)
          ∷ text f.finding_id
          ∷ [])
        (rank-weight f.severity)

  -- If every finding that is relevant to the request has one of the four severities, the selection
  -- returns. What it selects and what it drops are together the relevant findings, in the order of
  -- precedence, and it selects as many as the limit and their number allow.
  pub select_consult_findings_total :
      (store : FindingsStore) (limit : ℕ)
      → All (λ (f : FindingRecord). is_known f.severity ≡ true) (filter is_relevant store.findings)
      → (selected dropped : List FindingRecord) × (select_consult_findings requested_domains area_id
            request_paths store limit
          ≡ ok selected)
        × Perm (selected ++ dropped) (filter is_relevant store.findings)
        × IsSorted precedence (selected ++ dropped)
        × (length selected ≡ min limit (length (filter is_relevant store.findings)))
  select_consult_findings_total store limit known =
      let candidates =
        filter (is_candidate requested_domains area_id request_paths) store.findings in
      let same : candidates ≡ filter is_relevant store.findings =
        λ i. filter (λ f. candidate-relevant f i) store.findings in
      let keys : consult_key requested_domains area_id request_paths ≡ precedence =
        λ i f. key-precedence f i in
      let ranked = subst (All (λ (f : FindingRecord). severity_rank f.severity ≢ none)) (sym same) (
        All-mono _ _ (filter is_relevant store.findings)
          (λ (f : FindingRecord) k. known-ranked f.severity k) known) in
      let selected =
        take limit (sorted (consult_key requested_domains area_id request_paths) candidates) in
      let returns =
        select_consult_findings-ranked requested_domains area_id request_paths store limit ranked in
      let (dropped, whole, in_order, count) =
        select_consult_findings_best requested_domains area_id request_paths store limit returns in
      (
        selected,
        dropped,
        returns,
        subst (Perm (selected ++ dropped)) same whole,
        subst (λ k. IsSorted k (selected ++ dropped)) keys in_order,
        subst (λ l. length selected ≡ min limit (length l)) same count,
      )
