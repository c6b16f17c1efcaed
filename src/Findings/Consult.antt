-- ===== src/Findings/Consult.antt =====
-- `select_consult_findings` of findings.py.
pub mod Selection
pub mod Complete
use standards_control_plane.Prelude.{
  Bool, List, Option, Result, String, [], any, elem, filter, if◌then◌else◌, key_error, ltb, none,
  ok, or_raise, some, take, traverse, ℕ, ◌&&◌, ◌+◌, ◌==◌, ◌>>◌, ◌||◌, ◌∷◌,
}
use standards_control_plane.Prelude.Int.{neg, pos}
use standards_control_plane.Order.{Key, int, sorted, text}
use standards_control_plane.Paths.{paths_overlap}
use standards_control_plane.Findings.{FindingRecord, FindingsStore}

-- `SEVERITY_RANK`
unfoldable pub severity_rank : String → Option ℕ
severity_rank severity =
    if severity == "critical"
    then some 4
    else if severity == "high"
    then some 3
    else if severity == "medium"
    then some 2
    else if severity == "low"
    then some 1
    else none

module _ (requested_domains : List String) (area_id : String) (request_paths : List String) where
  abbrev pub touches : FindingRecord → Bool
  touches finding =
      any (λ e. any (λ request_path. paths_overlap e.path request_path) request_paths)
        finding.evidence

  -- `specificity_score`
  unfoldable pub specificity_score : FindingRecord → ℕ
  specificity_score finding =
      (if finding.area_id == area_id then 2 else 0) + (if touches finding then 1 else 0)

  abbrev pub is_candidate : FindingRecord → Bool
  is_candidate finding =
      finding.status == "open"
      && (elem finding.domain requested_domains || ltb 0 (specificity_score finding))

  abbrev pub rank_or_zero : Option ℕ → ℕ
  rank_or_zero none = 0
  rank_or_zero (some n) = n

  -- The sort key, once the severity is known.
  abbrev pub consult_key : FindingRecord → Key
  consult_key finding =
      int (neg (specificity_score finding))
      ∷ int (if elem finding.domain requested_domains then pos 0 else pos 1)
      ∷ int (neg (rank_or_zero (severity_rank finding.severity)))
      ∷ text finding.finding_id
      ∷ []

  -- Python computes every key before it sorts, and an unknown severity raises there.
  abbrev pub check_severity : FindingRecord → Result ℕ
  check_severity finding = or_raise key_error (severity_rank finding.severity)

  -- `select_consult_findings`
  unfoldable pub select_consult_findings : FindingsStore → ℕ → Result (List FindingRecord)
  unfolding specificity_score severity_rank
  select_consult_findings store limit =
      let candidates = filter is_candidate store.findings in
      traverse check_severity candidates >> ok (take limit (sorted consult_key candidates))
