-- ===== src/Scoring.antt =====
-- scoring.py: the score of a list of findings.
pub mod Laws
use standards_control_plane.Prelude.{
  List, Option, Result, String, [], elem, if◌then◌else◌, key_error, none, ok, or_raise, some, ℕ,
  ◌+◌, ◌-◌, ◌==◌, ◌>>=◌, ◌>>◌, ◌∷◌,
}
use standards_control_plane.Findings.{FindingRecord}

-- `SEVERITY_DEDUCTIONS`
unfoldable pub severity_deductions : String → Option ℕ
severity_deductions severity =
    if severity == "critical"
    then some 40
    else if severity == "high"
    then some 30
    else if severity == "medium"
    then some 15
    else if severity == "low"
    then some 5
    else none

abbrev pub non_penalty_statuses : List String
non_penalty_statuses = "accepted" ∷ "false_positive" ∷ "resolved" ∷ "superseded" ∷ "waived" ∷ []

unfoldable pub finding_penalty : FindingRecord → Result ℕ
unfolding severity_deductions
finding_penalty finding =
    if elem finding.status non_penalty_statuses
    then ok 0
    else or_raise key_error (severity_deductions finding.severity)

-- The loop, by what has been taken off so far: the score may fall below zero on the way.
unfoldable pub deductions_from : ℕ → List FindingRecord → Result ℕ
unfolding finding_penalty
deductions_from deducted [] = ok deducted
deductions_from deducted (finding ∷ rest) =
    finding_penalty finding >>= λ penalty. deductions_from (deducted + penalty) rest

-- `max(score, 0)` is the subtraction that stops at zero.
unfoldable pub score_findings : List FindingRecord → Result ℕ
unfolding deductions_from
score_findings findings = do deducted ← deductions_from 0 findings; ok (100 - deducted)
