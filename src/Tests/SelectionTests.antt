-- ===== src/Tests/SelectionTests.antt =====
-- The consult selection, scores, waivers and lists without repetitions at small inputs.
use standards_control_plane.Findings.Consult.Complete.{
  is_known, is_relevant, precedence, select_consult_findings_total,
}
use mathlib.Core.List.{Perm}
use Prim.Native.Nat.{min}
use standards_control_plane.Dict.{Dict, get, put}
use standards_control_plane.Paths.{paths_overlap}
use standards_control_plane.Findings.{FindingRecord}
use standards_control_plane.Findings.Consult.{
  is_candidate, select_consult_findings, specificity_score,
}
use standards_control_plane.Order.Sorted.{IsSorted}
use standards_control_plane.Scoring.{score_findings}
use standards_control_plane.Scoring.Laws.{
  deduction, score_findings-deduction, score_findings-waive, waive,
}
use standards_control_plane.Waivers.{WaiverRecord, select_active_waivers}
use standards_control_plane.Waivers.Active.{first, holds, select_active_waivers-get}
use standards_control_plane.Tests.Samples.{first_finding, second_finding, store}
use standards_control_plane.Prelude.{
  All, Bool, List, Result, String, [], count_by, filter, if◌then◌else◌, length, map, ok, refl, true,
  ℕ, ◌++◌, ◌-◌, ◌==◌, ◌∷◌, ◌≡◌, ◌≤◌,
}

abbrev domains : List String
domains = "architecture" ∷ []

abbrev paths : List String
paths = "src/app.py" ∷ []

abbrev chosen : List FindingRecord
chosen = first_finding ∷ []

both_candidates :
    filter (is_candidate domains "orders-core" paths) store.findings
    ≡ first_finding ∷ second_finding ∷ []
unfolding specificity_score
both_candidates = refl

known-sample :
    All
      (λ (f : FindingRecord). is_known f.severity ≡ true)
      (filter (is_relevant domains "orders-core" paths) store.findings)
unfolding paths_overlap
known-sample = (refl, (refl, tt))

select_consult_findings_total_example :
    (selected dropped : List FindingRecord) × (select_consult_findings domains "orders-core" paths
        store 1
      ≡ ok selected)
    × Perm (selected ++ dropped) (filter (is_relevant domains "orders-core" paths) store.findings)
    × IsSorted (precedence domains "orders-core" paths) (selected ++ dropped)
    × (length selected
        ≡ min 1 (length (filter (is_relevant domains "orders-core" paths) store.findings)))
select_consult_findings_total_example =
    select_consult_findings_total domains "orders-core" paths store 1 known-sample

abbrev two : List FindingRecord
two = first_finding ∷ second_finding ∷ []

abbrev is_first : FindingRecord → Bool
is_first f = f.finding_id == "F-1"

score_findings-deduction_example : score_findings two ≡ ok (100 - deduction two)
score_findings-deduction_example = score_findings-deduction two (refl, (refl, tt))

before-sample : score_findings two ≡ ok 65
unfolding score_findings
before-sample = refl

after-sample : score_findings (map (waive is_first) two) ≡ ok 95
unfolding score_findings
after-sample = refl

score_findings-waive_example : 65 ≤ 95
score_findings-waive_example =
    score_findings-waive is_first two 65 95 (refl, (refl, tt)) before-sample after-sample

-- Times are counted by the length of their text.
abbrev parse_length : String → Result ℕ
parse_length s = ok (if s == "early" then 1 else if s == "now" then 2 else 3)

abbrev waiver : String → String → WaiverRecord
waiver waiver_id expires_at = record {
  waiver_id = waiver_id;
  finding_id = "F-1";
  reason = "Migration planned.";
  approved_by = "owner";
  expires_at = expires_at;
  created_at = "early";
}

abbrev waivers : List WaiverRecord
waivers = waiver "W-1" "early" ∷ waiver "W-2" "late" ∷ []

abbrev active : Dict WaiverRecord
active = ("F-1", waiver "W-2" "late") ∷ []

active-sample : select_active_waivers parse_length waivers "now" ≡ ok active
unfolding select_active_waivers get put
active-sample = refl

select_active_waivers-get_example :
    (get "F-1" active ≡ first (holds parse_length 2 "F-1") waivers)
    × (count_by (holds parse_length 2 "F-1") waivers ≤ 1)
select_active_waivers-get_example =
    select_active_waivers-get parse_length waivers "now" 2 refl active-sample "F-1"

abbrev repeated : List String
repeated = "a" ∷ "b" ∷ "a" ∷ []
