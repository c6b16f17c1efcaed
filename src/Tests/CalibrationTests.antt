-- ===== src/Tests/CalibrationTests.antt =====
-- False positives of a small history.
use standards_control_plane.Prelude.{[], map, ok, refl, true, ◌∷◌, ◌≡◌}
use standards_control_plane.Order.{insert, sorted}
use standards_control_plane.Json.{Schemas}
use standards_control_plane.Findings.{FindingRecord, FindingsStore}
use standards_control_plane.Calibration.{
  FalsePositiveSummary, RuleSummary, build_false_positive_summary, summary_of,
}
use standards_control_plane.Calibration.Counts.{
  IsCalibrated, build_false_positive_summary-IsCalibrated,
}
use standards_control_plane.Tests.Samples.{finding, first_finding, store, value_of}

abbrev history : FindingsStore
history = record store {
  findings =
      finding "F-3" "low" "false_positive" "2026-04-12T00:00:00Z"
      ∷ first_finding
      ∷ finding "F-4" "high" "false_positive" "2026-04-13T00:00:00Z"
      ∷ [];
}

abbrev all_valid : Schemas
all_valid name value = true

abbrev summary : FalsePositiveSummary
summary = value_of (summary_of history) (build_false_positive_summary all_valid history)

summary-sample : build_false_positive_summary all_valid history ≡ ok summary
unfolding build_false_positive_summary
summary-sample = refl

-- One rule has both, the later one is shown first.
rows-sample : map (λ (r : RuleSummary). r.total) summary.by_rule ≡ 2 ∷ []
unfolding build_false_positive_summary insert sorted
rows-sample = refl

recent-sample :
    map (λ (f : FindingRecord). f.finding_id) summary.recent_false_positives ≡ "F-4" ∷ "F-3" ∷ []
unfolding build_false_positive_summary insert sorted
recent-sample = refl

build_false_positive_summary-IsCalibrated_example : IsCalibrated history summary
build_false_positive_summary-IsCalibrated_example =
    build_false_positive_summary-IsCalibrated history all_valid summary-sample
