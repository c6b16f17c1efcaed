-- ===== src/Tests/PersistTests.antt =====
-- Persisting an audit and quoting reviews at small inputs.
use standards_control_plane.Prelude.{
  Bool, List, String, [], false, map, none, ok, refl, some, true, ◌∷◌, ◌≡◌,
}
use standards_control_plane.Prelude.Int.{pos}
use standards_control_plane.Order.{insert, sorted}
use standards_control_plane.Paths.{paths_overlap}
use standards_control_plane.Findings.{store_to_dict}
use standards_control_plane.Findings.Write.{Faults}
use standards_control_plane.Findings.Write.Atomic.{plain}
use standards_control_plane.Findings.Persist.{persist_audit_findings}
use standards_control_plane.Findings.Persist.Laws.{IsAtomic, persist_audit_findings-IsAtomic}
use standards_control_plane.ReviewEvidence.{
  ReviewEvidenceRecord, ReviewHost, select_historical_reviews,
}
use standards_control_plane.Tests.Samples.{audit_result, files, host, store, value_of}

abbrev faults : Bool → Faults
faults commit_history = record {
  commit_open = false;
  commit_history = commit_history;
  restore_open = false;
  restore_history = false;
}

persist_audit_findings-IsAtomic_example : IsAtomic (some (store_to_dict store)) none (
    persist_audit_findings host
      (faults false)
      audit_result
      (plain (some (store_to_dict store)) none))
persist_audit_findings-IsAtomic_example =
    persist_audit_findings-IsAtomic host (faults false) (some (store_to_dict store)) none
      audit_result refl refl

abbrev review : String → String → String → ReviewEvidenceRecord
review review_id area_id path = record {
  review_id = review_id;
  area_id = area_id;
  reviewed_at = "2026-04-01";
  summary = "Looked at.";
  reviewed_paths = path ∷ [];
  findings = [];
  source_path = "docs/reviews/review_findings.md";
}

abbrev reviews : List ReviewEvidenceRecord
reviews =
    review "R-1" "billing" "src/app.py"
    ∷ review "R-2" "orders-core" "src/other.py"
    ∷ review "R-3" "billing" "src/bill.py"
    ∷ []

abbrev review_host : ReviewHost
review_host = record {
  files = files;
  accepts = λ name value. true;
  review_block = λ place. ok none;
  timestamp = λ s. ok (pos 1);
}

abbrev quoted : List ReviewEvidenceRecord
quoted =
    value_of [] (select_historical_reviews review_host "orders-core" ("src/app.py" ∷ []) reviews 3)

-- The review of the area comes before the one of the path.
order-sample : map (λ (r : ReviewEvidenceRecord). r.review_id) quoted ≡ "R-2" ∷ "R-1" ∷ []
unfolding select_historical_reviews paths_overlap insert sorted
order-sample = refl
