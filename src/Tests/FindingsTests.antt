-- ===== src/Tests/FindingsTests.antt =====
-- The findings store at small inputs.
use standards_control_plane.Findings.Reconcile.Distinct.{IsDistinct}
use standards_control_plane.Findings.Reconcile.Inputs.{has_id}
use standards_control_plane.Findings.Reconcile.Again.{reconcile_records_again}
use standards_control_plane.Prelude.{
  ==-false→ne, All, [], any, filter, map, none, ok, refl, some, true, ◌==◌, ◌∷◌, ◌≡◌,
}
use standards_control_plane.Order.{sorted}
use standards_control_plane.Order.Sorted.{IsSorted}
use standards_control_plane.Dict.{Dict, IsDict, contains, get, put, update}
use standards_control_plane.Paths.{resolve_repo_path}
use standards_control_plane.Confidence.{classify_confidence}
use standards_control_plane.Findings.{
  FindingRecord, FindingsStore, finding_sort_key, finding_to_dict, store_to_dict,
}
use standards_control_plane.Findings.Load.{load_evidence, load_finding}
use standards_control_plane.Findings.RoundTrip.{IsEvidence}
use standards_control_plane.Findings.Merge.{merge_records}
use standards_control_plane.Findings.Merge.Laws.{merge_records_comm}
use standards_control_plane.Findings.Reconcile.{
  clone_finding, reconcile_findings, reconcile_records,
}
use standards_control_plane.Findings.Reconcile.Stores.{
  IsOutcome, reconcile_findings-IsOutcome, reconcile_findings_keeps, reconcile_findings_stores,
}
use standards_control_plane.Tests.Samples.{
  audit_result, evidence, first_finding, host, second_finding, store, value_of,
}

-- What the tests below compute with.
program : Unit {0}
unfolding reconcile_findings load_finding load_evidence finding_to_dict store_to_dict sorted put get
    contains update reconcile_records resolve_repo_path classify_confidence clone_finding
program = tt

pub evidence-IsEvidence : IsEvidence host evidence
unfolding program
evidence-IsEvidence = record {
  path = ==-false→ne refl;
  evidence_class = ==-false→ne refl;
  place = "app.py" ∷ "src" ∷ "repo" ∷ "srv" ∷ [];
  found = refl;
}

abbrev pub stores : FindingsStore × FindingsStore
stores = value_of (store, store) (reconcile_findings host audit_result none (some store))

pub reconciled-sample : reconcile_findings host audit_result none (some store) ≡ ok stores
unfolding program
reconciled-sample = refl

-- The second finding is no longer reported and is resolved.
statuses-sample : map (λ (f : FindingRecord). f.status) stores.1.findings ≡ "open" ∷ "resolved" ∷ []
unfolding program
statuses-sample = refl

merge_records_comm_example :
    merge_records first_finding second_finding ≡ merge_records second_finding first_finding
merge_records_comm_example = merge_records_comm first_finding second_finding

reconcile_findings_stores_example :
    IsSorted finding_sort_key stores.1.findings
    × IsDistinct stores.1.findings
    × (stores.0.findings ≡ filter (λ f. f.status == "open") stores.1.findings)
    × (stores.0.store_version ≡ stores.1.store_version)
    × (stores.0.generated_at ≡ stores.1.generated_at)
reconcile_findings_stores_example =
    reconcile_findings_stores host audit_result none (some store) reconciled-sample

reconcile_findings-IsOutcome_example :
    All (IsOutcome host audit_result none (some store) reconciled-sample) stores.1.findings
reconcile_findings-IsOutcome_example =
    reconcile_findings-IsOutcome host audit_result none (some store) reconciled-sample

reconcile_findings_keeps_example : any (has_id "F-2") stores.1.findings ≡ true
reconcile_findings_keeps_example =
    reconcile_findings_keeps host audit_result none (some store) reconciled-sample "F-2" refl

abbrev reported : Dict FindingRecord
reported = ("F-1", first_finding) ∷ []

abbrev stored : Dict FindingRecord
stored = ("F-2", second_finding) ∷ []

abbrev kept : Dict FindingRecord
kept =
    value_of [] (reconcile_records "2026-05-01" "orders-core" ("architecture" ∷ []) reported stored)

kept-sample :
    reconcile_records "2026-05-01" "orders-core" ("architecture" ∷ []) reported stored ≡ ok kept
unfolding program
kept-sample = refl

reported-IsDict : IsDict reported
unfolding contains
reported-IsDict = (refl, tt)

stored-IsDict : IsDict stored
unfolding contains
stored-IsDict = (refl, tt)

reconcile_records_again_example :
    reconcile_records "2026-05-01" "orders-core" ("architecture" ∷ []) reported kept ≡ ok kept
reconcile_records_again_example =
    reconcile_records_again "2026-05-01" "orders-core" ("architecture" ∷ []) reported stored
      reported-IsDict stored-IsDict kept-sample
