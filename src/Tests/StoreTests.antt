-- ===== src/Tests/StoreTests.antt =====
-- A store that is written and read at a small input.
use standards_control_plane.Confidence.{classify_confidence}
use standards_control_plane.Findings.{FindingsStore, store_to_dict}
use standards_control_plane.Findings.Load.{load_findings_store}
use standards_control_plane.Findings.RoundTrip.{IsFinding, IsStore, load_findings_store-to_dict}
use standards_control_plane.Tests.Samples.{first_finding, host, store}
use standards_control_plane.Tests.FindingsTests.{evidence-IsEvidence}
use standards_control_plane.Prelude.{==-false→ne, [], ok, refl, ◌∷◌, ◌≡◌}

first-IsFinding : IsFinding host first_finding
unfolding classify_confidence
first-IsFinding = record {
  accepted = refl;
  classified = refl;
  evidence = (evidence-IsEvidence, tt);
  finding_id = ==-false→ne refl;
  domain = ==-false→ne refl;
  severity = ==-false→ne refl;
  status = ==-false→ne refl;
  title = ==-false→ne refl;
  summary = ==-false→ne refl;
  area_id = ==-false→ne refl;
  confidence_class = ==-false→ne refl;
  detected_by = ==-false→ne refl;
  standards_version = ==-false→ne refl;
  created_at = ==-false→ne refl;
  updated_at = ==-false→ne refl;
}

abbrev one : FindingsStore
one = record store { findings = first_finding ∷ [] }

one-IsStore : IsStore host one
one-IsStore = record {
  accepted = refl;
  findings = (first-IsFinding, tt);
  in_order = (tt, tt);
  store_version = ==-false→ne refl;
  generated_at = ==-false→ne refl;
}

load_findings_store-to_dict_example : load_findings_store host (store_to_dict one) ≡ ok one
load_findings_store-to_dict_example = load_findings_store-to_dict host one one-IsStore
