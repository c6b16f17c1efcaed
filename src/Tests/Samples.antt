-- ===== src/Tests/Samples.antt =====
-- Inputs that the tests share: a repository in which every path exists, a validator that accepts
-- everything, findings, stores and an audit result.
use standards_control_plane.Prelude.{Result, String, [], err, none, ok, some, true, ◌∷◌}
use standards_control_plane.Prelude.Int.{pos}
use standards_control_plane.Json.{Fields, Value, arr, cons, end, field, nil, obj, str}
use standards_control_plane.Paths.{Files}
use standards_control_plane.Findings.{EvidenceRecord, FindingRecord, FindingsStore, finding_to_dict}
use standards_control_plane.Findings.Load.{Host}

abbrev pub files : Files
files = record { project_root = "repo" ∷ "srv" ∷ []; exists = λ place. true }

abbrev pub host : Host
host = record { files = files; accepts = λ name value. true }

abbrev pub evidence : EvidenceRecord
evidence = record {
  path = "src/app.py";
  evidence_class = "direct_file";
  locator = some "line 3";
  snippet_ref = none;
}

abbrev pub finding : String → String → String → String → FindingRecord
finding finding_id severity status updated_at = record {
  finding_id = finding_id;
  domain = "architecture";
  severity = severity;
  status = status;
  title = "Layering";
  summary = "The layers are mixed.";
  evidence = evidence ∷ [];
  area_id = "orders-core";
  suggested_remediation = "Split the module." ∷ [];
  confidence = pos 9600;
  confidence_class = "high";
  detected_by = "architecture-evaluator";
  standards_version = "2026-04-11";
  created_at = "2026-04-11T00:00:00Z";
  updated_at = updated_at;
  rule_id = some "ARCH-001";
}

abbrev pub first_finding : FindingRecord
first_finding = finding "F-1" "high" "open" "2026-04-11T00:00:00Z"

abbrev pub second_finding : FindingRecord
second_finding = finding "F-2" "low" "open" "2026-04-11T00:00:00Z"

abbrev pub store : FindingsStore
store = record {
  store_version = "0.1.0";
  generated_at = "2026-04-11T00:00:00Z";
  findings = first_finding ∷ second_finding ∷ [];
}

-- An audit of the area that still reports the first finding.
abbrev pub audit_payload : Fields
audit_payload = field "generated_at" (str "2026-05-01T00:00:00Z") (
    field "scope" (obj (field "area_id" (str "orders-core") end)) (
      field "domain_status"
        (obj (field "architecture" (obj (field "status" (str "evaluated") end)) end))
        (field "findings" (arr (cons (finding_to_dict first_finding) nil)) end)))

abbrev pub audit_result : Value
audit_result = obj audit_payload

abbrev pub value_of {ℓ} : {A : Type ℓ} → A → Result A → A
value_of d (ok a) = a
value_of d (err e) = d
