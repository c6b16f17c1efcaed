-- ===== src/Findings.antt =====
-- findings.py: the findings store. The records stand here; the children model the loaders, the
-- reconciliation of an audit with the persisted stores, the selection for a consult, and the
-- replacement of the two files on disk.
pub mod Load
pub mod RoundTrip
pub mod Merge
pub mod Reconcile
pub mod Write
pub mod Consult
pub mod Persist
use standards_control_plane.Prelude.{List, Option, String, [], map, none, some, ◌∷◌}
use standards_control_plane.Prelude.Int.{ℤ}
use standards_control_plane.Order.{Key, sorted, text}
use standards_control_plane.Json.{Fields, Value, arr, decimal, end, field, obj, of_list, str, strs}

pub record EvidenceRecord : Type 0 where
  pub path : String
  pub evidence_class : String
  pub locator : Option String
  pub snippet_ref : Option String

pub record FindingRecord : Type 0 where
  pub finding_id : String
  pub domain : String
  pub severity : String
  pub status : String
  pub title : String
  pub summary : String
  pub evidence : List EvidenceRecord
  pub area_id : String
  pub suggested_remediation : List String
  pub confidence : ℤ
  pub confidence_class : String
  pub detected_by : String
  pub standards_version : String
  pub created_at : String
  pub updated_at : String
  pub rule_id : Option String

pub record FindingsStore : Type 0 where
  pub store_version : String
  pub generated_at : String
  pub findings : List FindingRecord

-- A key that is written only if the value is there.
abbrev pub optional : String → Option String → Fields
optional k none = end
optional k (some s) = field k (str s) end

abbrev pub optional_then : String → Option String → Fields → Fields
optional_then k none rest = rest
optional_then k (some s) rest = field k (str s) rest

-- `EvidenceRecord.to_dict`
unfoldable pub evidence_to_dict : EvidenceRecord → Value
evidence_to_dict e = obj (
    field "path" (str e.path) (
      field "evidence_class" (str e.evidence_class)
        (optional_then "locator" e.locator (optional "snippet_ref" e.snippet_ref))))

-- `FindingRecord.to_dict`
unfoldable pub finding_to_dict : FindingRecord → Value
unfolding evidence_to_dict
finding_to_dict f = obj (
    field "finding_id" (str f.finding_id) (
      field "domain" (str f.domain) (
        field "severity" (str f.severity) (
          field "status" (str f.status) (
            field "title" (str f.title) (
              field "summary" (str f.summary) (
                field "evidence" (arr (of_list (map evidence_to_dict f.evidence))) (
                  field "area_id" (str f.area_id) (
                    field "suggested_remediation" (strs f.suggested_remediation) (
                      field "confidence" (decimal f.confidence) (
                        field "confidence_class" (str f.confidence_class) (
                          field "detected_by" (str f.detected_by) (
                            field "standards_version" (str f.standards_version) (
                              field "created_at" (str f.created_at) (
                                field "updated_at" (str f.updated_at)
                                  (optional "rule_id" f.rule_id))))))))))))))))

-- `FindingsStore.to_dict`
unfoldable pub store_to_dict : FindingsStore → Value
unfolding finding_to_dict
store_to_dict s = obj (
    field "store_version" (str s.store_version) (
      field "generated_at" (str s.generated_at)
        (field "findings" (arr (of_list (map finding_to_dict s.findings))) end)))

-- `_finding_sort_key`
abbrev pub finding_sort_key : FindingRecord → Key
finding_sort_key f = text f.domain ∷ text f.area_id ∷ text f.finding_id ∷ []

-- `_sorted_findings`
abbrev pub sorted_findings : List FindingRecord → List FindingRecord
sorted_findings = sorted finding_sort_key
