-- ===== src/Findings/RoundTrip.antt =====
-- A store that is written and read again is the same store.
use standards_control_plane.Prelude.{
  ==-false, All, List, Option, String, [], arith, eq_refl, map, none, ok, refl, some, traverse,
  true, ◌∷◌, ◌≡◌, ◌≢◌,
}
use standards_control_plane.Json.{
  Fields, ensure_string-str, ensure_string_list-strs, get, of_list, str, string_item, text_of,
  to_list,
}
use standards_control_plane.Paths.{Location, resolve_repo_path}
use standards_control_plane.Findings.{
  EvidenceRecord, FindingRecord, FindingsStore, evidence_to_dict, finding_sort_key, finding_to_dict,
  optional, store_to_dict,
}
use standards_control_plane.Confidence.{classify_confidence}
use standards_control_plane.Order.Sorted.{IsSorted, sorted-of_IsSorted}
use standards_control_plane.Findings.Load.{Host, load_evidence, load_finding, load_findings_store}

module _ (host : Host) where
  -- What a loader checks of a record beyond its shape.
  pub record IsEvidence (e : EvidenceRecord) : Type 0 where
    pub path : e.path ≢ ""
    pub evidence_class : e.evidence_class ≢ ""
    pub place : Location
    pub found : resolve_repo_path host.files e.path ≡ ok place

  string_item-str :
      (k : String) (s : String) (fs : Fields)
      → get k fs ≡ some (str s)
      → s ≢ ""
      → string_item k fs ≡ ok s
  unfolding string_item
  string_item-str k s fs h n = rw h (ensure_string-str s n)

  load_evidence-to_dict :
      (e : EvidenceRecord) → IsEvidence e → load_evidence host (evidence_to_dict e) ≡ ok e
  unfolding load_evidence evidence_to_dict
  load_evidence-to_dict e v =
      ground (arith, ==-false e.path "" v.path, ==-false e.evidence_class "" v.evidence_class)

  load_evidence_all :
      (es : List EvidenceRecord)
      → All IsEvidence es
      → traverse (load_evidence host) (to_list (of_list (map evidence_to_dict es))) ≡ ok es
  load_evidence_all [] h = refl
  load_evidence_all (e ∷ es) h = rw (load_evidence-to_dict e h.0, load_evidence_all es h.1)

  pub record IsFinding (f : FindingRecord) : Type 0 where
    pub accepted : host.accepts "finding.schema.json" (finding_to_dict f) ≡ true
    pub classified : classify_confidence f.confidence ≡ ok f.confidence_class
    pub evidence : All IsEvidence f.evidence
    pub finding_id : f.finding_id ≢ ""
    pub domain : f.domain ≢ ""
    pub severity : f.severity ≢ ""
    pub status : f.status ≢ ""
    pub title : f.title ≢ ""
    pub summary : f.summary ≢ ""
    pub area_id : f.area_id ≢ ""
    pub confidence_class : f.confidence_class ≢ ""
    pub detected_by : f.detected_by ≢ ""
    pub standards_version : f.standards_version ≢ ""
    pub created_at : f.created_at ≢ ""
    pub updated_at : f.updated_at ≢ ""

  rule_id-optional : (r : Option String) → text_of (get "rule_id" (optional "rule_id" r)) ≡ r
  unfolding get
  rule_id-optional none = refl
  rule_id-optional (some s) = refl

  load_finding-to_dict :
      (f : FindingRecord) → IsFinding f → load_finding host (finding_to_dict f) ≡ ok f
  unfolding load_finding finding_to_dict
  load_finding-to_dict f v = rw (
    v.accepted,
    ==-false f.finding_id "" v.finding_id,
    ==-false f.domain "" v.domain,
    ==-false f.severity "" v.severity,
    ==-false f.status "" v.status,
    ==-false f.title "" v.title,
    ==-false f.summary "" v.summary,
    ==-false f.area_id "" v.area_id,
    ==-false f.confidence_class "" v.confidence_class,
    ==-false f.detected_by "" v.detected_by,
    ==-false f.standards_version "" v.standards_version,
    ==-false f.created_at "" v.created_at,
    ==-false f.updated_at "" v.updated_at,
    v.classified,
    eq_refl f.confidence_class,
    load_evidence_all f.evidence v.evidence,
    ensure_string_list-strs f.suggested_remediation,
    rule_id-optional f.rule_id,
  )

  load_finding_all :
      (fs : List FindingRecord)
      → All IsFinding fs
      → traverse (load_finding host) (to_list (of_list (map finding_to_dict fs))) ≡ ok fs
  load_finding_all [] h = refl
  load_finding_all (f ∷ fs) h = rw (load_finding-to_dict f h.0, load_finding_all fs h.1)

  -- A store that `load_findings_store` accepts as it stands.
  pub record IsStore (s : FindingsStore) : Type 0 where
    pub accepted : host.accepts "findings-store.schema.json" (store_to_dict s) ≡ true
    pub findings : All IsFinding s.findings
    pub in_order : IsSorted finding_sort_key s.findings
    pub store_version : s.store_version ≢ ""
    pub generated_at : s.generated_at ≢ ""

  -- Reading the JSON of a store gives the store back.
  pub load_findings_store-to_dict :
      (s : FindingsStore) → IsStore s → load_findings_store host (store_to_dict s) ≡ ok s
  unfolding load_findings_store store_to_dict
  load_findings_store-to_dict s v = rw (
    v.accepted,
    ==-false s.store_version "" v.store_version,
    ==-false s.generated_at "" v.generated_at,
    load_finding_all s.findings v.findings,
    sorted-of_IsSorted finding_sort_key s.findings v.in_order,
  )
