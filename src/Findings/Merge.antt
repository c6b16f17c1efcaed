-- ===== src/Findings/Merge.antt =====
-- The persisted records of findings.py, put together under one identifier each.
pub mod Laws
use standards_control_plane.Prelude.{
  Bool, List, Option, Result, String, [], err, false, if◌then◌else◌, none, not, ok, some, true,
  value_error, ◌&&◌, ◌==◌, ◌>>=◌, ◌>>◌, ◌||◌, ◌∷◌,
}
use standards_control_plane.Prelude.Int.{leb_ℤ, ℤ}
use standards_control_plane.Order.{leb_text}
use standards_control_plane.Dict.{Dict, get, put}
use standards_control_plane.Findings.{EvidenceRecord, FindingRecord, FindingsStore}

option_eq : Option String → Option String → Bool
option_eq none none = true
option_eq (some s) (some t) = s == t
option_eq _ _ = false

texts_eq : List String → List String → Bool
texts_eq [] [] = true
texts_eq (s ∷ ss) (t ∷ ts) = s == t && texts_eq ss ts
texts_eq _ _ = false

evidence_eq : List EvidenceRecord → List EvidenceRecord → Bool
unfolding option_eq
evidence_eq [] [] = true
evidence_eq (d ∷ ds) (e ∷ es) =
    (d.path == e.path && d.evidence_class == e.evidence_class)
    && ((option_eq d.locator e.locator && option_eq d.snippet_ref e.snippet_ref)
        && evidence_eq ds es)
evidence_eq _ _ = false

ℤ_eq : ℤ → ℤ → Bool
ℤ_eq a b = leb_ℤ a b && leb_ℤ b a

-- `a.to_dict() == b.to_dict()`: a dict has a key for each field, so the fields are compared.
unfoldable pub finding_eq : FindingRecord → FindingRecord → Bool
unfolding evidence_eq texts_eq option_eq ℤ_eq
finding_eq f g =
    (f.finding_id == g.finding_id
      && (f.domain == g.domain
          && (f.severity == g.severity
              && (f.status == g.status && (f.title == g.title && f.summary == g.summary)))))
    && ((evidence_eq f.evidence g.evidence
          && (f.area_id == g.area_id
              && (texts_eq f.suggested_remediation g.suggested_remediation
                  && (ℤ_eq f.confidence g.confidence && f.confidence_class == g.confidence_class))))
        && (f.detected_by == g.detected_by
            && (f.standards_version == g.standards_version
                && (f.created_at == g.created_at
                    && (f.updated_at == g.updated_at && option_eq f.rule_id g.rule_id)))))

-- `_ensure_scope_match`
unfoldable pub ensure_scope_match : FindingRecord → FindingRecord → Result (Unit {0})
ensure_scope_match left right =
    if not (left.domain == right.domain) || not (left.area_id == right.area_id)
    then err value_error
    else ok tt

abbrev newer : FindingRecord → FindingRecord → FindingRecord
newer existing candidate =
    if leb_text existing.updated_at candidate.updated_at then candidate else existing

-- `_merge_existing_record` where there is a record already. `a > b` on texts is `not a <= b`.
unfoldable pub merge_records : FindingRecord → FindingRecord → Result FindingRecord
unfolding ensure_scope_match
merge_records existing candidate =
    ensure_scope_match existing candidate
    >> (if finding_eq existing candidate
        then ok existing
        else if not (existing.updated_at == candidate.updated_at)
        then ok (newer existing candidate)
        else if existing.status == "open" && not (candidate.status == "open")
        then ok existing
        else if candidate.status == "open" && not (existing.status == "open")
        then ok candidate
        else err value_error)

-- `_merge_existing_record`
unfoldable pub merge_existing_record : Option FindingRecord → FindingRecord → Result FindingRecord
unfolding merge_records
merge_existing_record none candidate = ok candidate
merge_existing_record (some existing) candidate = merge_records existing candidate

-- One loop of `_merge_existing_stores`.
unfoldable pub merge_store : Dict FindingRecord → List FindingRecord → Result (Dict FindingRecord)
unfolding merge_existing_record
merge_store merged [] = ok merged
merge_store merged (finding ∷ rest) =
    merge_existing_record (get finding.finding_id merged) finding >>= λ record'.
    merge_store (put finding.finding_id record' merged) rest

-- `_merge_existing_stores`
unfoldable pub merge_existing_stores : FindingsStore → FindingsStore → Result (Dict FindingRecord)
unfolding merge_store
merge_existing_stores history_store open_store = do
  merged ← merge_store [] history_store.findings
  merge_store merged open_store.findings
