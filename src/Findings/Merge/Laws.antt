-- ===== src/Findings/Merge/Laws.antt =====
-- Merging two records of one finding does not depend on which store is read first.
use standards_control_plane.Prelude.{
  ==_comm, List, Option, String, [], ap, arith, eq_iff, eq_refl, none, refl, some, subst, true, ◌∷◌,
  ◌≡◌,
}
use standards_control_plane.Prelude.Int.{negsuc, pos, ℤ}
use standards_control_plane.Order.Laws.{leb_text_antisymm, leb_text-total, leb_ℤ-antisymm}
use standards_control_plane.Findings.{EvidenceRecord, FindingRecord}
use standards_control_plane.Findings.Merge.{
  evidence_eq, finding_eq, merge_records, option_eq, texts_eq, ℤ_eq,
}

option_eq-eq : (a b : Option String) → option_eq a b ≡ true → a ≡ b
unfolding option_eq
option_eq-eq none none h = refl
option_eq-eq (some s) (some t) h = ap some ((eq_iff s t).0 h)
option_eq-eq none (some t) h = cc
option_eq-eq (some s) none h = cc

option_eq_refl : (a : Option String) → option_eq a a ≡ true
unfolding option_eq
option_eq_refl none = refl
option_eq_refl (some s) = eq_refl s

texts_eq-eq : (a b : List String) → texts_eq a b ≡ true → a ≡ b
unfolding texts_eq
texts_eq-eq [] [] h = refl
texts_eq-eq (s ∷ ss) (t ∷ ts) h = ground (arith, eq_iff s t, texts_eq-eq ss ts)
texts_eq-eq [] (t ∷ ts) h = cc
texts_eq-eq (s ∷ ss) [] h = cc

texts_eq_refl : (a : List String) → texts_eq a a ≡ true
unfolding texts_eq
texts_eq_refl [] = refl
texts_eq_refl (s ∷ ss) = rw (eq_refl s) (texts_eq_refl ss)

evidence_eq-eq : (a b : List EvidenceRecord) → evidence_eq a b ≡ true → a ≡ b
unfolding evidence_eq
evidence_eq-eq [] [] h = refl
evidence_eq-eq (d ∷ ds) (e ∷ es) h = ground (
  arith,
  eq_iff d.path e.path,
  eq_iff d.evidence_class e.evidence_class,
  option_eq-eq d.locator e.locator,
  option_eq-eq d.snippet_ref e.snippet_ref,
  evidence_eq-eq ds es,
)
evidence_eq-eq [] (e ∷ es) h = cc
evidence_eq-eq (d ∷ ds) [] h = cc

evidence_eq_refl : (a : List EvidenceRecord) → evidence_eq a a ≡ true
unfolding evidence_eq
evidence_eq_refl [] = refl
evidence_eq_refl (e ∷ es) =
    rw
      (
        eq_refl e.path,
        eq_refl e.evidence_class,
        option_eq_refl e.locator,
        option_eq_refl e.snippet_ref,
      )
      (evidence_eq_refl es)

ℤ_eq-eq : (a b : ℤ) → ℤ_eq a b ≡ true → a ≡ b
unfolding ℤ_eq
ℤ_eq-eq a b h = leb_ℤ-antisymm a b (ground arith) (ground arith)

ℤ_eq_refl : (a : ℤ) → ℤ_eq a a ≡ true
unfolding ℤ_eq
ℤ_eq_refl (pos n) = ground arith
ℤ_eq_refl (negsuc n) = ground arith

pub finding_eq-eq : (f g : FindingRecord) → finding_eq f g ≡ true → f ≡ g
unfolding finding_eq
finding_eq-eq f g h = ground (
  arith,
  eq_iff f.finding_id g.finding_id,
  eq_iff f.domain g.domain,
  eq_iff f.severity g.severity,
  eq_iff f.status g.status,
  eq_iff f.title g.title,
  eq_iff f.summary g.summary,
  evidence_eq-eq f.evidence g.evidence,
  eq_iff f.area_id g.area_id,
  texts_eq-eq f.suggested_remediation g.suggested_remediation,
  ℤ_eq-eq f.confidence g.confidence,
  eq_iff f.confidence_class g.confidence_class,
  eq_iff f.detected_by g.detected_by,
  eq_iff f.standards_version g.standards_version,
  eq_iff f.created_at g.created_at,
  eq_iff f.updated_at g.updated_at,
  option_eq-eq f.rule_id g.rule_id,
)

pub finding_eq_refl : (f : FindingRecord) → finding_eq f f ≡ true
unfolding finding_eq
finding_eq_refl f = rw (
  eq_refl f.finding_id,
  eq_refl f.domain,
  eq_refl f.severity,
  eq_refl f.status,
  eq_refl f.title,
  eq_refl f.summary,
  evidence_eq_refl f.evidence,
  eq_refl f.area_id,
  texts_eq_refl f.suggested_remediation,
  ℤ_eq_refl f.confidence,
  eq_refl f.confidence_class,
  eq_refl f.detected_by,
  eq_refl f.standards_version,
  eq_refl f.created_at,
  eq_refl f.updated_at,
  option_eq_refl f.rule_id,
)

finding_eq-true : (f g : FindingRecord) → f ≡ g → finding_eq f g ≡ true
finding_eq-true f g e = subst (λ h. finding_eq f h ≡ true) e (finding_eq_refl f)

finding_eq_comm : (f g : FindingRecord) → finding_eq f g ≡ finding_eq g f
finding_eq_comm f g =
    ground (arith, finding_eq-eq f g, finding_eq-eq g f, finding_eq-true f g, finding_eq-true g f)

-- The result of a merge is the same, error or record, in both orders.
pub merge_records_comm : (a b : FindingRecord) → merge_records a b ≡ merge_records b a
unfolding merge_records
merge_records_comm a b = ground (
  arith,
  finding_eq_comm a b,
  finding_eq-eq a b,
  ==_comm a.domain b.domain,
  ==_comm a.area_id b.area_id,
  ==_comm a.updated_at b.updated_at,
  eq_iff a.updated_at b.updated_at,
  leb_text-total a.updated_at b.updated_at,
  leb_text_antisymm a.updated_at b.updated_at,
)
