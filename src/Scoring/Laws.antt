-- ===== src/Scoring/Laws.antt =====
-- What a score counts, and what moves it.
use standards_control_plane.Prelude.{
  >>=-eq-ok, All, Bool, Bool-cases, List, String, [], ap, arith, count_by, elem, eq_iff, false,
  if◌then◌else◌, inl, inr, key_error, map, not, ok, or_raise, refl, sym, true, ℕ, ◌&&◌, ◌*◌, ◌+◌,
  ◌-◌, ◌==◌, ◌||◌, ◌∙◌, ◌∷◌, ◌≡◌, ◌≤◌, ◌⊎◌,
}
use standards_control_plane.Findings.{FindingRecord}
use standards_control_plane.Scoring.{
  deductions_from, finding_penalty, non_penalty_statuses, score_findings, severity_deductions,
}

-- A finding that counts, of one severity.
abbrev pub counts_as : String → FindingRecord → Bool
counts_as severity f = not (elem f.status non_penalty_statuses) && f.severity == severity

abbrev pub deduction : List FindingRecord → ℕ
deduction fs =
    40 * count_by (counts_as "critical") fs
    + 30 * count_by (counts_as "high") fs
    + 15 * count_by (counts_as "medium") fs
    + 5 * count_by (counts_as "low") fs

-- No deduction is asked for that the table lacks.
abbrev pub IsScorable : FindingRecord → Type 0
IsScorable f =
    (elem f.status non_penalty_statuses
      || elem f.severity ("critical" ∷ "high" ∷ "medium" ∷ "low" ∷ []))
    ≡ true

abbrev weight : FindingRecord → ℕ
weight f = deduction (f ∷ [])

abbrev flag : Bool → ℕ
flag b = if b then 1 else 0

pub one_severity :
    (s : String)
    → elem s ("critical" ∷ "high" ∷ "medium" ∷ "low" ∷ []) ≡ true
    → (s ≡ "critical") ⊎ (s ≡ "high") ⊎ (s ≡ "medium") ⊎ (s ≡ "low")
one_severity s h =
    ground (arith, eq_iff s "critical", eq_iff s "high", eq_iff s "medium", eq_iff s "low")

penalty_cases :
    (b : Bool) (s : String)
    → (b || elem s ("critical" ∷ "high" ∷ "medium" ∷ "low" ∷ [])) ≡ true
    → (if b then ok 0 else or_raise key_error (severity_deductions s))
      ≡ ok (
          40 * (flag (not b && s == "critical") + 0)
          + 30 * (flag (not b && s == "high") + 0)
          + 15 * (flag (not b && s == "medium") + 0)
          + 5 * (flag (not b && s == "low") + 0))
unfolding severity_deductions
penalty_cases true s h = refl
penalty_cases false s h = elim (one_severity s h) [
  | inl e ↦ rw e
  | inr (inl e) ↦ rw e
  | inr (inr (inl e)) ↦ rw e
  | inr (inr (inr e)) ↦ rw e
]

finding_penalty-weight : (f : FindingRecord) → IsScorable f → finding_penalty f ≡ ok (weight f)
unfolding finding_penalty
finding_penalty-weight f h = penalty_cases (elem f.status non_penalty_statuses) f.severity h

deductions_from-deduction :
    (n : ℕ) (fs : List FindingRecord)
    → All IsScorable fs
    → deductions_from n fs ≡ ok (n + deduction fs)
unfolding deductions_from
deductions_from-deduction n [] h = ap ok (omega arith)
deductions_from-deduction n (f ∷ fs) h =
    rw (finding_penalty-weight f h.0)
      (deductions_from-deduction (n + weight f) fs h.1 ∙ ap ok (omega arith))

-- The score is 100 less 40, 30, 15 and 5 for each counting finding of the four severities, and
-- never below zero.
pub score_findings-deduction :
    (fs : List FindingRecord) → All IsScorable fs → score_findings fs ≡ ok (100 - deduction fs)
unfolding score_findings
score_findings-deduction fs h = rw (deductions_from-deduction 0 fs h) (ap ok (omega arith))

-- A score is at most 100.
score_findings-le : (fs : List FindingRecord) (n : ℕ) → score_findings fs ≡ ok n → n ≤ 100
unfolding score_findings
score_findings-le fs n h =
    let (d, _, e) = >>=-eq-ok (deductions_from 0 fs) (λ d. ok (100 - d)) h in
    let same : 100 - d ≡ n = cc in omega arith

-- Waiving findings.
abbrev pub waive : (FindingRecord → Bool) → FindingRecord → FindingRecord
waive p f = if p f then record f { status = "waived" } else f

count_by-waive :
    (p : FindingRecord → Bool) (severity : String) (fs : List FindingRecord)
    → count_by (counts_as severity) (map (waive p) fs) ≤ count_by (counts_as severity) fs
count_by-waive p severity [] = omega arith
count_by-waive p severity (f ∷ fs) = elim (Bool-cases (p f)) [
  | inl e ↦ rw e (omega (arith, count_by-waive p severity fs))
  | inr n ↦ rw n (omega (arith, count_by-waive p severity fs))
]

pub waive-IsScorable :
    (p : FindingRecord → Bool) (fs : List FindingRecord)
    → All IsScorable fs
    → All IsScorable (map (waive p) fs)
waive-IsScorable p [] h = tt
waive-IsScorable p (f ∷ fs) h = elim (Bool-cases (p f)) [
  | inl e ↦ rw e (refl, waive-IsScorable p fs h.1)
  | inr n ↦ rw n (h.0, waive-IsScorable p fs h.1)
]

-- Waiving any of the findings never lowers the score.
pub score_findings-waive :
    (p : FindingRecord → Bool) (fs : List FindingRecord) (before after : ℕ)
    → All IsScorable fs
    → score_findings fs ≡ ok before
    → score_findings (map (waive p) fs) ≡ ok after
    → before ≤ after
score_findings-waive p fs before after h e f =
    let b = sym (score_findings-deduction fs h) ∙ e in
    let a = sym (score_findings-deduction (map (waive p) fs) (waive-IsScorable p fs h)) ∙ f in
    let b' : 100 - deduction fs ≡ before = cc in
    let a' : 100 - deduction (map (waive p) fs) ≡ after = cc in
    omega (
      arith,
      count_by-waive p "critical" fs,
      count_by-waive p "high" fs,
      count_by-waive p "medium" fs,
      count_by-waive p "low" fs,
    )
