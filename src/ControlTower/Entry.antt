-- ===== src/ControlTower/Entry.antt =====
-- The dashboard of one subsystem.
use Prim.Native.Nat.{min}
use standards_control_plane.Prelude.{
  ==-false→ne, >>=-eq-ok, All, Bool, Bool-cases, Ensures, List, String, [], ap, arith, count_by,
  false, filter, if◌then◌else◌, inl, inr, length, length-take, ltb, map, ok, refl, subst, suc, take,
  true, ℕ, ◌&&◌, ◌==◌, ◌||◌, ◌↔◌, ◌∙◌, ◌∷◌, ◌≡◌, ◌≤◌,
}
use standards_control_plane.Order.Sorted.{length-sorted}
use standards_control_plane.Dict.{values}
use standards_control_plane.Json.{Schemas, item, validate_with_schema}
use standards_control_plane.Findings.{FindingRecord, FindingsStore}
use standards_control_plane.Audit.{audit_key}
use standards_control_plane.Audit.Build.{AuditResult, audit_to_dict, text_value}
use standards_control_plane.CiOutputs.{CiOutput, ci_to_dict}
use standards_control_plane.ControlTower.{
  SubsystemDashboard, area_findings, build_subsystem_dashboard, is_severe, least, subsystem_entry,
  subsystem_status, subsystem_to_dict, top_of, warnings_for, worst_of,
}
use standards_control_plane.ControlTower.Laws.{known_status, status_if, subsystem_status_known}

least_le : (n : ℕ) (ns : List ℕ) → (least n ns ≤ n) × All (λ m. least n ns ≤ m) ns
least_le n [] = (omega arith, tt)
least_le n (m ∷ ms) =
    let (h, hs) = least_le (if ltb m n then m else n) ms in
    let (left, right) = lesser m n in (omega arith, (omega arith, hs))
  where
    lesser : (a b : ℕ) → ((if ltb a b then a else b) ≤ b) × ((if ltb a b then a else b) ≤ a)
    lesser a b = elim (Bool-cases (ltb a b)) [
      | inl y ↦ (rw y (ground arith), rw y (omega arith))
      | inr z ↦ (rw z (omega arith), rw z (ground arith))
    ]

worst_of_le : (ns : List ℕ) → All (λ m. worst_of ns ≤ m) ns
worst_of_le [] = tt
worst_of_le (n ∷ ns) = least_le n ns

length-filter : {A : Type 0} (p : A → Bool) (xs : List A) → length (filter p xs) ≡ count_by p xs
length-filter p [] = refl
length-filter p (x ∷ xs) = elim (Bool-cases (p x)) [
  | inl y ↦ rw y (omega (arith, length-filter p xs))
  | inr n ↦ rw n (omega (arith, length-filter p xs))
]

count_by-le : {A : Type 0} (p : A → Bool) (xs : List A) → count_by p xs ≤ length xs
count_by-le p [] = omega arith
count_by-le p (x ∷ xs) = elim (Bool-cases (p x)) [
  | inl y ↦ rw y (omega (arith, count_by-le p xs))
  | inr n ↦ rw n (omega (arith, count_by-le p xs))
]

-- The finding is open and in the area.
abbrev pub is_open_in : String → FindingRecord → Bool
is_open_in area_id f = f.status == "open" && f.area_id == area_id

length-area_findings :
    (open_store : FindingsStore) (area_id : String)
    → length (area_findings open_store area_id) ≡ count_by (is_open_in area_id) open_store.findings
unfolding area_findings
length-area_findings open_store area_id =
    length-sorted audit_key (filter (is_open_in area_id) open_store.findings)
    ∙ length-filter (is_open_in area_id) open_store.findings

healthy_iff :
    (score opened severe warnings : ℕ)
    → severe ≤ opened
    → (subsystem_status score opened severe warnings ≡ "healthy")
      ↔ ((opened ≡ 0) × (warnings ≡ 0) × (75 ≤ score))
unfolding subsystem_status
healthy_iff score opened severe warnings few = (to, λ h. from h.0 h.1 h.2)
  where
    to :
        status_if (ltb 0 warnings || (ltb 0 severe || ltb score 60)) (ltb 0 opened || ltb score 75)
          ≡ "healthy"
        → (opened ≡ 0) × (warnings ≡ 0) × (75 ≤ score)
    to h = elim (Bool-cases (ltb 0 warnings || (ltb 0 severe || ltb score 60))) [
      | inl bad ↦ absurd (==-false→ne refl (rw bad at h))
      | inr good ↦ elim (Bool-cases (ltb 0 opened || ltb score 75)) [
        | inl fair ↦ absurd (==-false→ne refl (rw (good, fair) at h))
        | inr fine ↦ (ground arith, ground arith, ground arith)
      ]
    ]

    from :
        opened ≡ 0
        → warnings ≡ 0
        → 75 ≤ score
        → status_if
            (ltb 0 warnings || (ltb 0 severe || ltb score 60))
            (ltb 0 opened || ltb score 75)
          ≡ "healthy"
    from o w le =
        let good : (ltb 0 warnings || (ltb 0 severe || ltb score 60)) ≡ false = ground arith in
        let fine : (ltb 0 opened || ltb score 75) ≡ false = ground arith in rw (good, fine) refl

pub record IsEntry (audit_result : AuditResult) (open_store : FindingsStore)
    (e : SubsystemDashboard) : Type 0 where
  pub known : known_status e ≡ true
  pub counted : e.open_findings_count ≡ count_by (is_open_in e.area_id) open_store.findings
  pub severe : e.high_severity_open_findings ≤ e.open_findings_count
  pub worst : All (λ score. e.worst_score ≤ score) (values audit_result.scores)
  pub healthy :
      (e.status ≡ "healthy")
      ↔ ((e.open_findings_count ≡ 0) × (e.warning_count ≡ 0) × (75 ≤ e.worst_score))
  pub shown : length e.top_open_findings ≡ min 3 e.open_findings_count

length-map : {A B : Type 0} (f : A → B) (xs : List A) → length (map f xs) ≡ length xs
length-map f [] = refl
length-map f (x ∷ xs) = ap suc (length-map f xs)

subsystem_entry-IsEntry :
    (audit_result : AuditResult) (open_store : FindingsStore) (ci_output : CiOutput)
    (subsystem area_id : String)
    → IsEntry audit_result open_store
        (subsystem_entry audit_result open_store ci_output subsystem area_id)
unfolding subsystem_entry
subsystem_entry-IsEntry audit_result open_store ci_output subsystem area_id =
    let findings = area_findings open_store area_id in
    let worst = worst_of (values audit_result.scores) in
    record {
      known =
          subsystem_status_known worst (length findings) (count_by is_severe findings)
            (warnings_for subsystem ci_output);
      counted = length-area_findings open_store area_id;
      severe = count_by-le is_severe findings;
      worst = worst_of_le (values audit_result.scores);
      healthy =
          healthy_iff worst (length findings) (count_by is_severe findings)
            (warnings_for subsystem ci_output) (count_by-le is_severe findings);
      shown = length-map top_of (take 3 findings) ∙ length-take 3 findings;
    }

-- The dashboard of a subsystem counts the open findings of its area, has one of the three statuses,
-- is healthy exactly without an open finding and a warning and with a worst score of at least 75,
-- has a worst score that no score is below, and shows at most three findings.
pub build_subsystem_dashboard-IsEntry :
    (accepts : Schemas) (audit_result : AuditResult) (open_store : FindingsStore)
    (ci_output : CiOutput) {e : SubsystemDashboard}
    → build_subsystem_dashboard accepts audit_result open_store ci_output ≡ ok e
    → IsEntry audit_result open_store e
unfolding build_subsystem_dashboard
build_subsystem_dashboard-IsEntry accepts audit_result open_store ci_output h =
    let (_, _, h1) =
      >>=-eq-ok
        (validate_with_schema accepts (audit_to_dict audit_result) "audit-result.schema.json") _
        h in
    let (_, _, h2) =
      >>=-eq-ok (validate_with_schema accepts (ci_to_dict ci_output) "ci-output.schema.json") _
        h1 in
    let (subsystem_value, _, h3) = >>=-eq-ok (item "subsystem" audit_result.scope) _ h2 in
    let (subsystem, _, h4) = >>=-eq-ok (text_value subsystem_value) _ h3 in
    let (area_value, _, h5) = >>=-eq-ok (item "area_id" audit_result.scope) _ h4 in
    let (area_id, _, h6) = >>=-eq-ok (text_value area_value) _ h5 in
    let entry = subsystem_entry audit_result open_store ci_output subsystem area_id in
    let (_, _, h7) =
      >>=-eq-ok
        (validate_with_schema accepts (subsystem_to_dict entry)
          "control-tower-subsystem.schema.json")
        _ h6 in
    subst (Ensures (IsEntry audit_result open_store)) h7
      (subsystem_entry-IsEntry audit_result open_store ci_output subsystem area_id)
