-- ===== src/ControlTower/Laws.antt =====
-- The status of a subsystem and the counts of the estate.
use standards_control_plane.ControlTower.Estate.{
  EstateDashboard, EstateSummary, build_estate_dashboard, entry_key, estate_summary, estate_to_dict,
  has_status,
}
use mathlib.Core.List.{Perm}
use standards_control_plane.Prelude.{
  >>=-eq-ok, All, Bool, Ensures, List, String, [], arith, count_by, eq_iff, false, if◌then◌else◌,
  inl, inr, length, ltb, ok, refl, subst, sum_by, true, ℕ, ◌+◌, ◌==◌, ◌||◌, ◌∷◌, ◌≡◌, ◌≤◌, ◌⊎◌,
}
use standards_control_plane.ControlTower.{SubsystemDashboard, subsystem_status}
use standards_control_plane.Order.{sorted}
use standards_control_plane.Order.Sorted.{
  All-sorted, IsSorted, count_by-sorted, length-sorted, sorted-IsSorted, sorted-perm, sum_by-sorted,
}
use standards_control_plane.Json.{Schemas, validate_with_schema}

-- How bad a status is.
abbrev pub concern : String → ℕ
concern status = if status == "healthy" then 0 else if status == "monitor" then 1 else 2

ltb_mono : (a b a' b' : ℕ) → a' ≤ a → b ≤ b' → ltb a b ≡ true → ltb a' b' ≡ true
ltb_mono a b a' b' l r h = ground arith

or_mono :
    (a b a' b' : Bool)
    → (a ≡ true → a' ≡ true)
    → (b ≡ true → b' ≡ true)
    → (a || b) ≡ true
    → (a' || b') ≡ true
or_mono true b a' b' f g h = rw (f refl) refl
or_mono false b true b' f g h = refl
or_mono false b false b' f g h = g h

abbrev pub status_if : Bool → Bool → String
status_if bad fair = if bad then "attention_required" else if fair then "monitor" else "healthy"

status_if_mono :
    (bad fair bad' fair' : Bool)
    → (bad ≡ true → bad' ≡ true)
    → (fair ≡ true → fair' ≡ true)
    → concern (status_if bad fair) ≤ concern (status_if bad' fair')
status_if_mono true fair bad' fair' f g = rw (f refl) (omega arith)
status_if_mono false fair true fair' f g = at_most fair
  where
    at_most : (b : Bool) → concern (status_if false b) ≤ 2
    at_most true = omega arith
    at_most false = omega arith
status_if_mono false true false fair' f g = rw (g refl) (omega arith)
status_if_mono false false false fair' f g = omega arith

-- A status never gets better when the score falls or one of the counts grows.
pub subsystem_status_mono :
    (score score' opened opened' severe severe' warnings warnings' : ℕ)
    → score' ≤ score
    → opened ≤ opened'
    → severe ≤ severe'
    → warnings ≤ warnings'
    → concern (subsystem_status score opened severe warnings)
      ≤ concern (subsystem_status score' opened' severe' warnings')
unfolding subsystem_status
subsystem_status_mono score score' opened opened' severe severe' warnings warnings' a b c d =
    status_if_mono (ltb 0 warnings || (ltb 0 severe || ltb score 60)) (ltb 0 opened || ltb score 75)
      (ltb 0 warnings' || (ltb 0 severe' || ltb score' 60)) (ltb 0 opened' || ltb score' 75)
      (or_mono (ltb 0 warnings) _ (ltb 0 warnings') _
        (ltb_mono 0 warnings 0 warnings' (omega arith) d)
        (or_mono (ltb 0 severe) _ (ltb 0 severe') _ (ltb_mono 0 severe 0 severe' (omega arith) c)
          (ltb_mono score 60 score' 60 a (omega arith))))
      (or_mono (ltb 0 opened) _ (ltb 0 opened') _ (ltb_mono 0 opened 0 opened' (omega arith) b)
        (ltb_mono score 75 score' 75 a (omega arith)))

abbrev pub known_status : SubsystemDashboard → Bool
known_status e =
    e.status == "healthy" || (e.status == "monitor" || e.status == "attention_required")

pub subsystem_status_known :
    (score opened severe warnings : ℕ)
    → (let s = subsystem_status score opened severe warnings in
        s == "healthy" || (s == "monitor" || s == "attention_required"))
      ≡ true
unfolding subsystem_status
subsystem_status_known score opened severe warnings =
    one_of (ltb 0 warnings || (ltb 0 severe || ltb score 60)) (ltb 0 opened || ltb score 75)
  where
    one_of :
        (bad fair : Bool)
        → (let s = status_if bad fair in
            s == "healthy" || (s == "monitor" || s == "attention_required"))
          ≡ true
    one_of true fair = refl
    one_of false true = refl
    one_of false false = refl

one_of_three :
    (s : String)
    → (s == "healthy" || (s == "monitor" || s == "attention_required")) ≡ true
    → (s ≡ "healthy") ⊎ (s ≡ "monitor") ⊎ (s ≡ "attention_required")
one_of_three s h =
    ground (arith, eq_iff s "healthy", eq_iff s "monitor", eq_iff s "attention_required")

one_status :
    (s : String)
    → (s == "healthy" || (s == "monitor" || s == "attention_required")) ≡ true
    → (if s == "healthy" then 1 else 0)
        + ((if s == "monitor" then 1 else 0) + (if s == "attention_required" then 1 else 0))
      ≡ 1
one_status s h = elim (one_of_three s h) [
  | inl e ↦ rw e refl
  | inr (inl e) ↦ rw e refl
  | inr (inr e) ↦ rw e refl
]

counts_add :
    (es : List SubsystemDashboard)
    → All (λ e. known_status e ≡ true) es
    → length es
      ≡ count_by (has_status "healthy") es
        + (count_by (has_status "monitor") es + count_by (has_status "attention_required") es)
counts_add [] h = omega arith
counts_add (e ∷ es) h = omega (arith, one_status e.status h.0, counts_add es h.1)

-- The summary of entries, in whatever order they are.
abbrev pub counted : List SubsystemDashboard → EstateSummary
counted es = record {
  subsystem_count = length es;
  healthy_count = count_by (λ (e : SubsystemDashboard). e.status == "healthy") es;
  monitor_count = count_by (λ (e : SubsystemDashboard). e.status == "monitor") es;
  attention_required_count =
      count_by (λ (e : SubsystemDashboard). e.status == "attention_required") es;
  open_findings_count = sum_by (λ (e : SubsystemDashboard). e.open_findings_count) es;
  high_severity_open_findings =
      sum_by (λ (e : SubsystemDashboard). e.high_severity_open_findings) es;
  warning_count = sum_by (λ (e : SubsystemDashboard). e.warning_count) es;
}

estate_summary-sorted :
    (es : List SubsystemDashboard) → estate_summary (sorted entry_key es) ≡ counted es
unfolding estate_summary
estate_summary-sorted es =
    rw
      (
        length-sorted entry_key es,
        count_by-sorted entry_key (has_status "healthy") es,
        count_by-sorted entry_key (has_status "monitor") es,
        count_by-sorted entry_key (has_status "attention_required") es,
        sum_by-sorted entry_key (λ (e : SubsystemDashboard). e.open_findings_count) es,
        sum_by-sorted entry_key (λ (e : SubsystemDashboard). e.high_severity_open_findings) es,
        sum_by-sorted entry_key (λ (e : SubsystemDashboard). e.warning_count) es,
      )
      refl

pub record IsEstate (entries : List SubsystemDashboard) (d : EstateDashboard) : Type 0 where
  pub complete : Perm d.subsystems entries
  pub in_order : IsSorted entry_key d.subsystems
  pub summarised : d.summary ≡ counted entries
  pub adds_up :
      d.summary.subsystem_count
      ≡ d.summary.healthy_count + (d.summary.monitor_count + d.summary.attention_required_count)

-- If every given entry has one of the three statuses, an estate dashboard that is built lists the
-- entries in order, its summary counts and adds up what they have, and the counts of the three
-- statuses add up to the number of subsystems.
pub build_estate_dashboard-IsEstate :
    (accepts : Schemas) (entries : List SubsystemDashboard) (generated_at : String)
    {d : EstateDashboard}
    → All (λ e. known_status e ≡ true) entries
    → build_estate_dashboard accepts entries generated_at ≡ ok d
    → IsEstate entries d
unfolding build_estate_dashboard estate_summary
build_estate_dashboard-IsEstate accepts entries generated_at known h =
    let ordered = sorted entry_key entries in
    let whole : EstateDashboard = record {
      generated_at = generated_at;
      summary = estate_summary ordered;
      subsystems = ordered;
    } in
    let (_, _, e) =
      >>=-eq-ok (validate_with_schema accepts (estate_to_dict whole) "estate-dashboard.schema.json")
        _ h in
    subst (Ensures (IsEstate entries)) e (record {
      complete = sorted-perm entry_key entries;
      in_order = sorted-IsSorted entry_key entries;
      summarised = estate_summary-sorted entries;
      adds_up =
          counts_add ordered (All-sorted entry_key (λ e. known_status e ≡ true) entries known);
    })
