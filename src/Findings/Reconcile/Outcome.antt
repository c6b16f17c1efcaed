-- ===== src/Findings/Reconcile/Outcome.antt =====
-- `reconcile_records` against a description of each record of the new history.
use standards_control_plane.Prelude.{
  >>=-eq-ok, Bool, Bool-cases, List, Option, Option-cases, Result, String, ap, arith, elem, false,
  if◌then◌else◌, inl, inr, none, ok, refl, some, subst, true, ◌&&◌, ◌==◌, ◌||◌, ◌∙◌, ◌≡◌,
}
use standards_control_plane.Dict.{Dict, IsDict, contains, get}
use standards_control_plane.Dict.Laws.{contains-get, get-contains}
use standards_control_plane.Findings.{FindingRecord}
use standards_control_plane.Findings.Reconcile.{
  clone_finding, enter_current, entered, is_gone, reconcile_records, resolve_gone, resolved,
}
use standards_control_plane.Findings.Reconcile.Records.{
  enter_current-IsDict, get-enter_current, get-resolve_gone, resolve_gone-IsDict,
}

module _ (generated_at scope_area_id : String) (evaluated_domains : List String)
    (current : Dict FindingRecord) where
  -- A text that is given, else the one that was there.
  abbrev pub given_or : String → String → String
  given_or s t = if s == "" then t else s

  -- When a finding was first seen.
  abbrev pub first_seen : FindingRecord → Option FindingRecord → String
  first_seen finding none = finding.created_at
  first_seen finding (some before) = before.created_at

  -- The audit covers the finding, which was open or waived.
  abbrev pub is_covered : FindingRecord → Bool
  is_covered before =
      (before.status == "open" || before.status == "waived")
      && (before.area_id == scope_area_id && elem before.domain evaluated_domains)

  -- The record that a finding has afterwards, from what the audit reports and what was known.
  abbrev pub outcome : String → Option FindingRecord → Option FindingRecord → Option FindingRecord
  outcome k (some finding) before = some (record finding {
    created_at = given_or (first_seen finding before) finding.created_at;
    updated_at = given_or generated_at finding.updated_at;
  })
  outcome k none none = none
  outcome k none (some before) = some (
      if is_covered before
      then record before {
        status = "resolved";
        updated_at = given_or generated_at before.updated_at;
      }
      else before)

  -- The same by the steps of the two loops.
  abbrev pub stepped : String → Option FindingRecord → Option FindingRecord → Option FindingRecord
  stepped k (some finding) before = some (entered generated_at evaluated_domains before finding)
  stepped k none none = none
  stepped k none (some before) = some (
      if is_gone generated_at scope_area_id evaluated_domains current k before
      then resolved generated_at scope_area_id evaluated_domains current before
      else before)

  abbrev is_reported : Option FindingRecord → Bool
  is_reported none = false
  is_reported (some finding) = true

  contains-is_reported : (k : String) → contains k current ≡ is_reported (get k current)
  contains-is_reported k = elim (Option-cases (get k current)) [
    | inl e ↦ rw e (ground (arith, get-contains k current))
    | inr (f, e) ↦ rw e (ground (arith, contains-get k current))
  ]

  given_same : (s : String) → (if s == "" then s else s) ≡ s
  given_same s = elim (Bool-cases (s == "")) [ inl e ↦ rw e refl | inr n ↦ rw n refl ]

  same_status :
      (f : FindingRecord) (before : Option FindingRecord)
      → some (record f {
        status = given_or f.status f.status;
        created_at = given_or (first_seen f before) f.created_at;
        updated_at = given_or generated_at f.updated_at;
      })
        ≡ some (record f {
          created_at = given_or (first_seen f before) f.created_at;
          updated_at = given_or generated_at f.updated_at;
        })
  same_status f before =
      ap
        (λ st. some (record f {
          status = st;
          created_at = given_or (first_seen f before) f.created_at;
          updated_at = given_or generated_at f.updated_at;
        }))
        (given_same f.status)

  stepped-outcome :
      (k : String) (reported before : Option FindingRecord)
      → contains k current ≡ is_reported reported
      → stepped k reported before ≡ outcome k reported before
  unfolding clone_finding
  stepped-outcome k (some f) none h = same_status f none
  stepped-outcome k (some f) (some b) h = same_status f (some b)
  stepped-outcome k none none h = refl
  stepped-outcome k none (some b) h = rw h refl

  abbrev pub reconcile : Dict FindingRecord → Result (Dict FindingRecord)
  reconcile = reconcile_records generated_at scope_area_id evaluated_domains current

  pub reconcile_split :
      (existing : Dict FindingRecord) {final : Dict FindingRecord}
      → reconcile existing ≡ ok final
      → (history : Dict FindingRecord) × (enter_current generated_at evaluated_domains current
            existing
          ≡ ok history)
        × (resolve_gone generated_at scope_area_id evaluated_domains current history history
            ≡ final)
  unfolding reconcile_records
  reconcile_split existing h =
      let (history, entered', e) =
        >>=-eq-ok (enter_current generated_at evaluated_domains current existing) _ h in
      (history, entered', cc)

  pub reconcile_records-IsDict :
      (existing : Dict FindingRecord) {final : Dict FindingRecord}
      → IsDict existing
      → reconcile existing ≡ ok final
      → IsDict final
  reconcile_records-IsDict existing d h =
      let (history, entered', e) = reconcile_split existing h in
      subst (λ r. IsDict r) e
        (resolve_gone-IsDict generated_at scope_area_id evaluated_domains current history history
          (enter_current-IsDict generated_at evaluated_domains current existing d entered'))

  module _ (unique : IsDict current) where
    pub get-reconcile-stepped :
        (existing : Dict FindingRecord) {final : Dict FindingRecord}
        → IsDict existing
        → reconcile existing ≡ ok final
        → (k : String) → get k final ≡ stepped k (get k current) (get k existing)
    get-reconcile-stepped existing {final} d h k =
        let (history, entered', e) = reconcile_split existing h in
        let d' = enter_current-IsDict generated_at evaluated_domains current existing d entered' in
        let first =
          get-enter_current generated_at evaluated_domains k current existing unique entered' in
        let second =
          get-resolve_gone generated_at scope_area_id evaluated_domains current k history history
            d' in
        subst (λ r. get k r ≡ stepped k (get k current) (get k existing)) e
          (ground (arith, first, second, contains-get k current, get-contains k current))

    pub get-reconcile_records :
        (existing : Dict FindingRecord) {final : Dict FindingRecord}
        → IsDict existing
        → reconcile existing ≡ ok final
        → (k : String) → get k final ≡ outcome k (get k current) (get k existing)
    get-reconcile_records existing d h k =
        get-reconcile-stepped existing d h k
        ∙ stepped-outcome k (get k current) (get k existing) (contains-is_reported k)
