-- ===== src/Findings/Reconcile/Again.antt =====
-- Reconciling the same audit with its own outcome.
use standards_control_plane.Prelude.{
  All, Bool-cases, List, Option, String, [], arith, elem, eq_refl, false, inl, inr, none, ok, refl,
  some, subst, sym, true, value-eq, ◌∙◌, ◌∷◌, ◌≡◌,
}
use standards_control_plane.Dict.{Dict, IsDict, get}
use standards_control_plane.Dict.Laws.{All-get, All-of_get, contains-get}
use standards_control_plane.Findings.{FindingRecord}
use standards_control_plane.Findings.Merge.{ensure_scope_match}
use standards_control_plane.Findings.Reconcile.{
  clone_finding, enter_current, entered, is_gone, reconcile_records, resolved,
}
use standards_control_plane.Findings.Reconcile.Records.{
  IsEntered, enter_current_fixed, enter_current_step, resolve_gone_fixed,
}
use standards_control_plane.Findings.Reconcile.Outcome.{
  get-reconcile-stepped, reconcile_records-IsDict, reconcile_split, stepped,
}

module _ (generated_at scope_area_id : String) (evaluated_domains : List String) where
  enter_current_known :
      (current history : Dict FindingRecord) {final : Dict FindingRecord}
      → enter_current generated_at evaluated_domains current history ≡ ok final
      → All (λ p. elem p.1.domain evaluated_domains ≡ true) current
  enter_current_known [] history h = tt
  enter_current_known ((j, f) ∷ rest) history h =
      let (known, _, later) =
        enter_current_step generated_at evaluated_domains j f rest history h in
      (known, enter_current_known rest _ later)

  -- The same audit enters the same record a second time.
  entered_again :
      (before : Option FindingRecord) (f : FindingRecord)
      → entered generated_at evaluated_domains
          (some (entered generated_at evaluated_domains before f))
          f
        ≡ entered generated_at evaluated_domains before f
  unfolding clone_finding
  entered_again none f = ground arith
  entered_again (some b) f = ground arith

  entered_scope :
      (before : Option FindingRecord) (f : FindingRecord)
      → ensure_scope_match (entered generated_at evaluated_domains before f) f ≡ ok tt
  unfolding ensure_scope_match clone_finding
  entered_scope none f = rw (eq_refl f.domain, eq_refl f.area_id)
  entered_scope (some b) f = rw (eq_refl f.domain, eq_refl f.area_id)

  module _ (current existing : Dict FindingRecord) (unique : IsDict current) (d : IsDict existing)
      {final : Dict FindingRecord}
      (done : reconcile_records generated_at scope_area_id evaluated_domains current existing
        ≡ ok final) where
    all-IsEntered : All (IsEntered generated_at evaluated_domains final) current
    all-IsEntered =
        All-of_get (IsEntered generated_at evaluated_domains final) current unique λ k f here. (
          All-get (λ p. elem p.1.domain evaluated_domains ≡ true) k current
              (enter_current_known current existing
                (reconcile_split generated_at scope_area_id evaluated_domains current existing
                  done).1)
              here,
          entered generated_at evaluated_domains (get k existing) f,
          get-reconcile-stepped generated_at scope_area_id evaluated_domains current unique existing
                d done k
              ∙ rw here,
          entered_scope (get k existing) f,
          entered_again (get k existing) f,
        )

    resolved_not_gone :
        (k : String) (b : FindingRecord)
        → is_gone generated_at scope_area_id evaluated_domains current k
            (resolved generated_at scope_area_id evaluated_domains current b)
          ≡ false
    unfolding clone_finding
    resolved_not_gone k b = ground arith

    not_gone_of_stepped :
        (k : String) (v : FindingRecord) (c b : Option FindingRecord)
        → get k current ≡ c
        → stepped generated_at scope_area_id evaluated_domains current k c b ≡ some v
        → is_gone generated_at scope_area_id evaluated_domains current k v ≡ false
    unfolding clone_finding
    not_gone_of_stepped k v (some f) b here h = ground (arith, contains-get k current)
    not_gone_of_stepped k v none none here h = cc
    not_gone_of_stepped k v none (some b) here h =
        elim (Bool-cases (is_gone generated_at scope_area_id evaluated_domains current k b)) [
          | inl e ↦ subst NotGone (value-eq (rw e at h)) (resolved_not_gone k b)
          | inr n ↦ subst NotGone (value-eq (rw n at h)) n
        ]
      where
        NotGone : FindingRecord → Type 0
        NotGone w = is_gone generated_at scope_area_id evaluated_domains current k w ≡ false

    none_gone :
        All
          (λ p. is_gone generated_at scope_area_id evaluated_domains current p.0 p.1 ≡ false)
          final
    none_gone =
        All-of_get _ final
          (reconcile_records-IsDict generated_at scope_area_id evaluated_domains current existing d
            done)
          λ k v here. not_gone_of_stepped k v (get k current) (get k existing) refl (
            sym (
              get-reconcile-stepped generated_at scope_area_id evaluated_domains current unique
                existing d done k)
            ∙ here)

    -- A second reconciliation of the same audit changes no record and no order.
    pub reconcile_records_again :
        reconcile_records generated_at scope_area_id evaluated_domains current final ≡ ok final
    unfolding reconcile_records
    reconcile_records_again =
        rw (enter_current_fixed generated_at evaluated_domains current final all-IsEntered) (
          rw (
            resolve_gone_fixed generated_at scope_area_id evaluated_domains current final final
              none_gone))
