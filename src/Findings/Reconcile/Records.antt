-- ===== src/Findings/Reconcile/Records.antt =====
-- What the two loops of `reconcile_findings` do to the records, identifier by identifier.
use standards_control_plane.Prelude.{
  All, Bool, Bool-cases, List, Option, Result, String, [], arith, elem, eq_iff, err, false,
  if◌then◌else◌, inl, inr, none, ok, passed, refl, some, subst, true, value_error, ◌∙◌, ◌∷◌, ◌≡◌,
}
use standards_control_plane.Dict.{Dict, IsDict, get, put}
use standards_control_plane.Dict.Laws.{contains-get, get-put, put-IsDict, put_same}
use standards_control_plane.Findings.{FindingRecord}
use standards_control_plane.Findings.Merge.{ensure_scope_match}
use standards_control_plane.Findings.Reconcile.{
  enter_current, entered, is_gone, resolve_gone, resolved, scope_check,
}

module _ (generated_at : String) (evaluated_domains : List String) where
  abbrev pub after_enter : Option FindingRecord → Option FindingRecord → Option FindingRecord
  after_enter none before = before
  after_enter (some finding) before = some (entered generated_at evaluated_domains before finding)

  pub enter_current_step :
      (j : String) (f : FindingRecord) (rest history : Dict FindingRecord)
      {final : Dict FindingRecord}
      → enter_current generated_at evaluated_domains ((j, f) ∷ rest) history ≡ ok final
      → (elem f.domain evaluated_domains ≡ true)
        × (scope_check generated_at evaluated_domains (get j history) f ≡ ok tt)
        × (enter_current generated_at evaluated_domains rest
              (put j (entered generated_at evaluated_domains (get j history) f) history)
            ≡ ok final)
  unfolding enter_current
  enter_current_step j f rest history h =
      passed (elem f.domain evaluated_domains) value_error
        (scope_check generated_at evaluated_domains (get j history) f)
        (enter_current generated_at evaluated_domains rest
          (put j (entered generated_at evaluated_domains (get j history) f) history))
        h

  pub get-enter_current :
      (k : String) (current history : Dict FindingRecord) {final : Dict FindingRecord}
      → IsDict current
      → enter_current generated_at evaluated_domains current history ≡ ok final
      → get k final ≡ after_enter (get k current) (get k history)
  unfolding get
  get-enter_current k [] history d h = unfold enter_current in cc
  get-enter_current k ((j, f) ∷ rest) history {final} d h =
      let e = entered generated_at evaluated_domains (get j history) f in
      let later =
        get-enter_current k rest (put j e history) d.1 (enter_current_step j f rest history h).2 in
      ground (arith, later, get-put j k e history, eq_iff j k, contains-get j rest d.0)

  pub enter_current-IsDict :
      (current history : Dict FindingRecord) {final : Dict FindingRecord}
      → IsDict history
      → enter_current generated_at evaluated_domains current history ≡ ok final
      → IsDict final
  enter_current-IsDict [] history d h = unfold enter_current in subst (λ r. OfOk r) h d
    where
      OfOk : Result (Dict FindingRecord) → Type 0
      OfOk (ok r) = IsDict r
      OfOk (err _) = Unit
  enter_current-IsDict ((j, f) ∷ rest) history d h =
      enter_current-IsDict rest _ (put-IsDict j _ history d)
        (enter_current_step j f rest history h).2

  -- A history in which every current finding stands as it would be entered is left alone.
  abbrev pub IsEntered : Dict FindingRecord → String × FindingRecord → Type 0
  IsEntered history p =
      (elem p.1.domain evaluated_domains ≡ true)
      × (existing : FindingRecord) × (get p.0 history ≡ some existing)
      × (ensure_scope_match existing p.1 ≡ ok tt)
      × (entered generated_at evaluated_domains (some existing) p.1 ≡ existing)

  pub enter_current_fixed :
      (current history : Dict FindingRecord)
      → All (IsEntered history) current
      → enter_current generated_at evaluated_domains current history ≡ ok history
  unfolding enter_current
  enter_current_fixed [] history h = refl
  enter_current_fixed ((j, f) ∷ rest) history ((known, existing, found, same, stays), others) =
      rw (known, found, same, stays, put_same j existing history found)
        (enter_current_fixed rest history others)

module _ (generated_at scope_area_id : String) (evaluated_domains : List String)
    (current : Dict FindingRecord) where
  abbrev pub gone : String → FindingRecord → Bool
  gone = is_gone generated_at scope_area_id evaluated_domains current

  abbrev pub closed : FindingRecord → FindingRecord
  closed = resolved generated_at scope_area_id evaluated_domains current

  abbrev pub after_resolve :
      String → Option FindingRecord → Option FindingRecord → Option FindingRecord
  after_resolve k none before = before
  after_resolve k (some f) before = if gone k f then some (closed f) else before

  pub get-resolve_gone :
      (k : String) (items history : Dict FindingRecord)
      → IsDict items
      → get k (resolve_gone generated_at scope_area_id evaluated_domains current items history)
        ≡ after_resolve k (get k items) (get k history)
  unfolding resolve_gone get
  get-resolve_gone k [] history d = refl
  get-resolve_gone k ((j, f) ∷ rest) history d = elim (Bool-cases (gone j f)) [
    | inl e ↦ rw e (
        get-resolve_gone k rest (put j (closed f) history) d.1
        ∙ ground (arith, get-put j k (closed f) history, eq_iff j k, contains-get j rest d.0))
    | inr n ↦
        rw n (
          get-resolve_gone k rest history d.1 ∙ ground (arith, eq_iff j k, contains-get j rest d.0))
  ]

  pub resolve_gone-IsDict :
      (items history : Dict FindingRecord)
      → IsDict history
      → IsDict (resolve_gone generated_at scope_area_id evaluated_domains current items history)
  unfolding resolve_gone
  resolve_gone-IsDict [] history d = d
  resolve_gone-IsDict ((j, f) ∷ rest) history d = elim (Bool-cases (gone j f)) [
    | inl e ↦ rw e (resolve_gone-IsDict rest _ (put-IsDict j (closed f) history d))
    | inr n ↦ rw n (resolve_gone-IsDict rest history d)
  ]

  pub resolve_gone_fixed :
      (items history : Dict FindingRecord)
      → All (λ p. gone p.0 p.1 ≡ false) items
      → resolve_gone generated_at scope_area_id evaluated_domains current items history ≡ history
  unfolding resolve_gone
  resolve_gone_fixed [] history h = refl
  resolve_gone_fixed ((j, f) ∷ rest) history h = rw h.0 (resolve_gone_fixed rest history h.1)
