-- ===== src/Waivers/Active.antt =====
-- Which waivers `select_active_waivers` keeps, and when it refuses.
use standards_control_plane.Prelude.{
  >>=-eq-ok, Bool, Bool-cases, Ensures, List, Option, Option-cases, Result, String, [], arith,
  count_by, eq_iff, err, false, if◌then◌else◌, inl, inr, leb, ltb, none, ok, some, subst,
  value_error, ℕ, ◌&&◌, ◌+◌, ◌==◌, ◌∷◌, ◌≡◌, ◌≤◌,
}
use standards_control_plane.Dict.{Dict, get, put}
use standards_control_plane.Waivers.{WaiverRecord, enter_waiver, select_active_waivers, select_from}
use standards_control_plane.Dict.Laws.{get-put}

-- An expiry that is known and not before the audit.
abbrev pub lasts_until : ℕ → Result ℕ → Bool
lasts_until as_of (ok expires) = leb as_of expires
lasts_until as_of (err e) = false

abbrev pub first : (WaiverRecord → Bool) → List WaiverRecord → Option WaiverRecord
first p [] = none
first p (w ∷ ws) = if p w then some w else first p ws

abbrev otherwise : Option WaiverRecord → Option WaiverRecord → Option WaiverRecord
otherwise none o = o
otherwise (some w) o = some w

abbrev present : Option WaiverRecord → ℕ
present none = 0
present (some w) = 1

module _ (parse_timestamp : String → Result ℕ) where
  -- The waiver is for the finding and has not expired.
  abbrev pub holds : ℕ → String → WaiverRecord → Bool
  holds as_of k w = w.finding_id == k && lasts_until as_of (parse_timestamp w.expires_at)

  abbrev next_active : ℕ → Dict WaiverRecord → WaiverRecord → ℕ → Result (Dict WaiverRecord)
  next_active as_of active waiver expires =
      if ltb expires as_of
      then ok active
      else enter_waiver parse_timestamp active waiver (get waiver.finding_id active)

  -- One round: what the dict has for a finding, from what it had and the waiver.
  round-get :
      (k : String) (as_of : ℕ) (active : Dict WaiverRecord) (w : WaiverRecord) (expires : ℕ)
      (next : Dict WaiverRecord)
      → parse_timestamp w.expires_at ≡ ok expires
      → next_active as_of active w expires ≡ ok next
      → (get k next ≡ otherwise (get k active) (if holds as_of k w then some w else none))
        × (present (get k next) ≡ present (get k active) + (if holds as_of k w then 1 else 0))
  round-get k as_of active w expires next e h = elim (Bool-cases (ltb expires as_of)) [
    | inl late ↦
        let same : active ≡ next = kept (rw late at h) in
        subst
          (λ d.
            (get k d ≡ otherwise (get k active) (if holds as_of k w then some w else none))
            × (present (get k d) ≡ present (get k active) + (if holds as_of k w then 1 else 0)))
          same (ground (arith), ground (arith))
    | inr lasting ↦ elim (Option-cases (get w.finding_id active)) [
      | inl absent ↦
          let same : put w.finding_id w active ≡ next = kept (rw (lasting, absent) at h) in
          subst
            (λ d.
              (get k d ≡ otherwise (get k active) (if holds as_of k w then some w else none))
              × (present (get k d) ≡ present (get k active) + (if holds as_of k w then 1 else 0)))
            same
            (
              ground (arith, get-put w.finding_id k w active, eq_iff w.finding_id k),
              ground (arith, get-put w.finding_id k w active, eq_iff w.finding_id k),
            )
      | inr (x, there) ↦ absurd (never (rw (lasting, there) at h))
    ]
  ]
    where
      kept : {a b : Dict WaiverRecord} → ◌≡◌ {A = Result (Dict WaiverRecord)} (ok a) (ok b) → a ≡ b
      kept q = cc

      never :
          {b : Dict WaiverRecord}
          → ◌≡◌ {A = Result (Dict WaiverRecord)} (err value_error) (ok b)
          → ⊥
      never q = cc

  select_from-get :
      (k : String) (as_of : ℕ) (active : Dict WaiverRecord) (ws : List WaiverRecord)
      {final : Dict WaiverRecord}
      → select_from parse_timestamp as_of active ws ≡ ok final
      → (get k final ≡ otherwise (get k active) (first (holds as_of k) ws))
        × (present (get k final) ≡ present (get k active) + count_by (holds as_of k) ws)
  unfolding select_from
  select_from-get k as_of active [] {final} h =
      subst
        (Ensures (λ d.
          (get k d ≡ otherwise (get k active) none)
          × (present (get k d) ≡ present (get k active) + 0)))
        h (ground arith, omega arith)
  select_from-get k as_of active (w ∷ ws) h =
      let (expires, e, h1) = >>=-eq-ok (parse_timestamp w.expires_at) _ h in
      let (next, n, h2) =
        >>=-eq-ok (next_active as_of active w expires) (λ d. select_from parse_timestamp as_of d ws)
          h1 in
      let (g, c) = round-get k as_of active w expires next e n in
      let (g', c') = select_from-get k as_of next ws h2 in
      (ground (arith, g, g'), ground (arith, c, c'))

  -- The active waiver of a finding is the first that names it and has not expired, and there is
  -- at most one such waiver.
  pub select_active_waivers-get :
      (ws : List WaiverRecord) (audit_timestamp : String) (as_of : ℕ) {active : Dict WaiverRecord}
      → parse_timestamp audit_timestamp ≡ ok as_of
      → select_active_waivers parse_timestamp ws audit_timestamp ≡ ok active
      → (k : String) → (get k active ≡ first (holds as_of k) ws) × (count_by (holds as_of k) ws ≤ 1)
  unfolding select_active_waivers get
  select_active_waivers-get ws audit_timestamp as_of {active} e h k =
      let (g, c) = select_from-get k as_of [] ws (rw e at h) in (g, at_most_one (get k active) c)
    where
      at_most_one : (o : Option WaiverRecord) {n : ℕ} → present o ≡ 0 + n → n ≤ 1
      at_most_one none q = omega arith
      at_most_one (some w) q = omega arith
