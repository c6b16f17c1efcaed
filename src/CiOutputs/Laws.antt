-- ===== src/CiOutputs/Laws.antt =====
-- What a CI summary warns of.
use standards_control_plane.CiOutputs.Warnings.{
  CiWarning, confidence_meets_threshold, confidence_order, finding_warning, regression_warning,
  warning_to_dict,
}
use standards_control_plane.Prelude.{
  >>=-eq-ok, Bool, Bool-cases, Ensures, List, Option, String, [], ap, false, filter, guard,
  if◌then◌else◌, inl, inr, key_error, leb, map, none, ok, or_raise, refl, some, subst, sym, true,
  value_error, ℕ, ◌&&◌, ◌+◌, ◌>>=◌, ◌∙◌, ◌∷◌, ◌≡◌,
}
use standards_control_plane.Json.{Schemas, validate_with_schema}
use standards_control_plane.Findings.{FindingRecord}
use standards_control_plane.CiOutputs.{
  Thresholds, add, checked, concerns, finding_warnings, regression_warnings, warn_of,
}

abbrev at_least : Option ℕ → Option ℕ → Bool
at_least none b = false
at_least (some a) none = false
at_least (some a) (some b) = leb b a

module _ (accepts : Schemas) (thresholds : Thresholds) where
  -- The finding is open, of a severity and a confidence that are to be warned of.
  abbrev pub qualifies : FindingRecord → Bool
  qualifies f =
      concerns accepts thresholds f
      && at_least (confidence_order f.confidence_class)
          (confidence_order thresholds.minimum_confidence_class)

  checked_ok : (w v : CiWarning) → checked accepts thresholds w ≡ ok v → v ≡ w
  unfolding validate_with_schema checked
  checked_ok w v h =
      let (_, _, e) =
        >>=-eq-ok (guard (accepts "ci-warning.schema.json" (warning_to_dict w)) value_error) _ h in
      subst (Ensures (λ u. u ≡ w)) e refl

  meets_lem :
      (a b : String) {m : Bool}
      → confidence_meets_threshold a b ≡ ok m
      → m ≡ at_least (confidence_order a) (confidence_order b)
  unfolding confidence_meets_threshold
  meets_lem a b h = ranks (confidence_order a) (confidence_order b) h
    where
      ranks :
          (x y : Option ℕ) {m : Bool}
          → (or_raise key_error x >>= λ i. or_raise key_error y >>= λ j. ok (leb j i)) ≡ ok m
          → m ≡ at_least x y
      ranks none y e = cc
      ranks (some i) none e = cc
      ranks (some i) (some j) e = cc

  abbrev warned : FindingRecord → Option CiWarning
  warned f = if qualifies f then some (finding_warning f) else none

  warn_of_lem :
      (f : FindingRecord) {o : Option CiWarning}
      → warn_of accepts thresholds f ≡ ok o
      → o ≡ warned f
  unfolding warn_of
  warn_of_lem f {o} h = elim (Bool-cases (concerns accepts thresholds f)) [
    | inr n ↦ rw n (subst (Ensures (λ u. u ≡ none)) (rw n at h) refl)
    | inl c ↦
        let (m, e, rest) =
          >>=-eq-ok
            (confidence_meets_threshold f.confidence_class thresholds.minimum_confidence_class) _
            (rw c at h) in
        rw c (
          warned_if m o (sym (meets_lem f.confidence_class thresholds.minimum_confidence_class e))
            rest)
  ]
    where
      warned_if :
          (m : Bool) (u : Option CiWarning)
          → at_least
              (confidence_order f.confidence_class)
              (confidence_order thresholds.minimum_confidence_class)
            ≡ m
          → (if m
              then checked accepts thresholds (finding_warning f) >>= (λ w. ok (some w))
              else ok none)
            ≡ ok u
          → u ≡ (
              if at_least
                (confidence_order f.confidence_class)
                (confidence_order thresholds.minimum_confidence_class)
              then some (finding_warning f)
              else none)
      warned_if true u e r =
          let (w, k, s) = >>=-eq-ok (checked accepts thresholds (finding_warning f)) _ r in
          let same = checked_ok (finding_warning f) w k in
          rw e (subst (Ensures (λ x. x ≡ some (finding_warning f))) s (ap some same))
      warned_if false u e r = rw e (subst (Ensures (λ x. x ≡ none)) r refl)

  add-warned :
      (f : FindingRecord) (rest : List FindingRecord)
      → add accepts thresholds (warned f) (map finding_warning (filter qualifies rest))
        ≡ map finding_warning (filter qualifies (f ∷ rest))
  add-warned f rest = elim (Bool-cases (qualifies f)) [ inl y ↦ rw y refl | inr n ↦ rw n refl ]

  -- The findings that are warned of are those that qualify, in their order.
  pub finding_warnings_lem :
      (fs : List FindingRecord) {ws : List CiWarning}
      → finding_warnings accepts thresholds fs ≡ ok ws
      → ws ≡ map finding_warning (filter qualifies fs)
  unfolding finding_warnings
  finding_warnings_lem [] h = subst (Ensures (λ u. u ≡ [])) h refl
  finding_warnings_lem (f ∷ rest) h =
      let (o, one, h1) = >>=-eq-ok (warn_of accepts thresholds f) _ h in
      let (others, more, h2) = >>=-eq-ok (finding_warnings accepts thresholds rest) _ h1 in
      subst (Ensures (λ u. u ≡ map finding_warning (filter qualifies (f ∷ rest)))) h2 (
        ap (λ x. add accepts thresholds x others) (warn_of_lem f one)
        ∙ ap (add accepts thresholds (warned f)) (finding_warnings_lem rest more)
        ∙ add-warned f rest)

  abbrev pub numbered : ℕ → List String → List CiWarning
  numbered index [] = []
  numbered index (r ∷ rest) = regression_warning r index ∷ numbered (index + 1) rest

  pub regression_warnings_lem :
      (index : ℕ) (rs : List String) {ws : List CiWarning}
      → regression_warnings accepts thresholds index rs ≡ ok ws
      → ws ≡ numbered index rs
  unfolding regression_warnings
  regression_warnings_lem index [] h = subst (Ensures (λ u. u ≡ [])) h refl
  regression_warnings_lem index (r ∷ rest) h =
      let (w, one, h1) = >>=-eq-ok (checked accepts thresholds (regression_warning r index)) _ h in
      let (others, more, h2) =
        >>=-eq-ok (regression_warnings accepts thresholds (index + 1) rest) _ h1 in
      subst (Ensures (λ u. u ≡ numbered index (r ∷ rest))) h2 (
        ap (λ x. x ∷ others) (checked_ok (regression_warning r index) w one)
        ∙ ap (λ l. regression_warning r index ∷ l) (regression_warnings_lem (index + 1) rest more))
