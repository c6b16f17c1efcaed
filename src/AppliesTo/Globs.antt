-- ===== src/AppliesTo/Globs.antt =====
-- `match_segments` decides the meaning of a glob.
use standards_control_plane.Prelude.{
  ==-false, Bool, Bool-cases, List, String, [], any, arith, eq_iff, false, if◌then◌else◌, inl, inr,
  refl, subst, sym, true, ◌&&◌, ◌==◌, ◌↔◌, ◌∷◌, ◌≡◌, ◌≢◌,
}
use standards_control_plane.AppliesTo.{collapse_from, match, match_segments, suffixes}

module _ (fnmatchcase : String → String → Bool) where
  -- `**` stands for any run of whole segments, any other part for one segment that it matches.
  pub data Matches : List String → List String → Type 0 where
    done : Matches [] []
    segment :
        {x p : String} {xs ps : List String}
        → p ≢ "**"
        → fnmatchcase x p ≡ true
        → Matches xs ps
        → Matches (x ∷ xs) (p ∷ ps)
    none_more : {p : String} {xs ps : List String} → p ≡ "**" → Matches xs ps → Matches xs (p ∷ ps)
    one_more :
        {p x : String} {xs ps : List String}
        → p ≡ "**"
        → Matches xs (p ∷ ps)
        → Matches (x ∷ xs) (p ∷ ps)

  stars_any :
      (p : String) (ps xs : List String)
      → p ≡ "**"
      → ((rest : List String) → match fnmatchcase rest ps ≡ true → Matches rest ps)
      → any (λ rest. match fnmatchcase rest ps) (suffixes xs) ≡ true
      → Matches xs (p ∷ ps)
  stars_any p ps [] e k h = none_more e (k [] (ground arith))
  stars_any p ps (x ∷ xs) e k h = elim (Bool-cases (match fnmatchcase (x ∷ xs) ps)) [
    | inl m ↦ none_more e (k (x ∷ xs) m)
    | inr n ↦ one_more e (stars_any p ps xs e k (rw n at h))
  ]

  match-Matches : (xs ps : List String) → match fnmatchcase xs ps ≡ true → Matches xs ps
  unfolding match
  match-Matches [] [] h = done
  match-Matches (x ∷ xs) [] h = cc
  match-Matches [] (p ∷ ps) h = elim (Bool-cases (p == "**")) [
    | inl e ↦ stars_any p ps [] ((eq_iff p "**").0 e) (λ rest. match-Matches rest ps) (rw e at h)
    | inr n ↦ cc
  ]
  match-Matches (x ∷ xs) (p ∷ ps) h = elim (Bool-cases (p == "**")) [
    | inl e ↦
        stars_any p ps (x ∷ xs) ((eq_iff p "**").0 e) (λ rest. match-Matches rest ps) (rw e at h)
    | inr n ↦
        let both : (fnmatchcase x p && match fnmatchcase xs ps) ≡ true = rw n at h in
        segment (λ q. cc (n, (eq_iff p "**").1 q)) (ground arith)
          (match-Matches xs ps (ground arith))
  ]

  here :
      (xs ps : List String)
      → match fnmatchcase xs ps ≡ true
      → any (λ rest. match fnmatchcase rest ps) (suffixes xs) ≡ true
  here [] ps h = ground arith
  here (x ∷ xs) ps h = ground arith

  stars_of_match :
      (p : String) (ps xs : List String)
      → p ≡ "**"
      → match fnmatchcase xs (p ∷ ps) ≡ true
      → any (λ rest. match fnmatchcase rest ps) (suffixes xs) ≡ true
  unfolding match
  stars_of_match p ps [] e h = rw ((eq_iff p "**").1 e) at h
  stars_of_match p ps (x ∷ xs) e h = rw ((eq_iff p "**").1 e) at h

  Matches-match : {xs ps : List String} → Matches xs ps → match fnmatchcase xs ps ≡ true
  unfolding match
  Matches-match done = refl
  Matches-match (segment {p = p} n f m) = rw (==-false p "**" n, f) (Matches-match m)
  Matches-match (none_more {p = p} {xs = xs} {ps = ps} e m) =
      rw ((eq_iff p "**").1 e) (here xs ps (Matches-match m))
  Matches-match (one_more {p = p} {x = x} {xs = xs} {ps = ps} e m) =
      let below = stars_of_match p ps xs e (Matches-match m) in
      rw ((eq_iff p "**").1 e) (ground arith)

  cons_mono :
      {xs before after : List String} {p : String}
      → ((ys : List String) → Matches ys before → Matches ys after)
      → Matches xs (p ∷ before)
      → Matches xs (p ∷ after)
  cons_mono k (segment n f m) = segment n f (k _ m)
  cons_mono k (none_more e m) = none_more e (k _ m)
  cons_mono k (one_more e m) = one_more e (cons_mono k m)

  merge_stars :
      {xs ps : List String} {p q : String}
      → q ≡ "**"
      → p ≡ "**"
      → Matches xs (p ∷ q ∷ ps)
      → Matches xs (q ∷ ps)
  merge_stars e e' (segment n f m) = absurd (n e')
  merge_stars e e' (none_more _ m) = m
  merge_stars e e' (one_more _ m) = one_more e (merge_stars e e' m)

  abbrev behind : Bool → List String → List String
  behind last ps = if last then "**" ∷ ps else ps

  collapse_to :
      (last : Bool) (ps xs : List String)
      → Matches xs (behind last (collapse_from last ps))
      → Matches xs (behind last ps)
  unfolding collapse_from
  collapse_to true [] xs m = m
  collapse_to false [] xs m = m
  collapse_to true (p ∷ ps) xs m = elim (Bool-cases (p == "**")) [
    | inl e ↦
        cons_mono (λ ys k. none_more ((eq_iff p "**").0 e) k) (collapse_to true ps xs (rw e at m))
    | inr n ↦ cons_mono (λ ys k. cons_mono (λ zs l. collapse_to false ps zs l) k) (rw n at m)
  ]
  collapse_to false (p ∷ ps) xs m = elim (Bool-cases (p == "**")) [
    | inl e ↦
        subst (λ t. Matches xs (t ∷ ps)) (sym ((eq_iff p "**").0 e))
          (collapse_to true ps xs
            (subst (λ t. Matches xs (t ∷ collapse_from true ps)) ((eq_iff p "**").0 e) (rw e at m)))
    | inr n ↦ cons_mono (λ ys k. collapse_to false ps ys k) (rw n at m)
  ]

  collapse_of :
      (last : Bool) (ps xs : List String)
      → Matches xs (behind last ps)
      → Matches xs (behind last (collapse_from last ps))
  unfolding collapse_from
  collapse_of true [] xs m = m
  collapse_of false [] xs m = m
  collapse_of true (p ∷ ps) xs m = elim (Bool-cases (p == "**")) [
    | inl e ↦
        let star = (eq_iff p "**").0 e in
        rw e
          (collapse_of true ps xs (subst (λ t. Matches xs (t ∷ ps)) star (merge_stars star refl m)))
    | inr n ↦ rw n (cons_mono (λ ys k. cons_mono (λ zs l. collapse_of false ps zs l) k) m)
  ]
  collapse_of false (p ∷ ps) xs m = elim (Bool-cases (p == "**")) [
    | inl e ↦
        let star = (eq_iff p "**").0 e in
        rw e (
          subst (λ t. Matches xs (t ∷ collapse_from true ps)) (sym star)
            (collapse_of true ps xs (subst (λ t. Matches xs (t ∷ ps)) star m)))
    | inr n ↦ rw n (cons_mono (λ ys k. collapse_of false ps ys k) m)
  ]

  -- The matcher answers yes exactly for the paths that the glob means.
  pub match_segments_iff :
      (xs ps : List String) → (match_segments fnmatchcase xs ps ≡ true) ↔ Matches xs ps
  unfolding match_segments
  match_segments_iff xs ps = (
    λ h. collapse_to false ps xs (match-Matches xs (collapse_from false ps) h),
    λ m. Matches-match (collapse_of false ps xs m),
  )
