-- ===== src/Artifacts/Atomic.antt =====
-- `write_artifacts_atomic` leaves all files new or all files old.
use standards_control_plane.Prelude.{
  Bool, Bool-cases, List, Option, [], any, ap, arith, false, if◌then◌else◌, inl, inr, length, map,
  none, not, refl, some, take, true, ◌&&◌, ◌∷◌, ◌≡◌, ◌⊎◌,
}
use standards_control_plane.Artifacts.{
  Slot, StageFault, at_backup, at_staging, cleanup, commit_all, later_faults, next_fault, no_fault,
  restore_all, restored, slots_of, stage, stage_all, stage_backup, stage_one,
  write_artifacts_atomic,
}

abbrev pub is_clear : StageFault → Bool
is_clear no_fault = true
is_clear at_staging = false
is_clear at_backup = false

module _ {ℓ} {C : Type ℓ} where
  -- The files once everything is written, and the files as they were; no temporary file is left.
  abbrev pub all_new : List (Slot C × C) → List (Slot C)
  all_new [] = []
  all_new ((s, content) ∷ rest) =
      record { target = some content; staged = none; backup = none } ∷ all_new rest

  abbrev pub all_old : List (Slot C × C) → List (Slot C)
  all_old [] = []
  all_old ((s, content) ∷ rest) =
      record { target = s.target; staged = none; backup = none } ∷ all_old rest

  -- The files once all are staged.
  abbrev pub all_staged : List (Slot C × C) → List (Slot C)
  all_staged [] = []
  all_staged ((s, content) ∷ rest) = stage_backup (stage content s) ∷ all_staged rest

  put_back :
      (old now staged : Option C)
      → cleanup (restored old (record { target = now; staged = staged; backup = old }))
        ≡ record { target = old; staged = none; backup = none }
  put_back none now staged = refl
  put_back (some c) now staged = refl

  restore_all-none :
      (xs : List (Slot C × C)) → map cleanup (restore_all [] (all_staged xs)) ≡ all_old xs
  unfolding restore_all
  restore_all-none [] = refl
  restore_all-none ((s, c) ∷ rest) =
      λ i. put_back s.target s.target (some c) i ∷ restore_all-none rest i

  commit_all-none :
      (xs : List (Slot C × C))
      → ((commit_all [] (all_staged xs)).0 ≡ true)
        × (map cleanup (commit_all [] (all_staged xs)).1 ≡ all_new xs)
  unfolding commit_all
  commit_all-none [] = (refl, refl)
  commit_all-none ((s, c) ∷ rest) =
      let (done, new) = commit_all-none rest in
      (done, ap (λ l. record { target = some c; staged = none; backup = none } ∷ l) new)

  abbrev Outcome : List Bool → List (Slot C × C) → Type ℓ
  Outcome faults xs =
      ((commit_all faults (all_staged xs)).0 ≡ true)
        × (map cleanup (commit_all faults (all_staged xs)).1 ≡ all_new xs)
      ⊎ ((commit_all faults (all_staged xs)).0 ≡ false)
        × (map cleanup (restore_all [] (commit_all faults (all_staged xs)).1) ≡ all_old xs)

  commit_all-Outcome : (faults : List Bool) (xs : List (Slot C × C)) → Outcome faults xs
  unfolding commit_all restore_all
  commit_all-Outcome faults [] = inl (refl, refl)
  commit_all-Outcome [] ((s, c) ∷ rest) = inl (commit_all-none ((s, c) ∷ rest))
  commit_all-Outcome (true ∷ faults) ((s, c) ∷ rest) = inr (refl, restore_all-none ((s, c) ∷ rest))
  commit_all-Outcome (false ∷ faults) ((s, c) ∷ rest) = elim (commit_all-Outcome faults rest) [
    | inl (done, new) ↦
        inl (done, ap (λ l. record { target = some c; staged = none; backup = none } ∷ l) new)
    | inr (failed, old) ↦ inr (failed, λ i. put_back s.target (some c) none i ∷ old i)
  ]

  -- Some replacement that the loop reaches fails.
  abbrev pub some_fault : List Bool → List (Slot C × C) → Bool
  some_fault faults targets = any (λ b. b) (take (length targets) faults)

  commit_all-done :
      (faults : List Bool) (xs : List (Slot C × C))
      → (commit_all faults (all_staged xs)).0 ≡ not (some_fault faults xs)
  unfolding commit_all
  commit_all-done [] [] = refl
  commit_all-done (b ∷ faults) [] = refl
  commit_all-done [] (x ∷ rest) = (commit_all-none rest).0
  commit_all-done (true ∷ faults) (x ∷ rest) = refl
  commit_all-done (false ∷ faults) (x ∷ rest) = commit_all-done faults rest

  -- Every content passes its schema, and no staging raises.
  abbrev pub stages : (C → Bool) → List StageFault → List (Slot C × C) → Bool
  stages is_valid fs [] = true
  stages is_valid fs ((s, content) ∷ rest) =
      (is_valid content && is_clear (next_fault fs)) && stages is_valid (later_faults fs) rest

  abbrev pub targets_of : List (Slot C) → List (Option C)
  targets_of = map λ (s : Slot C). s.target

  module _ (is_valid : C → Bool) where
    stage_one-clear :
        (f : StageFault) (s : Slot C) (c : C)
        → (is_valid c && is_clear f) ≡ true
        → stage_one is_valid f s c ≡ (true, stage_backup (stage c s))
    unfolding stage_one
    stage_one-clear no_fault s c h = elim (Bool-cases (is_valid c)) [
      | inl e ↦ rw e refl
      | inr n ↦ cc (rw n at h)
    ]
    stage_one-clear at_staging s c h = absurd (ground arith)
    stage_one-clear at_backup s c h = absurd (ground arith)

    stage_one-raises :
        (f : StageFault) (s : Slot C) (c : C)
        → (is_valid c && is_clear f) ≡ false
        → (stage_one is_valid f s c).0 ≡ false
    unfolding stage_one
    stage_one-raises no_fault s c h = elim (Bool-cases (is_valid c)) [
      | inl e ↦ cc (rw e at h)
      | inr n ↦ rw n refl
    ]
    stage_one-raises at_staging s c h = refl
    stage_one-raises at_backup s c h = refl

    stage_one-target :
        (f : StageFault) (s : Slot C) (c : C) → (stage_one is_valid f s c).1.target ≡ s.target
    unfolding stage_one
    stage_one-target no_fault s c = elim (Bool-cases (is_valid c)) [
      | inl e ↦ rw e refl
      | inr n ↦ rw n refl
    ]
    stage_one-target at_staging s c = refl
    stage_one-target at_backup s c = elim (Bool-cases (is_valid c)) [
      | inl e ↦ rw e refl
      | inr n ↦ rw n refl
    ]

    stage_all-staged :
        (fs : List StageFault) (xs : List (Slot C × C))
        → stages is_valid fs xs ≡ true
        → stage_all is_valid fs xs ≡ (true, all_staged xs)
    unfolding stage_all
    stage_all-staged fs [] h = refl
    stage_all-staged fs ((s, c) ∷ rest) h =
        rw (stage_one-clear (next_fault fs) s c (ground arith))
          (rw (stage_all-staged (later_faults fs) rest (ground arith)) refl)

    stage_all-raises :
        (fs : List StageFault) (xs : List (Slot C × C))
        → stages is_valid fs xs ≡ false
        → (stage_all is_valid fs xs).0 ≡ false
    unfolding stage_all
    stage_all-raises fs [] h = cc
    stage_all-raises fs ((s, c) ∷ rest) h =
        elim (Bool-cases (stage_one is_valid (next_fault fs) s c).0) [
          | inl e ↦ rw e (
              stage_all-raises (later_faults fs) rest
                (ground (arith, stage_one-raises (next_fault fs) s c)))
          | inr n ↦ rw n refl
        ]

    stage_all-targets :
        (fs : List StageFault) (xs : List (Slot C × C))
        → targets_of (stage_all is_valid fs xs).1 ≡ targets_of (slots_of xs)
    unfolding stage_all
    stage_all-targets fs [] = refl
    stage_all-targets fs ((s, c) ∷ rest) =
        elim (Bool-cases (stage_one is_valid (next_fault fs) s c).0) [
          | inl e ↦ rw e (λ i.
              stage_one-target (next_fault fs) s c i ∷ stage_all-targets (later_faults fs) rest i)
          | inr n ↦
              rw n (ap (λ t. t ∷ targets_of (slots_of rest)) (stage_one-target (next_fault fs) s c))
        ]

    -- If every content passes its schema, no staging raises and putting back does not fail, then
    -- either no replacement fails, the call returns and every file is new, or one fails, the call
    -- raises and every file is as before; no temporary file is left in either case. If a content
    -- fails its schema or a staging raises, the call raises and every file is as before, but what
    -- was staged may stay.
    pub write_artifacts_atomic_outcome :
        (stage_faults : List StageFault) (faults restore_faults : List Bool)
        (targets : List (Slot C × C))
        → (stages is_valid stage_faults targets ≡ true)
            × (write_artifacts_atomic is_valid stage_faults faults [] targets ≡ (
                if some_fault faults targets
                then (false, all_old targets)
                else (true, all_new targets)))
          ⊎ (stages is_valid stage_faults targets ≡ false)
            × ((write_artifacts_atomic is_valid stage_faults faults restore_faults targets).0
                ≡ false)
            × (targets_of
                  (write_artifacts_atomic is_valid stage_faults faults restore_faults targets).1
                ≡ targets_of (slots_of targets))
    unfolding write_artifacts_atomic
    write_artifacts_atomic_outcome stage_faults faults restore_faults targets =
        elim (Bool-cases (stages is_valid stage_faults targets)) [
          | inl h ↦ inl (h, rw (stage_all-staged stage_faults targets h) replaced)
          | inr h ↦
              let raises = stage_all-raises stage_faults targets h in
              inr (h, rw raises refl, rw raises (stage_all-targets stage_faults targets))
        ]
      where
        replaced :
            (let (done, slots) = commit_all faults (all_staged targets) in
              ◌≡◌ {A = Bool × List (Slot C)}
                (done, map cleanup (if done then slots else restore_all [] slots))
                (if some_fault faults targets
                  then (false, all_old targets)
                  else (true, all_new targets)))
        replaced = elim (commit_all-Outcome faults targets) [
          | inl (done, new) ↦ ground (arith, done, new, commit_all-done faults targets)
          | inr (failed, old) ↦ ground (arith, failed, old, commit_all-done faults targets)
        ]
