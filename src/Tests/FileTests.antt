-- ===== src/Tests/FileTests.antt =====
-- Paths, globs and the writers of files at small inputs.
use standards_control_plane.Paths.{
  Location, is_absolute, parts, paths_overlap, resolve_repo_path, split, with_slashes,
}
use standards_control_plane.Paths.Overlap.{IsEnd, paths_overlap_iff}
use standards_control_plane.Paths.Resolve.{depth_after, resolve_repo_path_confined}
use standards_control_plane.AppliesTo.{match_segments}
use standards_control_plane.AppliesTo.Globs.{Matches, match_segments_iff}
use standards_control_plane.Artifacts.{Slot, no_fault, slots_of, write_artifacts_atomic}
use standards_control_plane.Artifacts.Atomic.{
  all_new, all_old, some_fault, stages, targets_of, write_artifacts_atomic_outcome,
}
use standards_control_plane.Findings.Write.{Faults, write_findings_stores}
use standards_control_plane.Findings.Write.Atomic.{
  plain, write_findings_stores_loses, write_findings_stores_outcome,
}
use standards_control_plane.Findings.{store_to_dict}
use standards_control_plane.Json.{str}
use standards_control_plane.Tests.Samples.{files, store}
use standards_control_plane.Prelude.{
  Bool, List, Option, String, [], err, false, if◌then◌else◌, ltb, none, ok, os_error, refl, some,
  true, ℕ, ◌++◌, ◌==◌, ◌||◌, ◌↔◌, ◌∷◌, ◌≡◌, ◌≢◌, ◌⊎◌,
}

paths_overlap_iff_example : (paths_overlap "src/app.py" "app.py" ≡ true) ↔ (
    IsEnd (with_slashes "app.py") (with_slashes "src/app.py")
    ⊎ IsEnd (with_slashes "src/app.py") (with_slashes "app.py"))
paths_overlap_iff_example = paths_overlap_iff "src/app.py" "app.py"

abbrev place : Location
place = "app.py" ∷ "src" ∷ "repo" ∷ "srv" ∷ []

place-sample : resolve_repo_path files "src/../src/app.py" ≡ ok place
unfolding resolve_repo_path
place-sample = refl

resolve_repo_path_confined_example :
    ((below : Location) × (place ≡ below ++ files.project_root)) × (files.exists place ≡ true)
resolve_repo_path_confined_example =
    resolve_repo_path_confined files "src/../src/app.py" place place-sample

relative-sample : is_absolute (split "src/app.py") ≡ false
unfolding split
relative-sample = refl

some-none : {A : Type 0} {x : A} → ◌≡◌ {A = Option A} (some x) none → ⊥
some-none e = cc

stays-sample : depth_after 0 (parts "src/app.py") ≢ none
unfolding parts depth_after
stays-sample = some-none

-- A part that is the segment itself, or `*`.
abbrev simple_match : String → String → Bool
simple_match segment' p = p == "*" || segment' == p

match_segments_iff_example :
    (match_segments simple_match ("src" ∷ "a" ∷ "app.py" ∷ []) ("src" ∷ "**" ∷ "*" ∷ []) ≡ true)
    ↔ Matches simple_match ("src" ∷ "a" ∷ "app.py" ∷ []) ("src" ∷ "**" ∷ "*" ∷ [])
match_segments_iff_example =
    match_segments_iff simple_match ("src" ∷ "a" ∷ "app.py" ∷ []) ("src" ∷ "**" ∷ "*" ∷ [])

abbrev targets : List (Slot ℕ × ℕ)
targets =
    (record { target = some 1; staged = none; backup = none }, 2)
    ∷ (record { target = none; staged = none; backup = none }, 3)
    ∷ []

write_artifacts_atomic_outcome_example :
    (stages (λ c. ltb c 9) (no_fault ∷ []) targets ≡ true)
      × (write_artifacts_atomic (λ c. ltb c 9) (no_fault ∷ []) (false ∷ true ∷ []) [] targets ≡ (
          if some_fault (false ∷ true ∷ []) targets
          then (false, all_old targets)
          else (true, all_new targets)))
    ⊎ (stages (λ c. ltb c 9) (no_fault ∷ []) targets ≡ false)
      × ((write_artifacts_atomic (λ c. ltb c 9) (no_fault ∷ []) (false ∷ true ∷ []) [] targets).0
          ≡ false)
      × (targets_of
            (write_artifacts_atomic (λ c. ltb c 9) (no_fault ∷ []) (false ∷ true ∷ []) [] targets).1
          ≡ targets_of (slots_of targets))
write_artifacts_atomic_outcome_example =
    write_artifacts_atomic_outcome (λ c. ltb c 9) (no_fault ∷ []) (false ∷ true ∷ []) [] targets

-- A second content that fails its schema leaves the first target as it was, with what was staged.
invalid-sample : write_artifacts_atomic (λ c. ltb c 3) [] [] [] targets ≡ (
  false,
  record { target = some 1; staged = some 2; backup = some 1 }
      ∷ record { target = none; staged = none; backup = none }
      ∷ [],
)
unfolding write_artifacts_atomic
invalid-sample = refl

abbrev faults : Bool → Bool → Faults
faults commit_history restore_open = record {
  commit_open = false;
  commit_history = commit_history;
  restore_open = restore_open;
  restore_history = false;
}

write_findings_stores_outcome_example :
    write_findings_stores (λ name value. true) (faults true false) store store (plain none none)
    ≡ (err os_error, plain none none)
write_findings_stores_outcome_example =
    write_findings_stores_outcome (λ name value. true) store store refl refl (faults true false)
      none none refl refl

write_findings_stores_loses_example :
    write_findings_stores
      (λ name value. true)
      (faults true true)
      store
      store
      (plain (some (str "old")) none)
    ≡ (err os_error, plain (some (store_to_dict store)) none)
write_findings_stores_loses_example =
    write_findings_stores_loses (λ name value. true) store store refl refl (faults true true)
      (str "old") none refl refl refl
