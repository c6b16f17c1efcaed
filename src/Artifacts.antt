-- ===== src/Artifacts.antt =====
-- The atomic writer of ci_outputs.py: targets are staged beside their files, put in place by
-- `os.replace`, and put back from copies if one replacement fails. Whether a content passes its
-- schema (a text always does), and where staging and replacing raise, are arguments.
pub mod Atomic
use standards_control_plane.Prelude.{
  Bool, List, Option, [], false, if◌then◌else◌, map, none, some, true, ◌∷◌,
}

-- Where the staging of a target raises, if anywhere: before its temporary file is there, or at the
-- copy of the old file.
pub data StageFault : Type 0 where
  no_fault at_staging at_backup : StageFault

abbrev pub next_fault : List StageFault → StageFault
next_fault [] = no_fault
next_fault (f ∷ fs) = f

abbrev pub later_faults : List StageFault → List StageFault
later_faults [] = []
later_faults (f ∷ fs) = fs

-- One target: what its file holds, and the two temporary files beside it.
pub record Slot {ℓ} (C : Type ℓ) : Type ℓ where
  pub target : Option C
  pub staged : Option C
  pub backup : Option C

module _ {ℓ} {C : Type ℓ} where
  -- `_stage_text`, `_stage_json`
  abbrev pub stage : C → Slot C → Slot C
  stage content s = record s { staged = some content }

  -- `_stage_backup`
  abbrev pub stage_backup : Slot C → Slot C
  stage_backup s = record s { backup = s.target }

  -- `os.replace(staged_path, target_path)`
  abbrev pub commit : Slot C → Slot C
  commit s = record s { target = s.staged; staged = none }

  -- `os.replace(backup_path, target_path)`, or the removal of a file that was not there before.
  abbrev pub restored : Option C → Slot C → Slot C
  restored none s = record s { target = none }
  restored (some c) s = record s { target = some c; backup = none }

  abbrev pub restore : Slot C → Slot C
  restore s = restored s.backup s

  -- `_cleanup` of both temporary files
  abbrev pub cleanup : Slot C → Slot C
  cleanup s = record s { staged = none; backup = none }

  -- One step of the loop that stages: whether it returned, and the target's files.
  unfoldable pub stage_one : (C → Bool) → StageFault → Slot C → C → Bool × Slot C
  stage_one is_valid at_staging s content = (false, s)
  stage_one is_valid at_backup s content = (false, if is_valid content then stage content s else s)
  stage_one is_valid no_fault s content =
      if is_valid content then (true, stage_backup (stage content s)) else (false, s)

  abbrev pub slots_of : List (Slot C × C) → List (Slot C)
  slots_of = map λ p. p.0

  -- The loop that stages every target; it stands before the `try`, so that what it has staged when
  -- a step raises stays.
  unfoldable pub stage_all : (C → Bool) → List StageFault → List (Slot C × C) → Bool × List (Slot C)
  unfolding stage_one
  stage_all is_valid faults [] = (true, [])
  stage_all is_valid faults ((s, content) ∷ rest) =
      let (staged, s') = stage_one is_valid (next_fault faults) s content in
      let (done, rest') = stage_all is_valid (later_faults faults) rest in
      if staged then (done, s' ∷ rest') else (false, s' ∷ slots_of rest)

  -- The loop of replacements. A fault makes a replacement raise, and the rest is not reached.
  unfoldable pub commit_all : List Bool → List (Slot C) → Bool × List (Slot C)
  commit_all faults [] = (true, [])
  commit_all [] (s ∷ rest) = let (done, rest') = commit_all [] rest in (done, commit s ∷ rest')
  commit_all (true ∷ faults) (s ∷ rest) = (false, s ∷ rest)
  commit_all (false ∷ faults) (s ∷ rest) =
      let (done, rest') = commit_all faults rest in (done, commit s ∷ rest')

  -- The loop of the handler. Only a replacement can fail here.
  unfoldable pub restore_all : List Bool → List (Slot C) → List (Slot C)
  restore_all faults [] = []
  restore_all [] (s ∷ rest) = restore s ∷ restore_all [] rest
  restore_all (true ∷ faults) (s ∷ rest) = s ∷ rest
  restore_all (false ∷ faults) (s ∷ rest) = restore s ∷ restore_all faults rest

  -- `_write_artifacts_atomic`: whether it returned, and the files.
  unfoldable pub write_artifacts_atomic :
      (C → Bool)
      → List StageFault
      → List Bool
      → List Bool
      → List (Slot C × C)
      → Bool × List (Slot C)
  unfolding stage_all commit_all restore_all
  write_artifacts_atomic is_valid stage_faults faults restore_faults targets =
      let (staged, slots) = stage_all is_valid stage_faults targets in
      let (done, slots') = commit_all faults slots in
      if staged
      then (done, map cleanup (if done then slots' else restore_all restore_faults slots'))
      else (false, slots)
