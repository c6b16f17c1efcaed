-- ===== src/Findings/Write.antt =====
-- `write_findings_stores` of findings.py: the open store and the history are replaced together.
pub mod Atomic
use standards_control_plane.Prelude.{
  Bool, Result, err, false, if◌then◌else◌, none, ok, os_error, some, true, ◌>>=◌, ◌>>◌,
}
use standards_control_plane.Json.{Schemas, Value, validate_with_schema}
use standards_control_plane.Artifacts.{Slot, cleanup, commit, restore, stage, stage_backup}
use standards_control_plane.Findings.{FindingsStore, store_to_dict}

-- The two files and their temporary files.
pub record Disk : Type 0 where
  pub open_file : Slot Value
  pub history_file : Slot Value

-- Which calls of `os.replace` raise.
pub record Faults : Type 0 where
  pub commit_open : Bool
  pub commit_history : Bool
  pub restore_open : Bool
  pub restore_history : Bool

-- `_stage_json_payload`: nothing is staged if the payload is not valid.
unfoldable pub stage_json_payload : Schemas → Value → Slot Value → Result (Slot Value)
unfolding validate_with_schema
stage_json_payload accepts payload s = do
  validate_with_schema accepts payload "findings-store.schema.json"
  ok (stage payload s)

-- The `try` body: how far it comes, and the files then.
unfoldable pub replace_both : Faults → Disk → Bool × Disk
replace_both faults d =
    if faults.commit_open
    then (false, d)
    else if faults.commit_history
    then (false, record d { open_file = commit d.open_file })
    else (true, record { open_file = commit d.open_file; history_file = commit d.history_file })

-- A replacement that may raise; removing a file does not.
abbrev pub try_restore : Bool → Slot Value → Bool × Slot Value
try_restore fault s = elim s.backup [
  | none ↦ (true, restore s)
  | some c ↦ if fault then (false, s) else (true, restore s)
]

-- The handler: the history is not put back if putting back the open store raises.
unfoldable pub put_back_both : Faults → Disk → Disk
put_back_both faults d =
    let (going_on, o) = try_restore faults.restore_open d.open_file in
    if going_on
    then record {
      open_file = o;
      history_file = (try_restore faults.restore_history d.history_file).1;
    }
    else record d { open_file = o }

-- The `finally` clause.
abbrev pub cleanup_both : Disk → Disk
cleanup_both d = record { open_file = cleanup d.open_file; history_file = cleanup d.history_file }

-- From the staged files to the end of the call.
unfoldable pub replace_or_put_back : Faults → Disk → Result (Unit {0}) × Disk
unfolding replace_both put_back_both
replace_or_put_back faults d =
    let (done, d') = replace_both faults d in
    if done
    then (ok tt, cleanup_both d')
    else (err os_error, cleanup_both (put_back_both faults d'))

-- What follows a staged open store: a staging error leaves its temporary file behind.
abbrev pub after_open : Faults → Disk → Slot Value → Result (Slot Value) → Result (Unit {0}) × Disk
after_open faults d o (err e) = (err e, record d { open_file = o })
after_open faults d o (ok h) =
    replace_or_put_back faults
      (record { open_file = stage_backup o; history_file = stage_backup h })

abbrev pub from_open :
    Schemas → Faults → Value → Disk → Result (Slot Value) → Result (Unit {0}) × Disk
from_open accepts faults history_payload d (err e) = (err e, d)
from_open accepts faults history_payload d (ok o) =
    after_open faults d o (stage_json_payload accepts history_payload d.history_file)

-- `write_findings_stores`
unfoldable pub write_findings_stores :
    Schemas → Faults → FindingsStore → FindingsStore → Disk → Result (Unit {0}) × Disk
unfolding stage_json_payload replace_or_put_back
write_findings_stores accepts faults open_store history_store d =
    from_open accepts faults (store_to_dict history_store) d
      (stage_json_payload accepts (store_to_dict open_store) d.open_file)
