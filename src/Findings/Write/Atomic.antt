-- ===== src/Findings/Write/Atomic.antt =====
-- When `write_findings_stores` is all or nothing, and when it is not.
use standards_control_plane.Prelude.{
  Option, arith, err, false, if◌then◌else◌, none, ok, os_error, some, true, ◌||◌, ◌≡◌,
}
use standards_control_plane.Json.{Schemas, Value}
use standards_control_plane.Findings.{FindingsStore, store_to_dict}
use standards_control_plane.Findings.Write.{Disk, Faults, write_findings_stores}

-- A disk with no temporary file.
abbrev pub plain : Option Value → Option Value → Disk
plain o h = record {
  open_file = record { target = o; staged = none; backup = none };
  history_file = record { target = h; staged = none; backup = none };
}

module _ (accepts : Schemas) (open_store history_store : FindingsStore)
    (valid_open : accepts "findings-store.schema.json" (store_to_dict open_store) ≡ true)
    (valid_history : accepts "findings-store.schema.json" (store_to_dict history_store)
      ≡ true) where
  -- If both stores pass the schema and putting back does not fail, the two stores are both new and
  -- the call returns when no replacement fails, and both are as before and it raises when one fails;
  -- no temporary file is left.
  pub write_findings_stores_outcome :
      (faults : Faults) (o h : Option Value)
      → faults.restore_open ≡ false
      → faults.restore_history ≡ false
      → write_findings_stores accepts faults open_store history_store (plain o h) ≡ (
          if faults.commit_open || faults.commit_history then (err os_error, plain o h) else (
            ok tt,
            plain (some (store_to_dict open_store)) (some (store_to_dict history_store)),
          ))
  unfolding write_findings_stores
  write_findings_stores_outcome faults o h ro rh = rw (valid_open, valid_history) (ground arith)

  -- If both stores pass the schema, the open store is replaced, the history cannot be replaced and
  -- the open store cannot be put back, the call raises and the old open store is nowhere on the
  -- disk.
  pub write_findings_stores_loses :
      (faults : Faults) (old : Value) (h : Option Value)
      → faults.commit_open ≡ false
      → faults.commit_history ≡ true
      → faults.restore_open ≡ true
      → write_findings_stores accepts faults open_store history_store (plain (some old) h)
        ≡ (err os_error, plain (some (store_to_dict open_store)) h)
  unfolding write_findings_stores
  write_findings_stores_loses faults old h co ch ro = rw (valid_open, valid_history) (ground arith)
