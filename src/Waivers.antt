-- ===== src/Waivers.antt =====
-- waivers.py: waiver records and the choice of the active ones. The time that a text names is a
-- parameter: the source asks `datetime.fromisoformat` for it.
pub mod Active
use standards_control_plane.Prelude.{
  List, Option, Result, String, [], err, if◌then◌else◌, ltb, none, ok, some, traverse, type_error,
  value_error, ℕ, ◌>>=◌, ◌>>◌, ◌∷◌,
}
use standards_control_plane.Order.{Key, sorted, text}
use standards_control_plane.Dict.{Dict, get, put}
use standards_control_plane.Json.{
  Schemas, Value, arr, end, ensure_object, field, obj, str, string_item, to_list,
  validate_with_schema,
}

pub record WaiverRecord : Type 0 where
  pub waiver_id : String
  pub finding_id : String
  pub reason : String
  pub approved_by : String
  pub expires_at : String
  pub created_at : String

-- `WaiverRecord.to_dict`
unfoldable pub waiver_to_dict : WaiverRecord → Value
waiver_to_dict w = obj (
    field "waiver_id" (str w.waiver_id) (
      field "finding_id" (str w.finding_id) (
        field "reason" (str w.reason) (
          field "approved_by" (str w.approved_by)
            (field "expires_at" (str w.expires_at) (field "created_at" (str w.created_at) end))))))

-- `_load_waiver`
unfoldable pub load_waiver : Schemas → Value → Result WaiverRecord
unfolding ensure_object string_item validate_with_schema
load_waiver accepts entry = do
  payload ← ensure_object entry
  validate_with_schema accepts (obj payload) "waiver.schema.json"
  waiver_id ← string_item "waiver_id" payload
  finding_id ← string_item "finding_id" payload
  reason ← string_item "reason" payload
  approved_by ← string_item "approved_by" payload
  expires_at ← string_item "expires_at" payload
  created_at ← string_item "created_at" payload
  ok (record {
    waiver_id = waiver_id;
    finding_id = finding_id;
    reason = reason;
    approved_by = approved_by;
    expires_at = expires_at;
    created_at = created_at;
  })

abbrev pub waiver_key : WaiverRecord → Key
waiver_key w = text w.finding_id ∷ text w.expires_at ∷ text w.created_at ∷ text w.waiver_id ∷ []

abbrev list_of : Value → Result (List Value)
list_of (arr vs) = ok (to_list vs)
list_of _ = err type_error

-- `load_waivers`, from what the file holds; a missing file is no waiver.
unfoldable pub load_waivers : Schemas → Option Value → Result (List WaiverRecord)
unfolding load_waiver validate_with_schema
load_waivers accepts none = ok []
load_waivers accepts (some payload) = do
  validate_with_schema accepts payload "waivers-file.schema.json"
  entries ← list_of payload
  waivers ← traverse (load_waiver accepts) entries
  ok (sorted waiver_key waivers)

module _ (parse_timestamp : String → Result ℕ) where
  -- A waiver that has not expired enters, unless its finding has one already.
  abbrev pub enter_waiver :
      Dict WaiverRecord → WaiverRecord → Option WaiverRecord → Result (Dict WaiverRecord)
  enter_waiver active waiver none = ok (put waiver.finding_id waiver active)
  enter_waiver active waiver (some existing) = err value_error

  -- The loop of `select_active_waivers`.
  unfoldable pub select_from :
      ℕ → Dict WaiverRecord → List WaiverRecord → Result (Dict WaiverRecord)
  select_from as_of active [] = ok active
  select_from as_of active (waiver ∷ rest) = parse_timestamp waiver.expires_at >>= λ expires.
      (if ltb expires as_of
        then ok active
        else enter_waiver active waiver (get waiver.finding_id active))
      >>= λ next. select_from as_of next rest

  unfoldable pub select_active_waivers : List WaiverRecord → String → Result (Dict WaiverRecord)
  unfolding select_from
  select_active_waivers waivers audit_timestamp = do
    as_of ← parse_timestamp audit_timestamp
    select_from as_of [] waivers
