-- ===== src/ChangedAudit/Build.antt =====
-- `build_changed_file_audit_result` of changed_audit.py: the audit of the changed files.
use standards_control_plane.Prelude.{
  Bool, List, Option, Result, String, [], area_id_inference_error, err, false, guard, none, ok,
  some, true, value_error, ◌>>=◌, ◌>>◌, ◌∷◌,
}
use standards_control_plane.Json.{Fields, Value, end, field, obj, str, strs, validate_with_schema}
use standards_control_plane.Text.{Unicode}
use standards_control_plane.Extractor.{Disk}
use standards_control_plane.Audit.Build.{AuditResult, Parts, audit_to_dict, build_audit_result}
use standards_control_plane.ChangedAudit.{derive_area_id, list_changed_files}

pub record ChangedAudit : Type 0 where
  pub base_ref : String
  pub head_ref : String
  pub changed_paths : List String
  pub audit_result : AuditResult

-- The dict `result`.
unfoldable pub changed_to_dict : ChangedAudit → Value
unfolding audit_to_dict
changed_to_dict r = obj (
    field "base_ref" (str r.base_ref) (
      field "head_ref" (str r.head_ref) (
        field "changed_paths" (strs r.changed_paths)
          (field "audit_result" (audit_to_dict r.audit_result) end))))

abbrev pub area_field : Option String → Fields
area_field none = end
area_field (some area_id) = field "area_id" (str area_id) end

-- The dict `request`.
unfoldable pub request_for : List String → List String → String → String → Option String → Fields
request_for domains paths subsystem standards_version area_id = field "mode" (str "audit") (
    field "domains" (strs domains) (
      field "scope"
        (obj (field "paths" (strs paths) (field "subsystem" (str subsystem) (area_field area_id))))
        (field "standards_version" (str standards_version) end)))

abbrev pub is_some_path : List String → Bool
is_some_path [] = false
is_some_path (p ∷ ps) = true

module _ {Scope Area : Type 0} (parts : Parts Scope Area) (disk : Disk) (unicode : Unicode) where
  -- `changed_paths or list_changed_files(…)`
  unfoldable pub paths_or_listed : Option (List String) → Result String → Result (List String)
  unfolding list_changed_files
  paths_or_listed (some (p ∷ ps)) printed = ok (p ∷ ps)
  paths_or_listed _ printed = list_changed_files disk unicode printed

  module _ (domains : List String) (subsystem standards_version : String)
      (waivers_file : Option Value) where
    unfoldable pub audit_of : List String → Option String → Result AuditResult
    unfolding build_audit_result request_for
    audit_of paths area_id =
        build_audit_result parts (request_for domains paths subsystem standards_version area_id)
          waivers_file

    -- The `except AreaIdInferenceError` of the first audit.
    unfoldable pub or_derived : List String → Result AuditResult → Result AuditResult
    unfolding audit_of derive_area_id
    or_derived paths (err area_id_inference_error) =
        derive_area_id unicode paths subsystem >>= λ area_id. audit_of paths (some area_id)
    or_derived paths first = first

    -- `build_changed_file_audit_result`
    unfoldable pub build_changed_file_audit_result :
        String → String → Option String → Option (List String) → Result String → Result ChangedAudit
    unfolding paths_or_listed or_derived changed_to_dict validate_with_schema
    build_changed_file_audit_result base_ref head_ref area_id changed_paths printed = do
      paths ← paths_or_listed changed_paths printed
      guard (is_some_path paths) value_error
      audit_result ← or_derived paths (audit_of paths area_id)
      let result : ChangedAudit = record {
        base_ref = base_ref;
        head_ref = head_ref;
        changed_paths = paths;
        audit_result = audit_result;
      }
      validate_with_schema parts.accepts (changed_to_dict result) "changed-audit-result.schema.json"
      ok result
