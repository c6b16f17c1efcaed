-- ===== src/ControlTower/Estate.antt =====
-- The dashboard of the estate in control_tower.py, and the entries that it is made of.
use standards_control_plane.ControlTower.{SubsystemDashboard, subsystem_to_dict}
use Prim.Native.String.{◌++◌ as join}
use standards_control_plane.Prelude.{
  Bool, List, Result, String, [], count_by, filter, length, map, not, ok, sum_by, true, ℕ, ◌++◌,
  ◌==◌, ◌>>◌, ◌∷◌,
}
use standards_control_plane.Order.{Key, sorted, text}
use standards_control_plane.Json.{
  Schemas, Value, arr, bool, end, field, obj, of_list, str, validate_with_schema,
}
use standards_control_plane.Dict.{Dict, values}
use standards_control_plane.Audit.Build.{count}

pub record EstateSummary : Type 0 where
  pub subsystem_count : ℕ
  pub healthy_count : ℕ
  pub monitor_count : ℕ
  pub attention_required_count : ℕ
  pub open_findings_count : ℕ
  pub high_severity_open_findings : ℕ
  pub warning_count : ℕ

pub record EstateDashboard : Type 0 where
  pub generated_at : String
  pub summary : EstateSummary
  pub subsystems : List SubsystemDashboard

abbrev pub entry_key : SubsystemDashboard → Key
entry_key e = text e.subsystem ∷ []

abbrev pub has_status : String → SubsystemDashboard → Bool
has_status status e = e.status == status

-- The dict `summary` of an estate.
unfoldable pub estate_summary : List SubsystemDashboard → EstateSummary
estate_summary entries = record {
  subsystem_count = length entries;
  healthy_count = count_by (has_status "healthy") entries;
  monitor_count = count_by (has_status "monitor") entries;
  attention_required_count = count_by (has_status "attention_required") entries;
  open_findings_count = sum_by (λ (e : SubsystemDashboard). e.open_findings_count) entries;
  high_severity_open_findings =
      sum_by (λ (e : SubsystemDashboard). e.high_severity_open_findings) entries;
  warning_count = sum_by (λ (e : SubsystemDashboard). e.warning_count) entries;
}

unfoldable pub estate_to_dict : EstateDashboard → Value
unfolding subsystem_to_dict
estate_to_dict d = obj (
    field "artifact_version" (str "0.1.0") (
      field "generated_at" (str d.generated_at) (
        field "advisory_only" (bool true) (
          field "summary"
            (obj (
              field "subsystem_count" (count d.summary.subsystem_count) (
                field "healthy_count" (count d.summary.healthy_count) (
                  field "monitor_count" (count d.summary.monitor_count) (
                    field "attention_required_count" (count d.summary.attention_required_count) (
                      field "open_findings_count" (count d.summary.open_findings_count) (
                        field "high_severity_open_findings"
                          (count d.summary.high_severity_open_findings)
                          (field "warning_count" (count d.summary.warning_count) end))))))))
            (field "subsystems" (arr (of_list (map subsystem_to_dict d.subsystems))) end)))))

-- `build_estate_dashboard`
unfoldable pub build_estate_dashboard :
    Schemas → List SubsystemDashboard → String → Result EstateDashboard
unfolding estate_summary estate_to_dict validate_with_schema sorted
build_estate_dashboard accepts subsystem_entries generated_at = do
  let ordered_entries = sorted entry_key subsystem_entries
  let dashboard : EstateDashboard = record {
    generated_at = generated_at;
    summary = estate_summary ordered_entries;
    subsystems = ordered_entries;
  }
  validate_with_schema accepts (estate_to_dict dashboard) "estate-dashboard.schema.json"
  ok dashboard

-- The entries of `write_control_tower_outputs`: the stored ones by the stem of their file, in the
-- order of the file names, without the subsystem's own, then the new one. A stored entry has passed
-- its schema.
abbrev file_key : String × SubsystemDashboard → Key
file_key p = text (join p.0 ".json") ∷ []

unfoldable pub estate_entries :
    Dict SubsystemDashboard → SubsystemDashboard → List SubsystemDashboard
unfolding sorted
estate_entries stored entry =
    values (filter (λ p. not (p.0 == entry.subsystem)) (sorted file_key stored)) ++ (entry ∷ [])
