-- ===== src/Audit/Whole.antt =====
-- The result of an audit as a whole.
use standards_control_plane.Json
use standards_control_plane.Prelude.{List, Option, String, ok, ◌≡◌}
use standards_control_plane.Order.Sorted.{IsSorted}
use standards_control_plane.Dict.{Dict}
use standards_control_plane.Json.{Fields, Value}
use standards_control_plane.Waivers.{WaiverRecord, load_waivers, select_active_waivers}
use standards_control_plane.Unique.Laws.{IsUnique}
use standards_control_plane.Audit.{applied_key, audit_key, summary_counts}
use standards_control_plane.Audit.Build.{
  AuditResult, Parts, Progress, assemble, audit_domains, no_progress,
}

module _ {Scope Area : Type 0} (parts : Parts Scope Area) where
  -- The shape of an assembled result.
  pub record IsAssembled (r : AuditResult) : Type 0 where
    pub in_order : IsSorted audit_key r.findings
    pub summary : r.summary ≡ summary_counts r.findings
    pub unique : IsUnique r.recommended
    pub waivers_in_order : IsSorted applied_key r.waivers_applied

  -- What the loop went through to give a result.
  pub record Audited (request : Fields) (waivers_file : Option Value)
      (standards_version evaluated_at : String) (result : AuditResult) : Type 0 where
    pub subsystem : String
    pub scope : Fields
    pub area : Area
    pub requested_domains : List String
    pub waivers : List WaiverRecord
    pub active_waivers : Dict WaiverRecord
    pub progress : Progress
    pub loaded : load_waivers parts.accepts waivers_file ≡ ok waivers
    pub chosen :
        select_active_waivers parts.parse_timestamp waivers evaluated_at ≡ ok active_waivers
    pub looped :
        audit_domains parts area standards_version evaluated_at active_waivers no_progress
          requested_domains
        ≡ ok progress
    pub assembled :
        ok (assemble parts subsystem standards_version evaluated_at scope area progress) ≡ ok result
