-- ===== src/Tests/ChangedTests.antt =====
-- The audit of a diff in the repository of the samples.
use Prim.Native.String.{◌++◌ as join}
use standards_control_plane.Prelude.{
  List, String, [], filter, map, none, not, ok, refl, traverse, true, ◌==◌, ◌∷◌, ◌≡◌, ◌⊎◌,
}
use standards_control_plane.Extractor.Walk.{is_some_path}
use standards_control_plane.ChangedAudit.{
  derive_area_id, list_changed_files, slug, strip_char, top_part,
}
use standards_control_plane.ChangedAudit.Build.{
  ChangedAudit, build_changed_file_audit_result, changed_to_dict,
}
use standards_control_plane.Tests.Samples.{value_of}
use standards_control_plane.Text.Sources.{splitlines, strip}
use standards_control_plane.ChangedAudit.Laws.{IsDiff, list_changed_files-IsDiff}
use standards_control_plane.ChangedAudit.Leading.{IsLeading, derive_area_id-IsLeading}
use standards_control_plane.Assembly.Changed.{IsAuditOf, build_changed_file_audit_result-IsAuditOf}
use standards_control_plane.Tests.PipelineSamples.{
  audit_host, by_program, disk, lifecycle, no_result, program_parts, reviews, unicode,
}

-- Two changed files below one directory, one of them named twice.
abbrev stdout : String
stdout = "src/app.py\n\nsrc/components/page.tsx\nsrc/app.py\n"

abbrev changed_files : List String
changed_files = "src/app.py" ∷ "src/components/page.tsx" ∷ []

changed-sample : list_changed_files disk unicode (ok stdout) ≡ ok changed_files
unfolding program_parts
changed-sample = refl

list_changed_files-IsDiff_example :
    IsDiff disk (map (strip unicode) (splitlines stdout)) changed_files
list_changed_files-IsDiff_example = list_changed_files-IsDiff disk unicode stdout changed-sample

derived-sample : derive_area_id unicode changed_files "orders" ≡ ok "orders-src"
unfolding program_parts
derived-sample = refl

derive_area_id-IsLeading_example :
    (tops : List String) × (traverse top_part
        (filter (λ path. not (strip_char 47 path == "")) changed_files)
      ≡ ok tops)
    × (((tops ≡ []) × ("orders-src" ≡ join (slug unicode "orders" "subsystem") "-changed"))
        ⊎ ((top : String) × IsLeading tops top
            × ("orders-src"
                ≡ join
                    (slug unicode "orders" "subsystem")
                    (join "-" (slug unicode top "changed")))))
derive_area_id-IsLeading_example =
    derive_area_id-IsLeading unicode changed_files "orders" derived-sample

abbrev no_change : ChangedAudit
no_change = record { base_ref = ""; head_ref = ""; changed_paths = []; audit_result = no_result }

-- No specification and no route is among the files, so the area is derived.
abbrev changed : ChangedAudit
changed = value_of no_change (
    build_changed_file_audit_result by_program audit_host.disk audit_host.unicode
      ("architecture" ∷ []) "orders" "2026-04-11" none "main" "HEAD" none none (ok stdout))

whole-sample :
    build_changed_file_audit_result by_program audit_host.disk audit_host.unicode
      ("architecture" ∷ [])
      "orders"
      "2026-04-11"
      none
      "main"
      "HEAD"
      none
      none
      (ok stdout)
    ≡ ok changed
unfolding program_parts
whole-sample = refl

area-of_changed : changed.audit_result.audit_id ≡ "audit-orders-2026-04-11"
unfolding program_parts
area-of_changed = refl

build_changed_file_audit_result-IsAuditOf_example :
    (is_some_path changed.changed_paths ≡ true)
    × IsAuditOf audit_host reviews lifecycle
        (λ s. ok 1)
        (λ s. s)
        ("architecture" ∷ [])
        changed.changed_paths
        "orders"
        "2026-04-11"
        none
        none
        changed.audit_result
    × (audit_host.accepts "changed-audit-result.schema.json" (changed_to_dict changed) ≡ true)
build_changed_file_audit_result-IsAuditOf_example =
    build_changed_file_audit_result-IsAuditOf audit_host reviews lifecycle (λ s. ok 1) (λ s. s)
      ("architecture" ∷ []) "orders" "2026-04-11" none "main" "HEAD" none none (ok stdout)
      whole-sample
