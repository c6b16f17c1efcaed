-- ===== src/Assembly.antt =====
-- The audit with the program's own extractor, normaliser and evaluators in place of the interface
-- that audit.py is modelled over.
pub mod Area
pub mod Traced
pub mod Changed
use standards_control_plane.Prelude.{List, Option, Result, String, none, ok, some, ℕ, ◌>>=◌}
use standards_control_plane.Dict.{get}
use standards_control_plane.Findings.{FindingRecord}
use standards_control_plane.Extractor.{ExtractedScope}
use standards_control_plane.Extractor.Walk.{extract_scope}
use standards_control_plane.Normaliser.Build.{ProjectArea, normalise_project_area}
use standards_control_plane.ReviewEvidence.{ReviewHost}
use standards_control_plane.Audit.Build.{Parts}
use standards_control_plane.Evaluators.{EvaluatorHost}
use standards_control_plane.Evaluators.ServiceLifecycle.{LifecycleHost}
use standards_control_plane.Evaluators.Table.{Evaluator, evaluators}

-- What audit.py does with `evaluator(…)["findings"]`.
abbrev pub findings_by :
    Option Evaluator → Option (ProjectArea → String → String → Result (List FindingRecord))
findings_by none = none
findings_by (some evaluate) = some (λ area standards_version at.
    evaluate area standards_version (some at) >>= λ evaluation. ok evaluation.findings)

module _ (host : EvaluatorHost) (reviews : ReviewHost) (lifecycle : LifecycleHost)
    (parse_timestamp : String → Result ℕ) (title : String → String) where
  -- The imports of audit.py.
  abbrev pub program : Parts ExtractedScope ProjectArea
  program = record {
    accepts = host.accepts;
    parse_timestamp = parse_timestamp;
    is_decimal = host.unicode.is_decimal;
    title = title;
    extract_scope = extract_scope host.disk host.unicode host.accepts;
    normalise_project_area = normalise_project_area host.unicode host.accepts;
    area_id = λ area. area.area_id;
    evaluator = λ domain. findings_by (get domain (evaluators host reviews lifecycle));
  }
