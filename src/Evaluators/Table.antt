-- ===== src/Evaluators/Table.antt =====
-- The table `EVALUATORS` of audit.py, and what each of its evaluators reports.
use standards_control_plane.Prelude.{
  >>=-eq-ok, All, List, Option, Result, String, [], false, ok, some, ◌==◌, ◌>>=◌, ◌>>◌, ◌∷◌, ◌≡◌,
}
use standards_control_plane.Dict.{Dict, get}
use standards_control_plane.Dict.Laws.{All-get}
use standards_control_plane.Json.{validate_with_schema}
use standards_control_plane.ReviewEvidence.{ReviewHost}
use standards_control_plane.Normaliser.Build.{ProjectArea, area_to_dict}
use standards_control_plane.Evaluators.{
  Check, Evaluation, EvaluatorHost, evaluate_checks, rules_by_id, timestamp_of,
}
use standards_control_plane.Evaluators.Laws.{IsReport, evaluate_checks-IsEvaluation}
use standards_control_plane.Evaluators.Architecture.{architecture_checks, evaluate_architecture}
use standards_control_plane.Evaluators.Design.{design_checks, evaluate_design}
use standards_control_plane.Evaluators.Governance.{evaluate_governance, governance_checks}
use standards_control_plane.Evaluators.Product.{evaluate_product, product_checks}
use standards_control_plane.Evaluators.Ux.{evaluate_ux, ux_checks}
use standards_control_plane.Evaluators.ServiceLifecycle.{LifecycleHost}
use standards_control_plane.Evaluators.ServiceLifecycle.Build.{evaluate_service_lifecycle}
use standards_control_plane.Evaluators.ServiceLifecycle.Laws.{evaluate_service_lifecycle-IsReport}

abbrev pub Evaluator : Type 0
Evaluator = ProjectArea → String → Option String → Result Evaluation

module _ (host : EvaluatorHost) (reviews : ReviewHost) (lifecycle : LifecycleHost) where
  -- `EVALUATORS`
  unfoldable pub evaluators : Dict Evaluator
  unfolding evaluate_architecture evaluate_design evaluate_governance evaluate_product
      evaluate_service_lifecycle evaluate_ux
  evaluators =
      ("architecture", evaluate_architecture host)
      ∷ ("design", evaluate_design host)
      ∷ ("governance", evaluate_governance host reviews)
      ∷ ("product", evaluate_product host)
      ∷ ("service-lifecycle", evaluate_service_lifecycle host lifecycle)
      ∷ ("ux", evaluate_ux host)
      ∷ []

  module _ (area : ProjectArea) (standards_version at : String) where
    abbrev pub IsReportOf : String → Evaluation → Type 0
    IsReportOf domain =
        IsReport host.accepts domain area.area_id standards_version at
          (rules_by_id host.snapshot domain)

    dated-IsReport :
        (domain : String) (checks : List Check) {e : Evaluation}
        → (at == "") ≡ false
        → (timestamp_of host.unicode.is_decimal standards_version (some at) >>= λ timestamp.
            evaluate_checks host.accepts domain area.area_id standards_version timestamp
              (rules_by_id host.snapshot domain)
              checks)
          ≡ ok e
        → IsReportOf domain e
    unfolding timestamp_of
    dated-IsReport domain checks n h =
        (evaluate_checks-IsEvaluation host.accepts domain area.area_id standards_version at
          (rules_by_id host.snapshot domain) checks (rw n at h)).report

    midnight-IsReport :
        {e : Evaluation}
        → (at == "") ≡ false
        → evaluate_service_lifecycle host lifecycle area standards_version (some at) ≡ ok e
        → IsReportOf "service-lifecycle" e
    midnight-IsReport {e} n h =
        rw n at
          (evaluate_service_lifecycle-IsReport host lifecycle area standards_version (some at) h)

    validated-IsReport :
        (domain : String) (checks : List Check) {e : Evaluation}
        → (at == "") ≡ false
        → (validate_with_schema host.accepts (area_to_dict area) "project-area.schema.json"
            >> (timestamp_of host.unicode.is_decimal standards_version (some at) >>= λ timestamp.
                evaluate_checks host.accepts domain area.area_id standards_version timestamp
                  (rules_by_id host.snapshot domain)
                  checks))
          ≡ ok e
        → IsReportOf domain e
    validated-IsReport domain checks n h =
        let (_, _, h1) =
          >>=-eq-ok
            (validate_with_schema host.accepts (area_to_dict area) "project-area.schema.json") _
            h in
        dated-IsReport domain checks n h1

    abbrev Reporting : String × Evaluator → Type 0
    Reporting p = (e : Evaluation) → p.1 area standards_version (some at) ≡ ok e → IsReportOf p.0 e

    each-Reporting : (at == "") ≡ false → All Reporting evaluators
    unfolding evaluators evaluate_architecture evaluate_design evaluate_governance evaluate_product
        evaluate_ux
    each-Reporting n = (
      λ e h. validated-IsReport "architecture" (architecture_checks host area) n h,
      (
        λ e h. dated-IsReport "design" (design_checks host area) n h,
        (
          λ e h. validated-IsReport "governance" (governance_checks host reviews area) n h,
          (
            λ e h. dated-IsReport "product" (product_checks host area) n h,
            (
              λ e h. midnight-IsReport n h,
              (λ e h. dated-IsReport "ux" (ux_checks host area) n h, tt),
            ),
          ),
        ),
      ),
    )

    -- At a time that is given, each evaluator of the table reports, if it succeeds, open findings of
    -- its domain and of the area, in order, each with the severity of an active rule of the domain
    -- and dated by that time; the score is that of the findings.
    pub evaluators-IsReport :
        (domain : String) {evaluate : Evaluator} {e : Evaluation}
        → (at == "") ≡ false
        → get domain evaluators ≡ some evaluate
        → evaluate area standards_version (some at) ≡ ok e
        → IsReportOf domain e
    evaluators-IsReport domain {e = e} n g h =
        All-get Reporting domain evaluators (each-Reporting n) g e h
