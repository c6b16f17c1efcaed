-- ===== src/Assembly/Area.antt =====
-- The area that an audit settles: it is of the files of the requested paths, and it has the
-- requested identifier.
use standards_control_plane.Normaliser.AreaId.{infer_area_id}
use standards_control_plane.Prelude.{
  >>=-eq-ok, Bool, Bool-cases, List, Option, Result, String, area_id_inference_error, eq_iff, err,
  inl, inr, none, ok, ok-eq, refl, some, subst, sym, true, ℕ, ◌==◌, ◌∙◌, ◌≡◌,
}
use standards_control_plane.Extractor.{ExtractedScope}
use standards_control_plane.Extractor.Whole.{IsExtraction, extract_scope-IsExtraction}
use standards_control_plane.Normaliser.Build.{ProjectArea, normalise_project_area}
use standards_control_plane.Normaliser.Laws.{IsAreaOf, normalise_project_area-IsAreaOf}
use standards_control_plane.ReviewEvidence.{ReviewHost}
use standards_control_plane.Audit.{AuditScope}
use standards_control_plane.Audit.Build.{Parts, normalise_scope, settle_area}
use standards_control_plane.Evaluators.{EvaluatorHost}
use standards_control_plane.Evaluators.ServiceLifecycle.{LifecycleHost}
use standards_control_plane.Assembly.{program}
use standards_control_plane.Extractor.Walk.{extract_scope}

-- The hint of a request, if any, is the area's identifier.
abbrev pub agrees : Option String → String → Bool
agrees none area_id = true
agrees (some requested) area_id = requested == area_id

module _ (host : EvaluatorHost) where
  -- The area of an audit and the files that it is of.
  pub record IsAreaFor (s : AuditScope) (area : ProjectArea) : Type 0 where
    pub scope : ExtractedScope
    pub extraction : IsExtraction host.disk host.unicode s.scope_paths scope
    pub area_of_scope : IsAreaOf host.unicode scope s.subsystem area
    pub agreed : agrees s.area_hint area.area_id ≡ true

module _ (host : EvaluatorHost) (reviews : ReviewHost) (lifecycle : LifecycleHost)
    (parse_timestamp : String → Result ℕ) (title : String → String) where
  abbrev own_parts : Parts ExtractedScope ProjectArea
  own_parts = program host reviews lifecycle parse_timestamp title

  settled-IsAreaFor :
      (scope_paths : List String) (subsystem : String) (area_hint : Option String)
      (scope : ExtractedScope) (inferred : Result ProjectArea) {area : ProjectArea}
      → IsExtraction host.disk host.unicode scope_paths scope
      → inferred ≡ normalise_project_area host.unicode host.accepts scope subsystem none
      → settle_area own_parts scope subsystem area_hint inferred ≡ ok area
      → IsAreaFor host
          (record { scope_paths = scope_paths; subsystem = subsystem; area_hint = area_hint })
          area
  unfolding infer_area_id
  settled-IsAreaFor paths subsystem none scope inferred x e h = record {
    scope = scope;
    extraction = x;
    area_of_scope =
        (normalise_project_area-IsAreaOf host.unicode host.accepts scope subsystem none
          (sym e ∙ h)).0;
    agreed = refl;
  }
  settled-IsAreaFor paths subsystem (some requested) scope (ok found) x e h =
      elim (Bool-cases (requested == found.area_id)) [
        | inl same' ↦
            subst
              (IsAreaFor host
                (record { scope_paths = paths; subsystem = subsystem; area_hint = some requested }))
              (ok-eq (rw same' at h))
              (record {
                scope = scope;
                extraction = x;
                area_of_scope =
                    (normalise_project_area-IsAreaOf host.unicode host.accepts scope subsystem none
                      (sym e)).0;
                agreed = same';
              })
        | inr other ↦ cc (rw other at h)
      ]
  settled-IsAreaFor paths subsystem (some requested) scope (err area_id_inference_error) x e h =
      let (area_of_scope, inferred', _) =
        normalise_project_area-IsAreaOf host.unicode host.accepts scope subsystem (some requested)
          h in
      record {
        scope = scope;
        extraction = x;
        area_of_scope = area_of_scope;
        agreed = (eq_iff requested _).1 (ok-eq inferred');
      }
  settled-IsAreaFor paths subsystem (some requested) scope (err _) x e h = cc

  pub normalise_scope-IsAreaFor :
      (s : AuditScope) {area : ProjectArea}
      → normalise_scope own_parts s ≡ ok area
      → IsAreaFor host s area
  unfolding normalise_scope
  normalise_scope-IsAreaFor s h =
      let (scope, x, h1) =
        >>=-eq-ok (extract_scope host.disk host.unicode host.accepts s.scope_paths) _ h in
      settled-IsAreaFor s.scope_paths s.subsystem s.area_hint scope _
        (extract_scope-IsExtraction host.disk host.unicode host.accepts s.scope_paths x).0 refl h1
