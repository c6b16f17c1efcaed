-- ===== src/Assembly/Changed.antt =====
-- The audit of changed files: it is of exactly these, and its area is the given, the inferred or the
-- derived one.
use standards_control_plane.Normaliser.Build.{ProjectArea}
use standards_control_plane.Json
use standards_control_plane.Prelude.{
  >>=-eq-ok, Bool-cases, List, Option, Result, String, [], ap, area_id_inference_error, err, guard,
  guard-eq-ok, inl, inr, map, none, ok, ok-eq, refl, some, subst, sym, traverse, true, value_error,
  ℕ, ◌==◌, ◌∙◌, ◌∷◌, ◌≡◌, ◌⊎◌,
}
use standards_control_plane.Json.{Value, of_list, str, strs, to_list, validate_with_schema}
use standards_control_plane.ReviewEvidence.{ReviewHost}
use standards_control_plane.Audit.{
  AuditScope, area_hint_of, ensure_scope, non_empty, scope_paths_of,
}
use standards_control_plane.Audit.Build.{AuditResult, Parts, build_audit_result}
use standards_control_plane.ChangedAudit.{derive_area_id}
use standards_control_plane.ChangedAudit.Build.{
  ChangedAudit, area_field, audit_of, build_changed_file_audit_result, changed_to_dict,
  is_some_path, or_derived, paths_or_listed, request_for,
}
use standards_control_plane.Evaluators.{EvaluatorHost}
use standards_control_plane.Evaluators.ServiceLifecycle.{LifecycleHost}
use standards_control_plane.Assembly.Traced.{IsTracedAudit, build_audit_result-IsTracedAudit}
use standards_control_plane.Extractor.{ExtractedScope}
use standards_control_plane.Assembly.{program}

non_empty-str : (s : String) {t : String} → non_empty (str s) ≡ ok t → s ≡ t
non_empty-str s h = elim (Bool-cases (s == "")) [
  | inl e ↦ cc (rw e at h)
  | inr n ↦ ok-eq (rw n at h)
]

traverse-strs :
    (paths : List String) {ps : List String}
    → traverse non_empty (to_list (of_list (map str paths))) ≡ ok ps
    → paths ≡ ps
traverse-strs [] h = ok-eq h
traverse-strs (p ∷ paths) h =
    let (q, e, h1) = >>=-eq-ok (non_empty (str p)) _ h in
    let (qs, t, h2) = >>=-eq-ok (traverse non_empty (to_list (of_list (map str paths)))) _ h1 in
    ap (λ x. x ∷ paths) (non_empty-str p e) ∙ (ap (λ l. q ∷ l) (traverse-strs paths t) ∙ ok-eq h2)

scope_paths_of-strs :
    (paths : List String) {ps : List String}
    → scope_paths_of (some (strs paths)) ≡ ok ps
    → paths ≡ ps
scope_paths_of-strs [] h = cc
scope_paths_of-strs (p ∷ paths) h = traverse-strs (p ∷ paths) h

area_hint_of-field :
    (area_id : Option String) {hint : Option String}
    → area_hint_of (Json.get "area_id" (area_field area_id)) ≡ ok hint
    → area_id ≡ hint
unfolding Json.get
area_hint_of-field none h = ok-eq h
area_hint_of-field (some s) h =
    let (t, e, h1) = >>=-eq-ok (non_empty (str s)) _ h in ap some (non_empty-str s e) ∙ ok-eq h1

ensure_scope-request_for :
    (domains paths : List String) (subsystem standards_version : String) (area_id : Option String)
    {asked : AuditScope}
    → ensure_scope (request_for domains paths subsystem standards_version area_id) ≡ ok asked
    → (asked.scope_paths ≡ paths) × (asked.subsystem ≡ subsystem) × (asked.area_hint ≡ area_id)
unfolding ensure_scope request_for Json.get
ensure_scope-request_for domains paths subsystem standards_version area_id h =
    let (ps, p, h1) = >>=-eq-ok (scope_paths_of (some (strs paths))) _ h in
    let (sub, s, h2) = >>=-eq-ok (non_empty (str subsystem)) _ h1 in
    let (hint, a, h3) = >>=-eq-ok (area_hint_of (Json.get "area_id" (area_field area_id))) _ h2 in
    let e = sym (ok-eq h3) in
    (
      ap (λ (q : AuditScope). q.scope_paths) e ∙ sym (scope_paths_of-strs paths p),
      ap (λ (q : AuditScope). q.subsystem) e ∙ sym (non_empty-str subsystem s),
      ap (λ (q : AuditScope). q.area_hint) e ∙ sym (area_hint_of-field area_id a),
    )

module _ (host : EvaluatorHost) (reviews : ReviewHost) (lifecycle : LifecycleHost)
    (parse_timestamp : String → Result ℕ) (title : String → String) where
  abbrev own_parts : Parts ExtractedScope ProjectArea
  own_parts = program host reviews lifecycle parse_timestamp title

  -- The hint that the audit was asked with: the given one, or else, where no area could be inferred,
  -- the derived one.
  abbrev pub IsHint :
      List String
      → List String
      → String
      → String
      → Option Value
      → Option String
      → Option String
      → Type 0
  IsHint domains paths subsystem standards_version waivers_file area_id hint =
      (hint ≡ area_id)
      ⊎ ((derived : String) × (hint ≡ some derived)
          × (derive_area_id host.unicode paths subsystem ≡ ok derived)
          × (build_audit_result own_parts
                (request_for domains paths subsystem standards_version area_id) waivers_file
              ≡ err area_id_inference_error))

  -- The audit that was made of the paths: of which area, and that its findings are traced to it.
  pub record IsAuditOf (domains paths : List String) (subsystem standards_version : String)
      (waivers_file : Option Value) (area_id : Option String) (result : AuditResult) : Type 0 where
    pub hint : Option String
    pub given_or_derived :
        IsHint domains paths subsystem standards_version waivers_file area_id hint
    pub performed :
        build_audit_result own_parts
          (request_for domains paths subsystem standards_version hint)
          waivers_file
        ≡ ok result
    pub audit :
        IsTracedAudit host reviews lifecycle parse_timestamp title
          (request_for domains paths subsystem standards_version hint)
          result
    pub asked :
        (audit.asked.scope_paths ≡ paths)
        × (audit.asked.subsystem ≡ subsystem)
        × (audit.asked.area_hint ≡ hint)

  module _ (domains paths : List String) (subsystem standards_version : String)
      (waivers_file : Option Value) where
    audited :
        (area_id hint : Option String) {result : AuditResult}
        → IsHint domains paths subsystem standards_version waivers_file area_id hint
        → build_audit_result own_parts
            (request_for domains paths subsystem standards_version hint)
            waivers_file
          ≡ ok result
        → IsAuditOf domains paths subsystem standards_version waivers_file area_id result
    audited area_id hint g h =
        let traced =
          build_audit_result-IsTracedAudit host reviews lifecycle parse_timestamp title
            (request_for domains paths subsystem standards_version hint) waivers_file h in
        record {
          hint = hint;
          given_or_derived = g;
          performed = h;
          audit = traced;
          asked =
              ensure_scope-request_for domains paths subsystem standards_version hint
                traced.of_request;
        }

    or_derived-IsAuditOf :
        (area_id : Option String) (first : Result AuditResult) {result : AuditResult}
        → first
          ≡ build_audit_result own_parts
              (request_for domains paths subsystem standards_version area_id)
              waivers_file
        → or_derived own_parts host.disk host.unicode domains subsystem standards_version
            waivers_file paths first
          ≡ ok result
        → IsAuditOf domains paths subsystem standards_version waivers_file area_id result
    unfolding or_derived audit_of
    or_derived-IsAuditOf area_id (ok first) e h = audited area_id area_id (inl refl) (sym e ∙ h)
    or_derived-IsAuditOf area_id (err area_id_inference_error) e h =
        let (derived, d, h1) = >>=-eq-ok (derive_area_id host.unicode paths subsystem) _ h in
        audited area_id (some derived) (inr (derived, refl, d, sym e)) h1
    or_derived-IsAuditOf area_id (err _) e h = cc

  -- An audit of changed files that succeeds has at least one path and is what an audit of exactly
  -- its paths returns, asked with the given area or without one, or, where that audit could infer no area,
  -- with the area that is derived from the paths; its findings are traced to the area, and its
  -- JSON is accepted.
  pub build_changed_file_audit_result-IsAuditOf :
      (domains : List String) (subsystem standards_version : String) (waivers_file : Option Value)
      (base_ref head_ref : String) (area_id : Option String) (changed_paths : Option (List String))
      (printed : Result String) {result : ChangedAudit}
      → build_changed_file_audit_result own_parts host.disk host.unicode domains subsystem
          standards_version waivers_file base_ref head_ref area_id changed_paths printed
        ≡ ok result
      → (is_some_path result.changed_paths ≡ true)
        × IsAuditOf domains result.changed_paths subsystem standards_version waivers_file area_id
            result.audit_result
        × (host.accepts "changed-audit-result.schema.json" (changed_to_dict result) ≡ true)
  unfolding build_changed_file_audit_result validate_with_schema audit_of
  build_changed_file_audit_result-IsAuditOf domains subsystem standards_version waivers_file
        base_ref head_ref area_id changed_paths printed h =
      let (paths, p, h1) =
        >>=-eq-ok (paths_or_listed own_parts host.disk host.unicode changed_paths printed) _ h in
      let (_, some_path, h2) = >>=-eq-ok (guard (is_some_path paths) value_error) _ h1 in
      let (audit_result, a, h3) =
        >>=-eq-ok
          (or_derived own_parts host.disk host.unicode domains subsystem standards_version
            waivers_file paths
            (build_audit_result own_parts
              (request_for domains paths subsystem standards_version area_id) waivers_file))
          _ h2 in
      let result : ChangedAudit = record {
        base_ref = base_ref;
        head_ref = head_ref;
        changed_paths = paths;
        audit_result = audit_result;
      } in
      let (_, valid, h4) =
        >>=-eq-ok
          (validate_with_schema host.accepts (changed_to_dict result)
            "changed-audit-result.schema.json")
          _ h3 in
      subst
        (λ (r : ChangedAudit).
          (is_some_path r.changed_paths ≡ true)
          × IsAuditOf domains r.changed_paths subsystem standards_version waivers_file area_id
              r.audit_result
          × (host.accepts "changed-audit-result.schema.json" (changed_to_dict r) ≡ true))
        (ok-eq h4)
        (
          guard-eq-ok (is_some_path paths) value_error some_path,
          or_derived-IsAuditOf domains paths subsystem standards_version waivers_file area_id _ refl
              a,
          guard-eq-ok (host.accepts "changed-audit-result.schema.json" (changed_to_dict result))
              value_error valid,
        )
