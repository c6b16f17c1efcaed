-- ===== src/Evaluators/ServiceLifecycle/Health.antt =====
-- Which services `_svc002_findings` reports.
use standards_control_plane.Evaluators.Search.{IsReadable, first_path_where-found_in, found_in}
use Prim.Native.String.{◌++◌ as join}
use standards_control_plane.Json
use standards_control_plane.Prelude.{
  >>=-eq-ok, Bool, Bool-cases, List, Option, String, [], any, ap, false, filter, if◌then◌else◌, inl,
  inr, key_error, map, none, not, ok, ok-eq, or_raise, or_raise-some, refl, some, sym, true, ℕ,
  ◌&&◌, ◌++◌, ◌==◌, ◌∙◌, ◌∷◌, ◌≡◌,
}
use standards_control_plane.Json.{Fields, text_of, validate_with_schema}
use standards_control_plane.Text.{occurs_in}
use standards_control_plane.Registry.{RuleRecord}
use standards_control_plane.Evaluators.{EvaluatorHost, rules_by_id}
use standards_control_plane.Evaluators.ServiceLifecycle.Contracts.{
  health_issue, health_issues, unhandled,
}
use standards_control_plane.Evaluators.ServiceLifecycle.Build.{
  build_issue, build_issues, check_services, issue_finding, scope_suffix, svc002_findings,
}
use standards_control_plane.Findings.{FindingRecord, finding_to_dict}
use standards_control_plane.Confidence.{classify_confidence}
use standards_control_plane.Evaluators.ServiceLifecycle.{
  Issue, LifecycleHost, code_paths_to_scan, in_order, issue_at,
}
use standards_control_plane.Dict.{Dict, get}
use standards_control_plane.Normaliser.Build.{ProjectArea}

-- The healthcheck that a service declares, or the empty text.
abbrev pub healthcheck_of : Option String → String
healthcheck_of none = ""
healthcheck_of (some healthcheck) = healthcheck

abbrev pub declared_healthcheck : Fields → String
unfolding Json.get
declared_healthcheck config = healthcheck_of (text_of (Json.get "healthcheck" config))

-- The healthcheck is declared and stands in none of the texts.
abbrev pub has_no_handler : (String → String) → List String → Fields → Bool
unfolding occurs_in
has_no_handler texts paths config =
    not (declared_healthcheck config == "")
    && not (any (λ p. occurs_in (declared_healthcheck config) (texts p)) paths)

-- The identifier of a finding on the healthcheck of a service.
abbrev pub health_id : RuleRecord → String → String → String
health_id rule area_id name = join "F-" (
    join rule.rule_id
      (join "-" (join area_id (join (scope_suffix (some name)) "-missing-health-handler"))))

module _ (host : EvaluatorHost) (texts : String → String) where
  module _ (manifest_path : String) where
    unhandled-found_in :
        (name healthcheck : String) (test : String → Bool) (ps : List String)
        → unhandled host manifest_path name healthcheck (found_in host texts test ps) ≡ (
            if not (any (λ p. test (texts p)) ps)
            then unhandled host manifest_path name healthcheck none
            else [])
    unfolding unhandled
    unhandled-found_in name healthcheck test [] = refl
    unhandled-found_in name healthcheck test (p ∷ ps) = elim (Bool-cases (test (texts p))) [
      | inl e ↦ rw e refl
      | inr n ↦ rw n (unhandled-found_in name healthcheck test ps)
    ]

    health_issues_lem :
        (ps : List String) (name : String) (config : Fields)
        → IsReadable host texts ps
        → health_issues host manifest_path ps name config
          ≡ ok (
              if has_no_handler texts ps config
              then unhandled host manifest_path name (declared_healthcheck config) none
              else [])
    unfolding health_issues
    health_issues_lem ps name config r = by_text (text_of (Json.get "healthcheck" config)) refl
      where
        by_text :
            (o : Option String)
            → text_of (Json.get "healthcheck" config) ≡ o
            → health_issues host manifest_path ps name config
              ≡ ok (
                  if has_no_handler texts ps config
                  then unhandled host manifest_path name (declared_healthcheck config) none
                  else [])
        by_text none e = rw e refl
        by_text (some s) e = rw e (elim (Bool-cases (s == "")) [
          | inl q ↦ rw q refl
          | inr n ↦ rw n (
              rw (first_path_where-found_in host texts (occurs_in s) ps r)
                (ap ok (unhandled-found_in name s (occurs_in s) ps)))
        ])

    module _ (area_id standards_version timestamp : String) (rule : RuleRecord) where
      built-id :
          (issue : Issue) {f : FindingRecord}
          → build_issue host.accepts rule area_id standards_version timestamp issue ≡ ok f
          → f.finding_id
            ≡ join "F-" (
                join rule.rule_id (
                  join "-" (
                    join area_id
                      (join (scope_suffix issue.service_name) (join "-" issue.signal_key)))))
      unfolding build_issue validate_with_schema
      built-id issue h =
          let (confidence_class, _, h1) =
            >>=-eq-ok (classify_confidence issue.draft.confidence) _ h in
          let finding =
            issue_finding rule area_id standards_version timestamp issue confidence_class in
          let (_, _, h2) =
            >>=-eq-ok
              (validate_with_schema host.accepts (finding_to_dict finding) "finding.schema.json") _
              h1 in
          ap (λ (f : FindingRecord). f.finding_id) (sym (ok-eq h2))

      abbrev pub ids_of : List FindingRecord → List String
      ids_of = map λ (f : FindingRecord). f.finding_id

      ids_of-one_issue :
          (issue : Issue) {fs : List FindingRecord}
          → build_issues host.accepts area_id standards_version timestamp rule (issue ∷ []) ≡ ok fs
          → ids_of fs
            ≡ join "F-" (
                join rule.rule_id (
                  join "-" (
                    join area_id
                      (join (scope_suffix issue.service_name) (join "-" issue.signal_key)))))
              ∷ []
      unfolding build_issues
      ids_of-one_issue issue h =
          let (f, e, h1) =
            >>=-eq-ok (build_issue host.accepts rule area_id standards_version timestamp issue) _
              h in
          ap ids_of (sym (ok-eq h1)) ∙ ap (λ s. s ∷ []) (built-id issue e)

      ids_of-build_issues :
          (b : Bool) (name healthcheck : String) {fs : List FindingRecord}
          → build_issues host.accepts area_id standards_version timestamp rule
              (if b then unhandled host manifest_path name healthcheck none else [])
            ≡ ok fs
          → ids_of fs ≡ (if b then health_id rule area_id name ∷ [] else [])
      unfolding build_issues unhandled health_issue issue_at
      ids_of-build_issues false name healthcheck h = ap ids_of (sym (ok-eq h))
      ids_of-build_issues true name healthcheck h =
          ids_of-one_issue (health_issue host manifest_path name healthcheck) h

      ids_of-append : (fs gs : List FindingRecord) → ids_of (fs ++ gs) ≡ ids_of fs ++ ids_of gs
      ids_of-append [] gs = refl
      ids_of-append (f ∷ fs) gs = ap (λ l. f.finding_id ∷ l) (ids_of-append fs gs)

      kept_ids :
          (b : Bool) (p : String × Fields) (rest : Dict Fields) (fs gs : List FindingRecord)
          → ids_of fs ≡ (if b then health_id rule area_id p.0 ∷ [] else [])
          → ids_of gs ≡ map (λ q. health_id rule area_id q.0) rest
          → ids_of (fs ++ gs) ≡ map (λ q. health_id rule area_id q.0) (if b then p ∷ rest else rest)
      kept_ids true p rest fs gs d e = rw (ids_of-append fs gs) (rw d (rw e refl))
      kept_ids false p rest fs gs d e = rw (ids_of-append fs gs) (rw d (rw e refl))

      -- The services without a handler, by the identifiers of their findings.
      abbrev pub unhandled_ids : List String → Dict Fields → List String
      unhandled_ids paths found =
          map (λ p. health_id rule area_id p.0) (filter (λ p. has_no_handler texts paths p.1) found)

      ids_of-check_services :
          (paths : List String) (found : Dict Fields) {fs : List FindingRecord}
          → IsReadable host texts paths
          → check_services host.accepts area_id standards_version timestamp rule
              (health_issues host manifest_path paths)
              found
            ≡ ok fs
          → ids_of fs ≡ unhandled_ids paths found
      unfolding check_services
      ids_of-check_services paths [] r h = ap ids_of (sym (ok-eq h))
      ids_of-check_services paths ((name, config) ∷ rest) r h =
          let (issues, i, h1) =
            >>=-eq-ok (health_issues host manifest_path paths name config) _ h in
          let (findings, b, h2) =
            >>=-eq-ok (build_issues host.accepts area_id standards_version timestamp rule issues) _
              h1 in
          let (others, o, h3) =
            >>=-eq-ok
              (check_services host.accepts area_id standards_version timestamp rule
                (health_issues host manifest_path paths) rest)
              _ h2 in
          let same = ok-eq (sym i ∙ health_issues_lem paths name config r) in
          let mine =
            ids_of-build_issues (has_no_handler texts paths config) name
              (declared_healthcheck config)
              (ap (build_issues host.accepts area_id standards_version timestamp rule) (sym same)
                ∙ b) in
          ap ids_of (sym (ok-eq h3))
          ∙ kept_ids (has_no_handler texts paths config) (name, config) _ findings others mine
              (ids_of-check_services paths rest r o)

-- If the scanned code can be read, the findings on healthchecks are, in order, those of the services
-- that are not planned and whose declared healthcheck stands in no scanned file, under the rule
-- SVC-002.
pub ids_of-svc002_findings :
    (host : EvaluatorHost) (lifecycle : LifecycleHost) (project_area : ProjectArea)
    (standards_version timestamp : String) (audit_date : ℕ) (manifest_path : String)
    (found : Dict Fields) (texts : String → String) {fs : List FindingRecord}
    → IsReadable host texts (code_paths_to_scan host project_area)
    → svc002_findings host lifecycle project_area standards_version timestamp audit_date
        manifest_path found
      ≡ ok fs
    → (rule : RuleRecord) × (get "SVC-002" (rules_by_id host.snapshot "service-lifecycle")
        ≡ some rule)
      × (map (λ (f : FindingRecord). f.finding_id) fs
          ≡ map
              (λ p. health_id rule project_area.area_id p.0)
              (filter
                (λ p. has_no_handler texts (code_paths_to_scan host project_area) p.1)
                (in_order host.unicode.lower found)))
unfolding svc002_findings
ids_of-svc002_findings host lifecycle project_area standards_version timestamp audit_date
      manifest_path found texts r h =
    let rules = rules_by_id host.snapshot "service-lifecycle" in
    let (rule, g, h1) = >>=-eq-ok (or_raise key_error (get "SVC-002" rules)) _ h in
    (
      rule,
      or_raise-some key_error (get "SVC-002" rules) g,
      ids_of-check_services host texts manifest_path project_area.area_id standards_version
          timestamp rule (code_paths_to_scan host project_area) (in_order host.unicode.lower found)
          r h1,
    )
