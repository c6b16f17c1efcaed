-- ===== src/Assembly/Traced.antt =====
-- Where the findings of an audit come from: the files of the requested paths, the area of these,
-- and the active rules of the requested domains.
use standards_control_plane.Assembly.Area.{IsAreaFor, normalise_scope-IsAreaFor}
use Prim.Native.String.{◌++◌ as join}
use text.Mathlib.TextLemmas.{append-ne-nil_of_right_ne-nil}
use standards_control_plane.Json
use standards_control_plane.Prelude.{
  ==-false, ==-false→ne, >>=-eq-ok, >>=-of_ok, All, All-mono, Bool, Bool-cases, List, Option,
  Result, String, [], ap, elem, false, inl, inr, none, ok, ok-eq, refl, some, subst, sym, true,
  value-eq, ℕ, ◌==◌, ◌>>=◌, ◌∙◌, ◌∷◌, ◌≡◌,
}
use standards_control_plane.Extractor.{ExtractedScope}
use standards_control_plane.Normaliser.Build.{ProjectArea}
use standards_control_plane.ReviewEvidence.{ReviewHost}
use standards_control_plane.Audit.{
  AuditScope, audit_key, deterministic_timestamp, ensure_scope, is_date, scope_of,
}
use standards_control_plane.Audit.Build.{
  AuditResult, Parts, audit_domains, audit_request, audit_to_dict, build_audit_result, domains_of,
  no_progress, normalise_scope, text_value,
}
use standards_control_plane.Evaluators.{EvaluatorHost, rules_by_id}
use standards_control_plane.Evaluators.ServiceLifecycle.{LifecycleHost}
use standards_control_plane.Assembly.{findings_by, program}
use standards_control_plane.Dict.{get}
use standards_control_plane.Findings.{FindingRecord}
use standards_control_plane.Registry.{RuleRecord, usable_statuses}
use standards_control_plane.Audit.Domains.{GivesAll, audit_domains-All}
use standards_control_plane.Evaluators.Laws.{IsFromRule}
use standards_control_plane.Evaluators.Active.{rules_by_id-active}
use standards_control_plane.Evaluators.Table.{Evaluator, evaluators, evaluators-IsReport}
use standards_control_plane.Order.Sorted.{All-sorted}
use standards_control_plane.Json.{Fields, Value, item, obj, validate_with_schema}
use standards_control_plane.Waivers.{load_waivers, select_active_waivers}
use standards_control_plane.Unique.Sets.{All-elem_self}

deterministic_timestamp-non_empty :
    (is_decimal : ℕ → Bool) (standards_version : String) {at : String}
    → deterministic_timestamp is_decimal standards_version ≡ ok at
    → (at == "") ≡ false
unfolding deterministic_timestamp
deterministic_timestamp-non_empty is_decimal standards_version h =
    elim (Bool-cases (is_date is_decimal standards_version)) [
      | inl d ↦
          subst (λ t. (t == "") ≡ false) (ok-eq (rw d at h))
            (==-false (join standards_version "T00:00:00Z") ""
              (append-ne-nil_of_right_ne-nil standards_version (==-false→ne refl)))
      | inr n ↦ cc (rw n at h)
    ]

module _ (host : EvaluatorHost) (reviews : ReviewHost) (lifecycle : LifecycleHost)
    (parse_timestamp : String → Result ℕ) (title : String → String) where
  abbrev own_parts : Parts ExtractedScope ProjectArea
  own_parts = program host reviews lifecycle parse_timestamp title

  -- A finding of an audit: of a requested domain and of the area, dated by the audit, with the
  -- severity of the active rule that the registry lists for the domain under its identifier, open
  -- or waived.
  pub record IsTraced (requested_domains : List String) (area : ProjectArea) (at : String)
      (f : FindingRecord) : Type 0 where
    pub requested : elem f.domain requested_domains ≡ true
    pub of_area : f.area_id ≡ area.area_id
    pub dated : (f.created_at ≡ at) × (f.updated_at ≡ at)
    pub rule : RuleRecord
    pub listed : get rule.rule_id (rules_by_id host.snapshot f.domain) ≡ some rule
    pub under_rule : f.rule_id ≡ some rule.rule_id
    pub active : elem rule.status usable_statuses ≡ true
    pub severity : f.severity ≡ rule.severity_default
    pub open_or_waived : elem f.status ("open" ∷ "waived" ∷ []) ≡ true

  waived-IsTraced :
      (requested_domains : List String) (area : ProjectArea) (at : String) (f : FindingRecord)
      → IsTraced requested_domains area at f
      → IsTraced requested_domains area at (record f { status = "waived" })
  waived-IsTraced requested_domains area at f t = record {
    requested = t.requested;
    of_area = t.of_area;
    dated = t.dated;
    rule = t.rule;
    listed = t.listed;
    under_rule = t.under_rule;
    active = t.active;
    severity = t.severity;
    open_or_waived = refl;
  }

  from_rule-IsTraced :
      (domain : String) (requested_domains : List String) (area : ProjectArea)
      (standards_version at : String) (f : FindingRecord)
      → elem domain requested_domains ≡ true
      → IsFromRule host.accepts domain area.area_id standards_version at
          (rules_by_id host.snapshot domain)
          f
      → IsTraced requested_domains area at f
  from_rule-IsTraced domain requested_domains area standards_version at f e r = record {
    requested = rw r.same_domain e;
    of_area = r.same_area;
    dated = r.dated;
    rule = r.rule;
    listed = rw r.same_domain (
        subst (λ k. get k (rules_by_id host.snapshot domain) ≡ some r.rule)
          (sym (rules_by_id-active host.snapshot domain r.key r.listed).0) r.listed);
    under_rule = r.same_rule;
    active = (rules_by_id-active host.snapshot domain r.key r.listed).1;
    severity = r.same_severity;
    open_or_waived = rw r.is_open refl;
  }

  gives-IsTraced :
      (requested_domains : List String) (area : ProjectArea) (standards_version at domain : String)
      → (at == "") ≡ false
      → elem domain requested_domains ≡ true
      → GivesAll own_parts area standards_version at (IsTraced requested_domains area at) domain
  gives-IsTraced requested_domains area standards_version at domain n e evaluate fs s h =
      of_entry (get domain (evaluators host reviews lifecycle)) refl s h
    where
      of_entry :
          (o : Option Evaluator) {run : ProjectArea → String → String → Result (List FindingRecord)}
          {found : List FindingRecord}
          → get domain (evaluators host reviews lifecycle) ≡ o
          → findings_by o ≡ some run
          → run area standards_version at ≡ ok found
          → All (IsTraced requested_domains area at) found
      of_entry none g q r = cc
      of_entry (some evaluator') g q r =
          let (evaluation, v, r1) =
            >>=-eq-ok (evaluator' area standards_version (some at)) _
              (ap (λ k. k area standards_version at) (value-eq q) ∙ r) in
          let report =
            evaluators-IsReport host reviews lifecycle area standards_version at domain n g v in
          subst (All (IsTraced requested_domains area at)) (ok-eq r1) (
            All-mono _ _ evaluation.findings
              (λ f. from_rule-IsTraced domain requested_domains area standards_version at f e)
              report.from_rules)

  -- What an audit of the request went by.
  pub record IsTracedAudit (request : Fields) (result : AuditResult) : Type 0 where
    pub asked : AuditScope
    pub of_request : ensure_scope request ≡ ok asked
    pub area : ProjectArea
    pub is_area : IsAreaFor host asked area
    pub requested_domains : List String
    pub domains : (item "domains" request >>= domains_of) ≡ ok requested_domains
    pub traced : All (IsTraced requested_domains area result.generated_at) result.findings

  requested-IsTraced :
      (request : Fields) (waivers_file : Option Value) (standards_version at : String)
      (asked : AuditScope) {result : AuditResult}
      → (at == "") ≡ false
      → ensure_scope request ≡ ok asked
      → audit_request own_parts request waivers_file standards_version at asked ≡ ok result
      → IsTracedAudit request result
  unfolding audit_request
  requested-IsTraced request waivers_file standards_version at asked n q h =
      let (area, a, h1) = >>=-eq-ok (normalise_scope own_parts asked) _ h in
      let (domains_value, d, h2) = >>=-eq-ok (item "domains" request) _ h1 in
      let (requested_domains, r, h3) = >>=-eq-ok (domains_of domains_value) _ h2 in
      let (waivers, w, h4) = >>=-eq-ok (load_waivers host.accepts waivers_file) _ h3 in
      let (active, c, h5) = >>=-eq-ok (select_active_waivers parse_timestamp waivers at) _ h4 in
      let (progress, l, h6) =
        >>=-eq-ok
          (audit_domains own_parts area standards_version at active no_progress requested_domains) _
          h5 in
      let (scope, o, h7) = >>=-eq-ok (scope_of (Json.get "scope" request)) _ h6 in
      let P = IsTraced requested_domains area at in
      let found =
        audit_domains-All own_parts area standards_version at active P
          (waived-IsTraced requested_domains area at) no_progress requested_domains
          (All-mono _ _ requested_domains
            (λ domain. gives-IsTraced requested_domains area standards_version at domain n)
            (All-elem_self requested_domains))
          tt l in
      subst (IsTracedAudit request) (ok-eq h7) (record {
        asked = asked;
        of_request = q;
        area = area;
        is_area = normalise_scope-IsAreaFor host reviews lifecycle parse_timestamp title asked a;
        requested_domains = requested_domains;
        domains = >>=-of_ok domains_of d ∙ r;
        traced = All-sorted audit_key P progress.findings found;
      })

  -- An audit that succeeds is of the files that a walk from the requested paths finds and of the
  -- area that they have; each of its findings belongs to a requested domain and to this area, is
  -- dated by the audit, is open or waived, and has the severity of the active rule that the registry
  -- lists for its domain under its rule's identifier.
  pub build_audit_result-IsTracedAudit :
      (request : Fields) (waivers_file : Option Value) {result : AuditResult}
      → build_audit_result own_parts request waivers_file ≡ ok result
      → IsTracedAudit request result
  unfolding build_audit_result
  build_audit_result-IsTracedAudit request waivers_file h =
      let (_, _, h1) =
        >>=-eq-ok (validate_with_schema host.accepts (obj request) "audit-request.schema.json") _
          h in
      let (version_value, _, h2) = >>=-eq-ok (item "standards_version" request) _ h1 in
      let (standards_version, _, h3) = >>=-eq-ok (text_value version_value) _ h2 in
      let (at, e, h4) =
        >>=-eq-ok (deterministic_timestamp host.unicode.is_decimal standards_version) _ h3 in
      let (asked, q, h5) = >>=-eq-ok (ensure_scope request) _ h4 in
      let (r, a, h6) =
        >>=-eq-ok (audit_request own_parts request waivers_file standards_version at asked) _ h5 in
      let (_, _, h7) =
        >>=-eq-ok (validate_with_schema host.accepts (audit_to_dict r) "audit-result.schema.json") _
          h6 in
      subst (IsTracedAudit request) (ok-eq h7) (
        requested-IsTraced request waivers_file standards_version at asked
          (deterministic_timestamp-non_empty host.unicode.is_decimal standards_version e) q a)
