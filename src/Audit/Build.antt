-- ===== src/Audit/Build.antt =====
-- `build_audit_result` of audit.py: the normalised scope, the loop over the requested domains, and
-- the result with its JSON.
use standards_control_plane.Json
use Prim.Native.String.{◌++◌ as join}
use standards_control_plane.Prelude.{
  Bool, List, Option, Result, String, [], area_id_inference_error, err, if◌then◌else◌, map, none,
  ok, some, traverse, type_error, value_error, ℕ, ◌++◌, ◌==◌, ◌>>=◌, ◌>>◌, ◌∷◌,
}
use standards_control_plane.Prelude.Int.{pos}
use standards_control_plane.Order.{sorted}
use standards_control_plane.Json.{
  Fields, Schemas, Value, arr, end, field, item, nil, obj, of_list, str, strs, to_list,
  validate_with_schema, whole,
}
use standards_control_plane.Dict.{Dict, put}
use standards_control_plane.Findings.{FindingRecord, finding_to_dict}
use standards_control_plane.Scoring.{score_findings}
use standards_control_plane.Waivers.{
  WaiverRecord, load_waivers, select_active_waivers, waiver_to_dict,
}
use standards_control_plane.Unique.{ordered_unique}
use standards_control_plane.Audit.{
  AuditScope, SummaryCounts, applied_key, apply_waivers, deterministic_timestamp, ensure_scope,
  recommended_actions, scope_of, severity_order, sorted_by_severity, summary_counts,
}

-- What audit.py calls: the scope as `extract_scope` gives it, the area of `normalise_project_area`,
-- and the evaluators by domain; `title` is `str.title`.
pub record Parts (Scope Area : Type 0) : Type 0 where
  pub accepts : Schemas
  pub parse_timestamp : String → Result ℕ
  pub is_decimal : ℕ → Bool
  pub title : String → String
  pub extract_scope : List String → Result Scope
  pub normalise_project_area : Scope → String → Option String → Result Area
  pub area_id : Area → String
  pub evaluator : String → Option (Area → String → String → Result (List FindingRecord))

pub data DomainStatus : Type 0 where
  evaluated : DomainStatus
  not_evaluated : String → DomainStatus

-- The variables of the loop over the domains.
pub record Progress : Type 0 where
  pub findings : List FindingRecord
  pub recommended : List String
  pub waivers_applied : List WaiverRecord
  pub scores : Dict ℕ
  pub domain_status : Dict DomainStatus

abbrev pub no_progress : Progress
no_progress = record {
  findings = [];
  recommended = [];
  waivers_applied = [];
  scores = [];
  domain_status = [];
}

pub record AuditResult : Type 0 where
  pub audit_id : String
  pub scope : Fields
  pub domain_status : Dict DomainStatus
  pub scores : Dict ℕ
  pub summary : SummaryCounts
  pub findings : List FindingRecord
  pub waivers_applied : List WaiverRecord
  pub regressions : List String
  pub recommended : List String
  pub generated_at : String

-- `{**fs, k: v}`
abbrev put_field : String → Value → Fields → Fields
put_field k v end = field k v end
put_field k v (field j w fs) =
    let rest = put_field k v fs in if j == k then field j v fs else field j w rest

abbrev pub status_to_dict : DomainStatus → Value
status_to_dict evaluated = obj (field "status" (str "evaluated") end)
status_to_dict (not_evaluated reason) =
    obj (field "status" (str "not_evaluated") (field "reason" (str reason) end))

abbrev pub fields_of {ℓ} : {V : Type ℓ} → (V → Value) → Dict V → Fields
fields_of f [] = end
fields_of f ((k, v) ∷ d) = field k (f v) (fields_of f d)

abbrev pub count : ℕ → Value
count n = whole (pos n)

unfoldable pub summary_to_dict : SummaryCounts → Value
summary_to_dict c = obj (
    field "high_severity_count" (count c.high_severity_count) (
      field "medium_severity_count" (count c.medium_severity_count) (
        field "low_severity_count" (count c.low_severity_count)
          (field "waived_count" (count c.waived_count) end))))

-- The dict `result`.
unfoldable pub audit_to_dict : AuditResult → Value
unfolding finding_to_dict waiver_to_dict summary_to_dict
audit_to_dict r = obj (
    field "audit_id" (str r.audit_id) (
      field "scope" (obj r.scope) (
        field "domain_status" (obj (fields_of status_to_dict r.domain_status)) (
          field "scores" (obj (fields_of count r.scores)) (
            field "summary" (summary_to_dict r.summary) (
              field "findings" (arr (of_list (map finding_to_dict r.findings))) (
                field "waivers_applied" (arr (of_list (map waiver_to_dict r.waivers_applied))) (
                  field "drift" (arr nil) (
                    field "regressions" (strs r.regressions) (
                      field "recommended_actions" (strs r.recommended)
                        (field "generated_at" (str r.generated_at) end)))))))))))

-- `str(v)` of a text; the request's schema admits nothing else here.
abbrev pub text_value : Value → Result String
text_value (str s) = ok s
text_value _ = err type_error

abbrev pub domains_of : Value → Result (List String)
domains_of (arr vs) = traverse text_value (to_list vs)
domains_of _ = err type_error

module _ {Scope Area : Type 0} (parts : Parts Scope Area) where
  -- The second half of `_normalise_scope`, from what inference gave.
  abbrev pub settle_area : Scope → String → Option String → Result Area → Result Area
  settle_area scope subsystem none inferred = inferred
  settle_area scope subsystem (some requested) (ok area) =
      if requested == parts.area_id area then ok area else err value_error
  settle_area scope subsystem (some requested) (err area_id_inference_error) =
      parts.normalise_project_area scope subsystem (some requested)
  settle_area scope subsystem (some requested) (err e) = err e

  -- `_normalise_scope`
  unfoldable pub normalise_scope : AuditScope → Result Area
  normalise_scope s = parts.extract_scope s.scope_paths >>= λ scope.
      settle_area scope s.subsystem s.area_hint
        (parts.normalise_project_area scope s.subsystem none)

  module _ (area : Area) (standards_version evaluated_at : String)
      (active_waivers : Dict WaiverRecord) where
    -- What an evaluated domain adds.
    unfoldable pub add_evaluated : Progress → String → List FindingRecord → Result Progress
    unfolding apply_waivers score_findings recommended_actions severity_order
    add_evaluated p domain evaluation =
        let (domain_findings, domain_waivers) = apply_waivers active_waivers evaluation in
        let sorted_domain_findings = sorted_by_severity domain_findings in
        score_findings sorted_domain_findings >>= λ score. ok (record {
          findings = p.findings ++ sorted_domain_findings;
          recommended = p.recommended ++ recommended_actions sorted_domain_findings;
          waivers_applied = p.waivers_applied ++ domain_waivers;
          scores = put domain score p.scores;
          domain_status = put domain evaluated p.domain_status;
        })

    abbrev pub add_not_evaluated : Progress → String → Progress
    add_not_evaluated p domain = record p {
      recommended =
          p.recommended
          ++ (join (parts.title domain) " domain was requested but not evaluated in this phase."
              ∷ []);
      domain_status =
          put domain
            (not_evaluated
              (join (parts.title domain) " evaluator is not implemented in this phase."))
            p.domain_status;
    }

    -- The body of the loop.
    abbrev pub audit_domain :
        Progress
        → String
        → Option (Area → String → String → Result (List FindingRecord))
        → Result Progress
    audit_domain p domain none = ok (add_not_evaluated p domain)
    audit_domain p domain (some evaluate) =
        evaluate area standards_version evaluated_at >>= λ evaluation.
        add_evaluated p domain evaluation

    unfoldable pub audit_domains : Progress → List String → Result Progress
    unfolding add_evaluated
    audit_domains p [] = ok p
    audit_domains p (domain ∷ rest) =
        audit_domain p domain (parts.evaluator domain) >>= λ next. audit_domains next rest

  abbrev pub assemble : String → String → String → Fields → Area → Progress → AuditResult
  assemble subsystem standards_version evaluated_at scope area p = record {
    audit_id = join "audit-" (join subsystem (join "-" standards_version));
    scope = put_field "area_id" (str (parts.area_id area)) scope;
    domain_status = p.domain_status;
    scores = p.scores;
    summary = summary_counts (sorted_by_severity p.findings);
    findings = sorted_by_severity p.findings;
    waivers_applied = sorted applied_key p.waivers_applied;
    regressions = [];
    recommended = ordered_unique p.recommended;
    generated_at = evaluated_at;
  }

  -- From the checked request: the area, the waivers and the loop.
  unfoldable pub audit_request :
      Fields → Option Value → String → String → AuditScope → Result AuditResult
  unfolding normalise_scope audit_domains load_waivers select_active_waivers summary_counts
      ordered_unique
  audit_request request waivers_file standards_version evaluated_at s = do
    area ← normalise_scope s
    domains_value ← item "domains" request
    requested_domains ← domains_of domains_value
    waivers ← load_waivers parts.accepts waivers_file
    active_waivers ← select_active_waivers parts.parse_timestamp waivers evaluated_at
    progress ←
        audit_domains area standards_version evaluated_at active_waivers no_progress
          requested_domains
    scope ← scope_of (Json.get "scope" request)
    ok (assemble s.subsystem standards_version evaluated_at scope area progress)

  -- `build_audit_result`
  unfoldable pub build_audit_result : Fields → Option Value → Result AuditResult
  unfolding deterministic_timestamp ensure_scope validate_with_schema audit_request audit_to_dict
  build_audit_result request waivers_file = do
    validate_with_schema parts.accepts (obj request) "audit-request.schema.json"
    version_value ← item "standards_version" request
    standards_version ← text_value version_value
    evaluated_at ← deterministic_timestamp parts.is_decimal standards_version
    s ← ensure_scope request
    result ← audit_request request waivers_file standards_version evaluated_at s
    validate_with_schema parts.accepts (audit_to_dict result) "audit-result.schema.json"
    ok result
