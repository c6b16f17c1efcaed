-- ===== src/Consult/Laws.antt =====
-- What a consult answers.
use standards_control_plane.Text.{size}
use Prim.Native.Nat.{min}
use standards_control_plane.Prelude.{
  >>=-eq-ok, All, Bool, Ensures, List, String, any, arith, elem, if◌then◌else◌, leb, length,
  length-take-le, ok, subst, sym, take, true, ℕ, ◌*◌, ◌+◌, ◌==◌, ◌||◌, ◌≡◌, ◌≤◌,
}
use standards_control_plane.Prelude.Int.{pos}
use standards_control_plane.Confidence.{classify_confidence}
use standards_control_plane.Findings.{FindingRecord, FindingsStore}
use standards_control_plane.Registry.{
  PatternRecord, RegistrySnapshot, RuleRecord, active_patterns_for, active_rules_for,
}
use standards_control_plane.Consult.{
  ConsultRequest, ConsultResponse, bonuses, build_guidance, calculate_confidence,
  guidance_candidates, is_frontend_request, order_findings, order_patterns, order_rules,
  response_to_dict, rule_key, severity_priority_key,
}
use standards_control_plane.Order.Sorted.{All-sorted, any-sorted, length-sorted}
use standards_control_plane.Json.{obj, validate_with_schema}
use standards_control_plane.Unique.{ordered_unique, unique_ordered}
use standards_control_plane.Unique.Laws.{
  IsUnique, dedupe_strings-take, ordered_unique_lem, take-IsUnique, unique_ordered-ordered_unique,
}
use standards_control_plane.Findings.Consult.{select_consult_findings, touches}
use standards_control_plane.Findings.Consult.Selection.{
  select_consult_findings_best, select_consult_findings_relevant,
}
use standards_control_plane.Consult.Respond.{
  ConsultHost, build_consult_response, respond, response_of,
}

class_of :
    (b : ℕ)
    → classify_confidence (pos (min 9500 (7500 + 500 * b)))
      ≡ ok (if leb 4 b then "high" else if leb 1 b then "medium" else "low")
unfolding classify_confidence
class_of b = ground arith

-- The confidence of a consult has a class whatever is found: "low" without a bonus, "high" with at
-- least four, else "medium".
pub classify-calculate_confidence :
    (requested_domains : List String) (rules : List RuleRecord) (patterns : List PatternRecord)
    (findings : List FindingRecord)
    → classify_confidence (pos (calculate_confidence requested_domains rules patterns findings))
      ≡ ok (
          if leb 4 (bonuses requested_domains rules patterns findings)
          then "high"
          else if leb 1 (bonuses requested_domains rules patterns findings)
          then "medium"
          else "low")
unfolding calculate_confidence
classify-calculate_confidence requested_domains rules patterns findings =
    class_of (bonuses requested_domains rules patterns findings)

-- What an answer to a request holds.
pub record IsAnswer (request : ConsultRequest) (registry : RegistrySnapshot) (r : ConsultResponse)
    : Type 0 where
  pub domains : r.domains ≡ ordered_unique request.domains
  pub relevant :
      All
        (λ f.
          (f.status ≡ "open")
          × ((elem f.domain r.domains
                || (f.area_id == request.area_id
                    || touches r.domains request.area_id (ordered_unique request.paths) f))
              ≡ true))
        r.findings
  pub few : length r.findings ≤ 5
  pub rules : (p : RuleRecord → Bool) → any p r.rules ≡ any p (active_rules_for registry r.domains)
  pub guidance :
      (length r.guidance ≤ 5)
      × IsUnique r.guidance
      × (r.guidance ≡ take 5 (ordered_unique (guidance_candidates r.rules r.patterns r.findings)))
  pub classified : classify_confidence (pos r.confidence) ≡ ok r.confidence_class

module _ (host : ConsultHost) (request : ConsultRequest) (registry : RegistrySnapshot)
    (findings_store : FindingsStore) where
  guidance_lem :
      (rules : List RuleRecord) (patterns : List PatternRecord) (findings : List FindingRecord)
      → build_guidance rules patterns findings
        ≡ take 5 (ordered_unique (guidance_candidates rules patterns findings))
  unfolding build_guidance
  guidance_lem rules patterns findings =
      dedupe_strings-take (guidance_candidates rules patterns findings) 5 (omega arith)

  abbrev IsRelevant : List String → FindingRecord → Type 0
  IsRelevant ds f =
      (f.status ≡ "open")
      × ((elem f.domain ds
            || (f.area_id == request.area_id
                || touches ds request.area_id (ordered_unique request.paths) f))
          ≡ true)

  respond-IsAnswer :
      (ds : List String) (frontend : Bool) (patterns : List PatternRecord)
      (selected : List FindingRecord) {r : ConsultResponse}
      → ds ≡ ordered_unique request.domains
      → All (IsRelevant ds) selected
      → length selected ≤ 5
      → respond host request ds
          (order_rules frontend (active_rules_for registry ds))
          patterns
          (order_findings frontend selected)
        ≡ ok r
      → IsAnswer request registry r
  unfolding respond response_of order_rules order_findings
  respond-IsAnswer ds frontend patterns selected {r} same relevant few h =
      let rules = order_rules frontend (active_rules_for registry ds) in
      let findings = order_findings frontend selected in
      let (confidence_class, c, h1) =
        >>=-eq-ok (classify_confidence (pos (calculate_confidence ds rules patterns findings))) _
          h in
      let response = response_of host request ds rules patterns findings confidence_class in
      let (_, _, h2) =
        >>=-eq-ok
          (validate_with_schema host.accepts (response_to_dict response)
            "consult-response.schema.json")
          _ h1 in
      let shown = guidance_lem rules patterns findings in
      let candidates = guidance_candidates rules patterns findings in
      subst (Ensures (IsAnswer request registry)) h2 (record {
        domains = same;
        relevant = All-sorted (severity_priority_key frontend) (IsRelevant ds) selected relevant;
        few =
            subst (λ n. n ≤ 5) (sym (length-sorted (severity_priority_key frontend) selected)) few;
        rules = λ p. any-sorted (rule_key frontend) p (active_rules_for registry ds);
        guidance = (
          subst (λ l. length l ≤ 5) (sym shown) (length-take-le 5 (ordered_unique candidates)),
          subst IsUnique (sym shown)
              (take-IsUnique 5 (ordered_unique candidates) (ordered_unique_lem candidates).0),
          shown,
        );
        classified = c;
      })

  -- A consult that is answered has the requested domains once each, at most five findings, all of
  -- them open and of a requested domain, of the area, or touching a requested path, the active
  -- rules of the domains, at most five lines of guidance without repetition, and the class of its
  -- confidence.
  pub build_consult_response-IsAnswer :
      {r : ConsultResponse}
      → build_consult_response host request registry findings_store ≡ ok r
      → IsAnswer request registry r
  unfolding build_consult_response
  build_consult_response-IsAnswer h =
      let (_, _, h1) =
        >>=-eq-ok
          (validate_with_schema host.accepts (obj request.fields) "consult-request.schema.json") _
          h in
      let ds = unique_ordered request.domains in
      let paths = unique_ordered request.paths in
      let frontend = is_frontend_request host.lower request ds in
      let (selected, s, h2) =
        >>=-eq-ok (select_consult_findings ds request.area_id paths findings_store 5) _ h1 in
      let relevant = select_consult_findings_relevant ds request.area_id paths findings_store 5 s in
      let (dropped, _, _, size) =
        select_consult_findings_best ds request.area_id paths findings_store 5 s in
      respond-IsAnswer ds frontend
        (order_patterns host.lower frontend request (active_patterns_for registry ds)) selected
        (unique_ordered-ordered_unique request.domains)
        (subst
          (λ ps.
            All
              (λ f.
                (f.status ≡ "open")
                × ((elem f.domain ds
                      || (f.area_id == request.area_id || touches ds request.area_id ps f))
                    ≡ true))
              selected)
          (unique_ordered-ordered_unique request.paths) relevant)
        (omega arith) h2
