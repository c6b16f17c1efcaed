-- ===== src/Consult/Respond.antt =====
-- `build_consult_response` of consult.py.
use standards_control_plane.Prelude.{List, Result, String, ok, ◌>>=◌, ◌>>◌}
use standards_control_plane.Prelude.Int.{pos}
use standards_control_plane.Json.{Fields, Items, Schemas, obj, validate_with_schema}
use standards_control_plane.Unique.{unique_ordered}
use standards_control_plane.Confidence.{classify_confidence}
use standards_control_plane.Findings.{FindingRecord, FindingsStore}
use standards_control_plane.Findings.Consult.{select_consult_findings}
use standards_control_plane.Registry.{
  PatternRecord, RegistrySnapshot, RuleRecord, active_patterns_for, active_rules_for,
}
use standards_control_plane.Consult.{
  ConsultRequest, ConsultResponse, build_guidance, build_risks, calculate_confidence,
  is_frontend_request, order_findings, order_patterns, order_rules, response_to_dict,
}

-- What consult.py calls beside the modelled parts.
pub record ConsultHost : Type 0 where
  pub accepts : Schemas
  pub lower : String → String
  pub make_request_id : Fields → String
  pub select_historical_reviews : String → List String → Items

module _ (host : ConsultHost) where
  -- The response without its confidence class.
  unfoldable pub response_of :
      ConsultRequest
      → List String
      → List RuleRecord
      → List PatternRecord
      → List FindingRecord
      → String
      → ConsultResponse
  unfolding build_guidance build_risks calculate_confidence unique_ordered
  response_of request requested_domains rules patterns findings confidence_class = record {
    request_id = host.make_request_id request.fields;
    domains = requested_domains;
    patterns = patterns;
    findings = findings;
    historical_reviews =
        host.select_historical_reviews request.area_id (unique_ordered request.paths);
    rules = rules;
    guidance = build_guidance rules patterns findings;
    risks = build_risks rules findings;
    confidence = calculate_confidence requested_domains rules patterns findings;
    confidence_class = confidence_class;
  }

  -- The end, once the rules, patterns and findings are chosen and ordered.
  unfoldable pub respond :
      ConsultRequest
      → List String
      → List RuleRecord
      → List PatternRecord
      → List FindingRecord
      → Result ConsultResponse
  unfolding classify_confidence validate_with_schema response_of response_to_dict
  respond request requested_domains rules patterns findings = do
    confidence_class ←
        classify_confidence (pos (calculate_confidence requested_domains rules patterns findings))
    let response = response_of request requested_domains rules patterns findings confidence_class
    validate_with_schema host.accepts (response_to_dict response) "consult-response.schema.json"
    ok response

  -- `build_consult_response`, with the default limit of five findings.
  unfoldable pub build_consult_response :
      ConsultRequest → RegistrySnapshot → FindingsStore → Result ConsultResponse
  unfolding validate_with_schema unique_ordered is_frontend_request active_rules_for
      active_patterns_for order_rules order_patterns order_findings select_consult_findings respond
  build_consult_response request registry findings_store = do
    validate_with_schema host.accepts (obj request.fields) "consult-request.schema.json"
    let requested_domains = unique_ordered request.domains
    let frontend = is_frontend_request host.lower request requested_domains
    selected ←
        select_consult_findings requested_domains request.area_id (unique_ordered request.paths)
          findings_store 5
    respond request requested_domains
        (order_rules frontend (active_rules_for registry requested_domains))
        (order_patterns host.lower frontend request
          (active_patterns_for registry requested_domains))
        (order_findings frontend selected)
