-- ===== src/Consult.antt =====
-- consult.py: the answer to an agent that asks before it builds. `str.lower`, the request's digest
-- and the historical reviews, which review_evidence.py selects, are parameters.
pub mod Respond
pub mod Laws
use standards_control_plane.Text.{occurs_in, spaced}
use Prim.Native.Char.{code}
use Prim.Native.Nat.{min}
use Prim.Native.String.{◌++◌ as join}
use standards_control_plane.Json
use standards_control_plane.Prelude.{
  Bool, List, String, [], any, count_by, elem, false, if◌then◌else◌, length, map, take, true, ℕ,
  ◌*◌, ◌++◌, ◌+◌, ◌==◌, ◌||◌, ◌∷◌,
}
use standards_control_plane.Prelude.Int.{neg, pos}
use standards_control_plane.Order.{Key, int, sorted, text}
use standards_control_plane.Json.{
  Fields, Items, Value, arr, decimal, end, field, obj, of_list, str, strs,
}
use standards_control_plane.Paths.{ends_with, with_slashes}
use standards_control_plane.Unique.{dedupe_strings, ordered_unique}
use standards_control_plane.Findings.{FindingRecord}
use standards_control_plane.Registry.{PatternRecord, RuleRecord}
use standards_control_plane.Audit.{severity_order}

-- What is read of a request that its schema has accepted.
pub record ConsultRequest : Type 0 where
  pub fields : Fields
  pub domains : List String
  pub area_id : String
  pub paths : List String
  pub question : String
  pub feature_summary : String

-- `_domain_priority`
unfoldable pub domain_priority : Bool → String → ℕ
domain_priority true domain =
    if domain == "ux"
    then 0
    else if domain == "design"
    then 1
    else if domain == "architecture"
    then 2
    else if domain == "product"
    then 3
    else if domain == "governance"
    then 4
    else if domain == "service-lifecycle"
    then 5
    else 99
domain_priority false domain =
    if domain == "governance"
    then 0
    else if domain == "architecture"
    then 1
    else if domain == "service-lifecycle"
    then 2
    else if domain == "ux"
    then 3
    else if domain == "design"
    then 4
    else if domain == "product"
    then 5
    else 99

abbrev pub first_of : List String → List String
first_of xs = take 1 xs

abbrev pub flat {ℓ} : {A : Type ℓ} → (A → List String) → List A → List String
flat f [] = []
flat f (x ∷ xs) = f x ++ flat f xs

-- `_build_guidance`
abbrev pub guidance_candidates :
    List RuleRecord → List PatternRecord → List FindingRecord → List String
guidance_candidates rules patterns findings =
    map (λ (p : PatternRecord). p.summary) patterns
    ++ (flat (λ (f : FindingRecord). first_of f.suggested_remediation) findings
        ++ map (λ (r : RuleRecord). r.summary) rules)

unfoldable pub build_guidance :
    List RuleRecord → List PatternRecord → List FindingRecord → List String
unfolding dedupe_strings
build_guidance rules patterns findings =
    dedupe_strings (guidance_candidates rules patterns findings) 5

-- `_build_risks`
abbrev pub risk_candidates : List RuleRecord → List FindingRecord → List String
risk_candidates rules findings =
    flat (λ (r : RuleRecord). first_of r.signals) rules
    ++ map (λ (f : FindingRecord). f.summary) findings

unfoldable pub build_risks : List RuleRecord → List FindingRecord → List String
unfolding dedupe_strings
build_risks rules findings = dedupe_strings (risk_candidates rules findings) 5

abbrev pub one_if : {A : Type 0} → List A → ℕ
one_if [] = 0
one_if (x ∷ xs) = 1

-- The bonuses of 0.05 each.
unfoldable pub bonuses : List String → List RuleRecord → List PatternRecord → List FindingRecord → ℕ
unfolding ordered_unique
bonuses requested_domains rules patterns findings =
    min (length (ordered_unique (map (λ (r : RuleRecord). r.domain) rules)))
      (length requested_domains)
    + (one_if patterns + one_if findings)

-- `_calculate_confidence`, in ten-thousandths; rounding to two decimals gives these.
unfoldable pub calculate_confidence :
    List String → List RuleRecord → List PatternRecord → List FindingRecord → ℕ
unfolding bonuses
calculate_confidence requested_domains rules patterns findings =
    min 9500 (7500 + 500 * bonuses requested_domains rules patterns findings)

abbrev pub severity_priority_key : Bool → FindingRecord → Key
severity_priority_key frontend f =
    int (pos (severity_order f.severity))
    ∷ int (pos (domain_priority frontend f.domain))
    ∷ text f.finding_id
    ∷ []

-- `_order_findings`
unfoldable pub order_findings : Bool → List FindingRecord → List FindingRecord
unfolding sorted severity_order domain_priority
order_findings frontend findings = sorted (severity_priority_key frontend) findings

abbrev pub rule_key : Bool → RuleRecord → Key
rule_key frontend r = int (pos (domain_priority frontend r.domain)) ∷ text r.rule_id ∷ []

-- `_order_rules`
unfoldable pub order_rules : Bool → List RuleRecord → List RuleRecord
unfolding sorted domain_priority
order_rules frontend rules = sorted (rule_key frontend) rules

pub record ConsultResponse : Type 0 where
  pub request_id : String
  pub domains : List String
  pub patterns : List PatternRecord
  pub findings : List FindingRecord
  pub historical_reviews : Items
  pub rules : List RuleRecord
  pub guidance : List String
  pub risks : List String
  pub confidence : ℕ
  pub confidence_class : String

-- The dict `response`.
unfoldable pub response_to_dict : ConsultResponse → Value
response_to_dict r = obj (
    field "request_id" (str r.request_id) (
      field "domains" (strs r.domains) (
        field "approved_patterns" (arr (of_list (map pattern_reason r.patterns))) (
          field "open_findings" (arr (of_list (map open_finding r.findings))) (
            field "historical_reviews" (arr r.historical_reviews) (
              field "applicable_rules" (arr (of_list (map rule_reason r.rules))) (
                field "guidance" (strs r.guidance) (
                  field "risks" (strs r.risks) (
                    field "confidence" (decimal (pos r.confidence))
                      (field "confidence_class" (str r.confidence_class) end))))))))))
  where
    pattern_reason : PatternRecord → Value
    pattern_reason p =
        obj (field "pattern_id" (str p.pattern_id) (field "reason" (str p.summary) end))

    open_finding : FindingRecord → Value
    open_finding f = obj (
        field "finding_id" (str f.finding_id) (
          field "severity" (str f.severity) (
            field "summary" (str f.summary)
              (field "confidence_class" (str f.confidence_class) end))))

    rule_reason : RuleRecord → Value
    rule_reason q = obj (field "rule_id" (str q.rule_id) (field "reason" (str q.summary) end))

module _ (lower : String → String) where
  abbrev is_frontend_path : String → Bool
  unfolding occurs_in with_slashes ends_with
  is_frontend_path path_value =
      let normalised = lower (with_slashes path_value) in
      ends_with normalised ".tsx"
      || (ends_with normalised ".jsx" || occurs_in "/frontend/" normalised)

  -- `_is_frontend_request`
  unfoldable pub is_frontend_request : ConsultRequest → List String → Bool
  unfolding is_frontend_path
  is_frontend_request request requested_domains =
      any (λ domain. elem domain ("ux" ∷ "design" ∷ "product" ∷ [])) requested_domains
      || any is_frontend_path request.paths

  -- `_pattern_match_score`
  unfoldable pub pattern_match_score : PatternRecord → String → ℕ
  unfolding occurs_in
  pattern_match_score pattern' request_text =
      count_by (λ tag. occurs_in (lower tag) (lower request_text)) pattern'.tags

  abbrev request_text_of : ConsultRequest → String
  request_text_of request =
      spaced
        (request.question ∷ request.area_id ∷ request.feature_summary ∷ spaced request.paths ∷ [])

  -- `_order_patterns`
  unfoldable pub order_patterns : Bool → ConsultRequest → List PatternRecord → List PatternRecord
  unfolding sorted domain_priority pattern_match_score
  order_patterns frontend request patterns =
      sorted
        (λ p.
          int (pos (domain_priority frontend p.domain))
          ∷ int (neg (pattern_match_score p (request_text_of request)))
          ∷ text p.pattern_id
          ∷ [])
        patterns
