-- ===== src/Evaluators/Laws.antt =====
-- What an evaluation consists of, whatever its checks.
use standards_control_plane.Prelude.{
  >>=-eq-ok, All, Bool, Ensures, List, Option, String, [], all, any, any-append, ap, arith, elem,
  false, guard, guard-eq-ok, key_error, none, ok, ok-eq, or_raise, or_raise-some, refl, some, subst,
  traverse, traverse-cons, true, value_error, ℕ, ◌==◌, ◌||◌, ◌∙◌, ◌∷◌, ◌≡◌,
}
use standards_control_plane.Order.Sorted.{All-sorted, IsSorted, any-sorted, sorted-IsSorted}
use standards_control_plane.Dict.{Dict, get}
use standards_control_plane.Json.{Schemas, validate_with_schema}
use standards_control_plane.Confidence.{classify_confidence}
use standards_control_plane.Unique.Laws.{IsUnique, ordered_unique_lem}
use standards_control_plane.Findings.{FindingRecord, finding_to_dict, sorted_findings}
use standards_control_plane.Scoring.{score_findings}
use standards_control_plane.Registry.{RuleRecord}
use standards_control_plane.Audit.{audit_key, sorted_by_severity}
use standards_control_plane.Evaluators.{
  Check, Draft, Evaluation, all_actions, build_finding, built, evaluate_checks, finding_of,
  known_severities, prepend, recommended_of, run_check, run_checks, sorted_known,
}

abbrev pub holds_of : (FindingRecord → Bool) → Option FindingRecord → Bool
holds_of p none = false
holds_of p (some f) = p f

elem-all_actions :
    (s : String) (fs : List FindingRecord)
    → elem s (all_actions fs) ≡ any (λ (f : FindingRecord). elem s f.suggested_remediation) fs
elem-all_actions s [] = refl
elem-all_actions s (f ∷ fs) =
    any-append (λ z. s == z) f.suggested_remediation (all_actions fs)
    ∙ ground (arith, elem-all_actions s fs)

all-All : {A : Type 0} (p : A → Bool) (xs : List A) → all p xs ≡ true → All (λ x. p x ≡ true) xs
all-All p [] h = tt
all-All p (x ∷ xs) h = (ground arith, all-All p xs (ground arith))

module _ (accepts : Schemas) (domain area_id standards_version timestamp : String)
    (rules : Dict RuleRecord) where
  -- A finding that a rule of the evaluator's table gives rise to.
  pub record IsFromRule (f : FindingRecord) : Type 0 where
    pub key : String
    pub rule : RuleRecord
    pub listed : get key rules ≡ some rule
    pub same_rule : f.rule_id ≡ some rule.rule_id
    pub same_severity : f.severity ≡ rule.severity_default
    pub same_domain : f.domain ≡ domain
    pub same_area : f.area_id ≡ area_id
    pub is_open : f.status ≡ "open"
    pub dated : (f.created_at ≡ timestamp) × (f.updated_at ≡ timestamp)
    pub classified : classify_confidence f.confidence ≡ ok f.confidence_class
    pub accepted : accepts "finding.schema.json" (finding_to_dict f) ≡ true

  abbrev IsOutcome : Option FindingRecord → Type 0
  IsOutcome none = Unit
  IsOutcome (some f) = IsFromRule f

  built-IsFromRule :
      (key : String) (rule : RuleRecord) (draft : Draft) {f : FindingRecord}
      → get key rules ≡ some rule
      → build_finding accepts domain rule area_id standards_version timestamp draft ≡ ok f
      → IsFromRule f
  unfolding build_finding validate_with_schema
  built-IsFromRule key rule draft g h =
      let (confidence_class, c, h1) = >>=-eq-ok (classify_confidence draft.confidence) _ h in
      let finding =
        finding_of domain rule area_id standards_version timestamp draft confidence_class in
      let (_, valid, h2) =
        >>=-eq-ok (validate_with_schema accepts (finding_to_dict finding) "finding.schema.json") _
          h1 in
      subst (Ensures IsFromRule) h2 (record {
        key = key;
        rule = rule;
        listed = g;
        same_rule = refl;
        same_severity = refl;
        same_domain = refl;
        same_area = refl;
        is_open = refl;
        dated = (refl, refl);
        classified = c;
        accepted =
            guard-eq-ok (accepts "finding.schema.json" (finding_to_dict finding)) value_error valid;
      })

  run_check-IsOutcome :
      (check : Check) {o : Option FindingRecord}
      → run_check accepts domain area_id standards_version timestamp rules check ≡ ok o
      → IsOutcome o
  unfolding run_check
  run_check-IsOutcome check h =
      let (rule, g, h1) = >>=-eq-ok (or_raise key_error (get check.rule_id rules)) _ h in
      let (draft, d, h2) = >>=-eq-ok check.outcome _ h1 in
      of_draft rule draft (or_raise-some key_error (get check.rule_id rules) g) h2
    where
      of_draft :
          (rule : RuleRecord) (draft : Option Draft) {o : Option FindingRecord}
          → get check.rule_id rules ≡ some rule
          → built accepts domain area_id standards_version timestamp rules rule draft ≡ ok o
          → IsOutcome o
      of_draft rule none g q = subst (Ensures IsOutcome) q tt
      of_draft rule (some draft) g q =
          let (f, b, q1) =
            >>=-eq-ok (build_finding accepts domain rule area_id standards_version timestamp draft)
              _ q in
          subst (Ensures IsOutcome) q1 (built-IsFromRule check.rule_id rule draft g b)

  -- Findings in order, each from a rule, with their score and their remediations.
  pub record IsReport (e : Evaluation) : Type 0 where
    pub in_order : IsSorted audit_key e.findings
    pub from_rules : All IsFromRule e.findings
    pub scored : score_findings e.findings ≡ ok e.score
    pub actions_once : IsUnique e.recommended
    pub actions :
        (s : String)
        → elem s e.recommended
          ≡ any (λ (f : FindingRecord). elem s f.suggested_remediation) e.findings

  abbrev pub reported : ℕ → List FindingRecord → Evaluation
  reported score findings = record {
    score = score;
    findings = findings;
    recommended = recommended_of findings;
  }

  pub reported-IsReport :
      (score : ℕ) (findings : List FindingRecord)
      → IsSorted audit_key findings
      → All IsFromRule findings
      → score_findings findings ≡ ok score
      → IsReport (reported score findings)
  unfolding recommended_of
  reported-IsReport score findings o r s = record {
    in_order = o;
    from_rules = r;
    scored = s;
    actions_once = (ordered_unique_lem (all_actions findings)).0;
    actions = λ t. (ordered_unique_lem (all_actions findings)).1 t ∙ elem-all_actions t findings;
  }

  -- What the loop over the checks gives.
  record IsRun (checks : List Check) (findings : List FindingRecord) : Type 0 where
    outcomes : List (Option FindingRecord)
    ran :
        traverse (run_check accepts domain area_id standards_version timestamp rules) checks
        ≡ ok outcomes
    from_rules : All IsFromRule findings
    complete : (p : FindingRecord → Bool) → any p findings ≡ any (holds_of p) outcomes

  prepend-from_rules :
      (o : Option FindingRecord) (fs : List FindingRecord)
      → IsOutcome o
      → All IsFromRule fs
      → All IsFromRule (prepend o fs)
  prepend-from_rules none fs h hs = hs
  prepend-from_rules (some f) fs h hs = (h, hs)

  any-prepend :
      (p : FindingRecord → Bool) (o : Option FindingRecord) (fs : List FindingRecord)
      → any p (prepend o fs) ≡ (holds_of p o || any p fs)
  any-prepend p none fs = refl
  any-prepend p (some f) fs = refl

  run_checks-IsRun :
      (checks : List Check) {findings : List FindingRecord}
      → run_checks accepts domain area_id standards_version timestamp rules checks ≡ ok findings
      → IsRun checks findings
  unfolding run_checks
  run_checks-IsRun [] h =
      subst (Ensures (IsRun [])) h
        (record { outcomes = []; ran = refl; from_rules = tt; complete = λ p. refl })
  run_checks-IsRun (check ∷ checks) h =
      let run = run_check accepts domain area_id standards_version timestamp rules in
      let (o, c, h1) = >>=-eq-ok (run check) _ h in
      let (fs, r, h2) =
        >>=-eq-ok (run_checks accepts domain area_id standards_version timestamp rules checks) _
          h1 in
      let rest = run_checks-IsRun checks r in
      subst (Ensures (IsRun (check ∷ checks))) h2 (record {
        outcomes = o ∷ rest.outcomes;
        ran = traverse-cons run check checks c rest.ran;
        from_rules = prepend-from_rules o fs (run_check-IsOutcome check c) rest.from_rules;
        complete = λ p. any-prepend p o fs ∙ ap (λ b. holds_of p o || b) (rest.complete p);
      })

  -- The result of an evaluator with these checks.
  pub record IsEvaluation (checks : List Check) (e : Evaluation) : Type 0 where
    pub outcomes : List (Option FindingRecord)
    pub ran :
        traverse (run_check accepts domain area_id standards_version timestamp rules) checks
        ≡ ok outcomes
    pub complete : (p : FindingRecord → Bool) → any p e.findings ≡ any (holds_of p) outcomes
    pub known : All (λ (f : FindingRecord). elem f.severity known_severities ≡ true) e.findings
    pub report : IsReport e

  sorted-IsEvaluation :
      (checks : List Check) (findings : List FindingRecord) (score : ℕ)
      → IsRun checks findings
      → all (λ (f : FindingRecord). elem f.severity known_severities) findings ≡ true
      → score_findings (sorted_by_severity findings) ≡ ok score
      → IsEvaluation checks (reported score (sorted_by_severity findings))
  sorted-IsEvaluation checks findings score run known s = record {
    outcomes = run.outcomes;
    ran = run.ran;
    complete = λ p. any-sorted audit_key p findings ∙ run.complete p;
    known =
        All-sorted audit_key (λ (f : FindingRecord). elem f.severity known_severities ≡ true)
          findings (all-All _ findings known);
    report =
        reported-IsReport score (sorted_by_severity findings) (sorted-IsSorted audit_key findings)
          (All-sorted audit_key IsFromRule findings run.from_rules) s;
  }

  -- An evaluation that succeeds has, in order of severity and identifier, exactly the findings that
  -- its checks gave; each is an open finding of the area under an active rule of the domain, with
  -- the rule's severity and the class of its confidence; the score is theirs, and each of their
  -- remediations is recommended once.
  pub evaluate_checks-IsEvaluation :
      (checks : List Check) {e : Evaluation}
      → evaluate_checks accepts domain area_id standards_version timestamp rules checks ≡ ok e
      → IsEvaluation checks e
  unfolding evaluate_checks sorted_known
  evaluate_checks-IsEvaluation checks h =
      let (findings, r, h1) =
        >>=-eq-ok (run_checks accepts domain area_id standards_version timestamp rules checks) _
          h in
      let (sorted_findings, k, h2) = >>=-eq-ok (sorted_known findings) _ h1 in
      let (score, s, h3) = >>=-eq-ok (score_findings sorted_findings) _ h2 in
      let all_known = all (λ (f : FindingRecord). elem f.severity known_severities) findings in
      let (_, known, same) = >>=-eq-ok (guard all_known key_error) _ k in
      let whole =
        sorted-IsEvaluation checks findings score (run_checks-IsRun checks r)
          (guard-eq-ok all_known key_error known) (ap score_findings (ok-eq same) ∙ s) in
      subst (IsEvaluation checks) (ap (reported score) (ok-eq same) ∙ ok-eq h3) whole
