-- ===== src/Calibration.antt =====
-- calibration.py: the summary of false positives in the history. Its file is written by `os.replace`
-- of one staged file, which is not modelled.
pub mod Laws
pub mod Counts
use standards_control_plane.Prelude.{
  Bool, List, Result, String, [], filter, if◌then◌else◌, length, map, ok, take, ℕ, ◌&&◌, ◌++◌, ◌==◌,
  ◌>>=◌, ◌>>◌, ◌∷◌,
}
use standards_control_plane.Prelude.Int.{neg, pos}
use standards_control_plane.Order.{Key, int, leb_text, sorted, text}
use standards_control_plane.Json.{
  Schemas, Value, arr, end, field, obj, of_list, str, strs, validate_with_schema, whole,
}
use standards_control_plane.Unique.{ordered_unique}
use standards_control_plane.Findings.{FindingRecord, FindingsStore, finding_to_dict}
use standards_control_plane.Findings.Reconcile.{or_text}

-- `_rule_key`
unfoldable pub rule_pair : FindingRecord → String × String
rule_pair f = (f.domain, or_text f.rule_id "unmapped")

-- `a == b` on pairs of texts.
abbrev pub pair_eq : String × String → String × String → Bool
pair_eq a b = a.0 == b.0 && a.1 == b.1

abbrev pub Groups : Type 0
Groups = List ((String × String) × List FindingRecord)

-- `grouped.setdefault(key, []).append(finding)`
unfoldable pub append_to : String × String → FindingRecord → Groups → Groups
append_to key f [] = (key, f ∷ []) ∷ []
append_to key f ((k, fs) ∷ rest) =
    let others = append_to key f rest in
    if pair_eq k key then (k, fs ++ (f ∷ [])) ∷ rest else (k, fs) ∷ others

-- The loop that groups.
unfoldable pub group_from : Groups → List FindingRecord → Groups
unfolding append_to rule_pair
group_from grouped [] = grouped
group_from grouped (f ∷ rest) = group_from (append_to (rule_pair f) f grouped) rest

pub record RuleSummary : Type 0 where
  pub domain : String
  pub rule_id : String
  pub total : ℕ
  pub latest_at : String
  pub confidence_classes : List String

-- `max(...)` of texts, from a first one.
unfoldable latest : String → List FindingRecord → String
unfolding leb_text
latest t [] = t
latest t (f ∷ fs) = latest (if leb_text f.updated_at t then t else f.updated_at) fs

-- A group is never empty; `max` of nothing would raise.
unfoldable latest_of : List FindingRecord → String
unfolding latest
latest_of [] = ""
latest_of (f ∷ fs) = latest f.updated_at fs

unfoldable pub rule_summary : (String × String) × List FindingRecord → RuleSummary
unfolding latest_of sorted ordered_unique
rule_summary (key, fs) = record {
  domain = key.0;
  rule_id = key.1;
  total = length fs;
  latest_at = latest_of fs;
  confidence_classes =
      sorted (λ s. text s ∷ [])
        (ordered_unique (map (λ (f : FindingRecord). f.confidence_class) fs));
}

abbrev pub summary_key : RuleSummary → Key
summary_key s = int (neg s.total) ∷ text s.domain ∷ text s.rule_id ∷ []

abbrev pub recent_key : FindingRecord → Key
recent_key f = text f.updated_at ∷ text f.finding_id ∷ []

abbrev pub reversed {ℓ} : {A : Type ℓ} → List A → List A → List A
reversed onto [] = onto
reversed onto (x ∷ xs) = reversed (x ∷ onto) xs

-- `sorted(xs, key=key, reverse=True)` keeps the order of elements with equal keys.
unfoldable pub sorted_down : {A : Type 0} → (A → Key) → List A → List A
unfolding sorted
sorted_down key xs = reversed [] (sorted key (reversed [] xs))

pub record FalsePositiveSummary : Type 0 where
  pub generated_at : String
  pub total_false_positive_count : ℕ
  pub by_rule : List RuleSummary
  pub recent_false_positives : List FindingRecord
  pub calibration_actions : List String

rule_summary_to_dict : RuleSummary → Value
rule_summary_to_dict s = obj (
    field "domain" (str s.domain) (
      field "rule_id" (str s.rule_id) (
        field "count" (whole (pos s.total)) (
          field "latest_at" (str s.latest_at)
            (field "confidence_classes" (strs s.confidence_classes) end)))))

-- The dict `summary`.
unfoldable pub false_positives_to_dict : FalsePositiveSummary → Value
unfolding rule_summary_to_dict finding_to_dict
false_positives_to_dict s = obj (
    field "generated_at" (str s.generated_at) (
      field "total_false_positive_count" (whole (pos s.total_false_positive_count)) (
        field "by_rule" (arr (of_list (map rule_summary_to_dict s.by_rule))) (
          field "recent_false_positives"
            (arr (of_list (map finding_to_dict s.recent_false_positives)))
            (field "calibration_actions" (strs s.calibration_actions) end)))))

abbrev pub actions_for : List RuleSummary → List String
actions_for [] = "No false positives are currently recorded in persisted history." ∷ []
actions_for (s ∷ ss) =
    "Review rules with repeated false positives before increasing enforcement weight." ∷ []

abbrev pub is_false_positive : FindingRecord → Bool
is_false_positive f = f.status == "false_positive"

unfoldable pub summary_of : FindingsStore → FalsePositiveSummary
unfolding group_from rule_summary sorted sorted_down
summary_of history_store =
    let false_positives = filter is_false_positive history_store.findings in
    let by_rule = sorted summary_key (map rule_summary (group_from [] false_positives)) in
    record {
      generated_at = history_store.generated_at;
      total_false_positive_count = length false_positives;
      by_rule = by_rule;
      recent_false_positives = take 10 (sorted_down recent_key false_positives);
      calibration_actions = actions_for by_rule;
    }

-- `build_false_positive_summary`
unfoldable pub build_false_positive_summary : Schemas → FindingsStore → Result FalsePositiveSummary
unfolding summary_of validate_with_schema false_positives_to_dict
build_false_positive_summary accepts history_store = do
  let summary = summary_of history_store
  validate_with_schema accepts (false_positives_to_dict summary)
      "false-positive-summary.schema.json"
  ok summary
