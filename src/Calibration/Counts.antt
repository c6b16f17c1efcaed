-- ===== src/Calibration/Counts.antt =====
-- `build_false_positive_summary` from end to end.
use standards_control_plane.Prelude.{
  >>=-eq-ok, All, All-filter_self, All-take, Bool, Bool-cases, Ensures, List, String, [], arith,
  count_by, filter, inl, inr, length, length-append, length-take-le, map, ok, refl, subst, sum_by,
  true, ℕ, ◌&&◌, ◌+◌, ◌∙◌, ◌∷◌, ◌≡◌, ◌≤◌,
}
use standards_control_plane.Order.{sorted}
use standards_control_plane.Order.Sorted.{All-sorted, IsSorted, sorted-IsSorted, sum_by-sorted}
use standards_control_plane.Json.{Schemas, validate_with_schema}
use standards_control_plane.Findings.{FindingRecord, FindingsStore}
use standards_control_plane.Calibration.{
  FalsePositiveSummary, Groups, RuleSummary, append_to, build_false_positive_summary,
  false_positives_to_dict, group_from, is_false_positive, pair_eq, recent_key, reversed, rule_pair,
  rule_summary, sorted_down, summary_key, summary_of,
}
use standards_control_plane.Calibration.Laws.{group_from-AreDistinct, size, size-group_from, sizes}

total-append_to :
    (j : String × String) (f : FindingRecord) (gs : Groups)
    → sum_by (λ g. length g.1) (append_to j f gs) ≡ sum_by (λ g. length g.1) gs + 1
unfolding append_to
total-append_to j f [] = omega arith
total-append_to j f ((i, fs) ∷ rest) = elim (Bool-cases (pair_eq i j)) [
  | inl y ↦ rw y (omega (arith, length-append fs (f ∷ [])))
  | inr n ↦ rw n (omega (arith, total-append_to j f rest))
]

total-group_from :
    (gs : Groups) (fs : List FindingRecord)
    → sum_by (λ g. length g.1) (group_from gs fs) ≡ sum_by (λ g. length g.1) gs + length fs
unfolding group_from
total-group_from gs [] = omega arith
total-group_from gs (f ∷ fs) =
    omega (
      arith,
      total-group_from (append_to (rule_pair f) f gs) fs,
      total-append_to (rule_pair f) f gs,
    )

count_by-filter :
    (p q : FindingRecord → Bool) (fs : List FindingRecord)
    → count_by p (filter q fs) ≡ count_by (λ f. q f && p f) fs
count_by-filter p q [] = refl
count_by-filter p q (f ∷ fs) = elim (Bool-cases (q f)) [
  | inl y ↦ rw y (omega (arith, count_by-filter p q fs))
  | inr n ↦ rw n (omega (arith, count_by-filter p q fs))
]

length-filter :
    (q : FindingRecord → Bool) (fs : List FindingRecord) → length (filter q fs) ≡ count_by q fs
length-filter q [] = refl
length-filter q (f ∷ fs) = elim (Bool-cases (q f)) [
  | inl y ↦ rw y (omega (arith, length-filter q fs))
  | inr n ↦ rw n (omega (arith, length-filter q fs))
]

All-reversed :
    (P : FindingRecord → Type 0) (onto fs : List FindingRecord)
    → All P onto
    → All P fs
    → All P (reversed onto fs)
All-reversed P onto [] h k = h
All-reversed P onto (f ∷ fs) h k = All-reversed P (f ∷ onto) fs (k.0, h) k.1

sum_by-summaries :
    (gs : Groups)
    → sum_by (λ (r : RuleSummary). r.total) (map rule_summary gs) ≡ sum_by (λ g. length g.1) gs
unfolding rule_summary
sum_by-summaries [] = refl
sum_by-summaries ((k, fs) ∷ gs) = omega (arith, sum_by-summaries gs)

-- The false positives of one rule.
abbrev pub is_of_rule : String → String → FindingRecord → Bool
is_of_rule domain rule_id f = is_false_positive f && pair_eq (rule_pair f) (domain, rule_id)

pub record IsCalibrated (history_store : FindingsStore) (s : FalsePositiveSummary) : Type 0 where
  pub total : s.total_false_positive_count ≡ count_by is_false_positive history_store.findings
  pub adds_up : sum_by (λ (r : RuleSummary). r.total) s.by_rule ≡ s.total_false_positive_count
  pub each :
      All (λ r. r.total ≡ count_by (is_of_rule r.domain r.rule_id) history_store.findings) s.by_rule
  pub in_order : IsSorted summary_key s.by_rule
  pub recent : All (λ f. is_false_positive f ≡ true) s.recent_false_positives
  pub few : length s.recent_false_positives ≤ 10

module _ (history_store : FindingsStore) where
  abbrev false_positives : List FindingRecord
  false_positives = filter is_false_positive history_store.findings

  abbrev groups : Groups
  groups = group_from [] false_positives

  abbrev IsCounted : RuleSummary → Type 0
  IsCounted r = r.total ≡ count_by (is_of_rule r.domain r.rule_id) history_store.findings

  plus_zero : (n : ℕ) → 0 + n ≡ n
  plus_zero n = omega arith

  each_group :
      (gs : Groups)
      → All (λ g. length g.1 ≡ size g.0 groups) gs
      → All IsCounted (map rule_summary gs)
  unfolding rule_summary
  each_group [] a = tt
  each_group ((k, fs) ∷ gs) a = (
    a.0
        ∙ size-group_from k [] false_positives
        ∙ plus_zero (count_by (λ f. pair_eq (rule_pair f) k) false_positives)
        ∙ count_by-filter (λ f. pair_eq (rule_pair f) k) is_false_positive history_store.findings,
    each_group gs a.1,
  )

  summary_of-IsCalibrated : IsCalibrated history_store (summary_of history_store)
  unfolding summary_of sorted_down
  summary_of-IsCalibrated =
      let rows = map rule_summary groups in
      let fps = false_positives in
      record {
        total = length-filter is_false_positive history_store.findings;
        adds_up =
            sum_by-sorted summary_key (λ (r : RuleSummary). r.total) rows
            ∙ sum_by-summaries groups
            ∙ total-group_from [] fps
            ∙ plus_zero (length fps);
        each =
            All-sorted summary_key IsCounted rows
              (each_group groups (sizes groups (group_from-AreDistinct [] fps tt)));
        in_order = sorted-IsSorted summary_key rows;
        recent = All-take _ 10 (sorted_down recent_key fps) (
            All-reversed (λ f. is_false_positive f ≡ true) [] (sorted recent_key (reversed [] fps))
              tt
              (All-sorted recent_key _ (reversed [] fps) (
                All-reversed (λ f. is_false_positive f ≡ true) [] fps tt
                  (All-filter_self is_false_positive history_store.findings))));
        few = length-take-le 10 (sorted_down recent_key fps);
      }

  -- A summary that is built counts the false positives of the history, its rows count those of each
  -- rule and add up to the total, the rows are in order, and at most ten false positives are shown.
  pub build_false_positive_summary-IsCalibrated :
      (accepts : Schemas) {s : FalsePositiveSummary}
      → build_false_positive_summary accepts history_store ≡ ok s
      → IsCalibrated history_store s
  unfolding build_false_positive_summary
  build_false_positive_summary-IsCalibrated accepts h =
      let (_, _, e) =
        >>=-eq-ok
          (validate_with_schema accepts (false_positives_to_dict (summary_of history_store))
            "false-positive-summary.schema.json")
          _ h in
      subst (Ensures (IsCalibrated history_store)) e summary_of-IsCalibrated
