-- ===== src/Evaluators/Active.antt =====
-- The rules that an evaluator looks up are active rules of its domain.
use standards_control_plane.Prelude.{
  All, All-append, All-filter_self, List, Option, String, [], elem, none, refl, some, true, ◌∷◌,
  ◌≡◌,
}
use standards_control_plane.Dict.{get}
use standards_control_plane.Dict.Laws.{All-get, All-update}
use standards_control_plane.Registry.{
  DomainRegistry, RegistrySnapshot, RuleRecord, active_rules_for, by_id, entries, usable_rules,
  usable_statuses,
}
use standards_control_plane.Evaluators.{rules_by_id}

abbrev IsUsable : String × RuleRecord → Type 0
IsUsable p = (p.1.rule_id ≡ p.0) × (elem p.1.status usable_statuses ≡ true)

entries-IsUsable :
    (rules : List RuleRecord)
    → All (λ (r : RuleRecord). elem r.status usable_statuses ≡ true) rules
    → All IsUsable (entries (λ (r : RuleRecord). r.rule_id) rules)
entries-IsUsable [] h = tt
entries-IsUsable (r ∷ rules) h = ((refl, h.0), entries-IsUsable rules h.1)

usable_rules-usable :
    (d : Option DomainRegistry)
    → All (λ (r : RuleRecord). elem r.status usable_statuses ≡ true) (usable_rules d)
usable_rules-usable none = tt
usable_rules-usable (some d) =
    All-filter_self (λ (r : RuleRecord). elem r.status usable_statuses) d.rules

active_rules_for-usable :
    (s : RegistrySnapshot) (domains : List String)
    → All (λ (r : RuleRecord). elem r.status usable_statuses ≡ true) (active_rules_for s domains)
unfolding active_rules_for
active_rules_for-usable s [] = tt
active_rules_for-usable s (d ∷ ds) =
    All-append _ (usable_rules (get d s.domains)) (active_rules_for s ds)
      (usable_rules-usable (get d s.domains)) (active_rules_for-usable s ds)

pub rules_by_id-active :
    (s : RegistrySnapshot) (domain key : String) {rule : RuleRecord}
    → get key (rules_by_id s domain) ≡ some rule
    → (rule.rule_id ≡ key) × (elem rule.status usable_statuses ≡ true)
unfolding rules_by_id by_id
rules_by_id-active s domain key h =
    let rules = active_rules_for s (domain ∷ []) in
    All-get IsUsable key _
      (All-update IsUsable [] (entries (λ (r : RuleRecord). r.rule_id) rules) tt
        (entries-IsUsable rules (active_rules_for-usable s (domain ∷ []))))
      h
