-- ===== src/AppliesTo/Effective.antt =====
-- The globs that hold for a rule.
use standards_control_plane.Prelude.{
  Bool, List, Option, String, [], ap, arith, elem, false, if◌then◌else◌, none, not, refl, some,
  true, ◌&&◌, ◌==◌, ◌∙◌, ◌∷◌, ◌≡◌,
}
use standards_control_plane.Unique.Laws.{IsUnique, ordered_unique_lem}
use standards_control_plane.Json.{Value, ensure_string_list, ensure_string_list-strs, strs}
use standards_control_plane.AppliesTo.Fallback.{
  applies_to_for_rule, declared_globs, fallback_by_domain, fallback_by_rule_id, globs_of, or_domain,
}

abbrev IsTable : Option (List String) → Type 0
IsTable none = Unit
IsTable (some globs) = IsUnique globs

unique_check : List String → Bool
unique_check [] = true
unique_check (x ∷ xs) = not (elem x xs) && unique_check xs

IsUnique-of_check : (xs : List String) → unique_check xs ≡ true → IsUnique xs
unfolding unique_check
IsUnique-of_check [] h = tt
IsUnique-of_check (x ∷ xs) h = (ground arith, IsUnique-of_check xs (ground arith))

abbrev table_check : Option (List String) → Bool
unfolding unique_check
table_check none = true
table_check (some globs) = unique_check globs

IsTable-of_check : (o : Option (List String)) → table_check o ≡ true → IsTable o
unfolding table_check
IsTable-of_check none h = tt
IsTable-of_check (some globs) h = IsUnique-of_check globs h

if-check :
    (b : Bool) (x y : Option (List String))
    → table_check x ≡ true
    → table_check y ≡ true
    → table_check (if b then x else y) ≡ true
if-check true x y p q = p
if-check false x y p q = q

by_rule_id-check : (rule_id : String) → table_check (fallback_by_rule_id rule_id) ≡ true
unfolding fallback_by_rule_id unique_check table_check
by_rule_id-check rule_id = if-check (rule_id == "SVC-001") _ _ refl (
    if-check (rule_id == "SVC-002") _ _ refl (
      if-check (rule_id == "SVC-003") _ _ refl (
        if-check (rule_id == "ARCH-006") _ _ refl
          (if-check (rule_id == "SVC-004") _ _ refl (refl)))))

by_domain-check : (domain : String) → table_check (fallback_by_domain domain) ≡ true
unfolding fallback_by_domain unique_check table_check
by_domain-check domain = if-check (domain == "governance") _ _ refl (
    if-check (domain == "architecture") _ _ refl (
      if-check (domain == "ux") _ _ refl (
        if-check (domain == "design") _ _ refl (
          if-check (domain == "product") _ _ refl
            (if-check (domain == "service-lifecycle") _ _ refl (refl))))))

or_domain-IsUnique : (a b : Option (List String)) → IsTable a → IsTable b → IsUnique (or_domain a b)
or_domain-IsUnique none none p q = tt
or_domain-IsUnique none (some globs) p q = q
or_domain-IsUnique (some globs) b p q = p

globs_of-IsUnique :
    (o : Option (List String)) (rule_id domain : String) → IsUnique (globs_of o rule_id domain)
globs_of-IsUnique none rule_id domain =
    or_domain-IsUnique (fallback_by_rule_id rule_id) (fallback_by_domain domain)
      (IsTable-of_check _ (by_rule_id-check rule_id)) (IsTable-of_check _ (by_domain-check domain))
globs_of-IsUnique (some globs) rule_id domain = (ordered_unique_lem globs).0

-- No rule has a glob twice, whatever is declared; a declared list of texts holds for the rule, all
-- of it and nothing else.
pub applies_to_for_rule_lem :
    (rule_id domain : String) (declared : Value)
    → IsUnique (applies_to_for_rule rule_id domain declared)
      × ((globs : List String) (s : String)
          → elem s (applies_to_for_rule rule_id domain (strs globs)) ≡ elem s globs)
unfolding applies_to_for_rule
applies_to_for_rule_lem rule_id domain declared = (
  globs_of-IsUnique (declared_globs (ensure_string_list declared)) rule_id domain,
  λ globs s.
      ap (λ r. elem s (globs_of (declared_globs r) rule_id domain)) (ensure_string_list-strs globs)
      ∙ (ordered_unique_lem globs).1 s,
)
