-- ===== src/Registry/Active.antt =====
-- The rules that are active, and the places of the rules that are loaded.
use standards_control_plane.Prelude.{
  >>=-eq-ok, Bool, Ensures, Gives, Gives-bind, Gives-ok, List, Option, String, [], any, any-append,
  ap, arith, elem, eq_iff, err, false, file_not_found, filter, guard, guard-eq-ok, if◌then◌else◌,
  none, ok, refl, some, subst, sym, true, type_error, value_error, ◌&&◌, ◌++◌, ◌==◌, ◌||◌, ◌∙◌, ◌∷◌,
  ◌≡◌,
}
use standards_control_plane.Dict.{get}
use standards_control_plane.Json.{
  Fields, Value, arr, bool, decimal, ensure_object, ensure_string, item, null, obj, str,
  string_item, validate_with_schema, whole,
}
use standards_control_plane.Paths.{Location, is_relative_to, resolve}
use standards_control_plane.Paths.Resolve.{is_relative_to-below}
use standards_control_plane.Registry.{
  DomainRegistry, RegistrySnapshot, RuleRecord, active_rules_for, usable_rules, usable_statuses,
}
use standards_control_plane.Registry.Load.{
  RegistryHost, is_string, list_item, load_rule, optional_list, resolve_existing_path, rule_of,
}

abbrev pub rules_of : Option DomainRegistry → List RuleRecord
rules_of none = []
rules_of (some d) = d.rules

abbrev is_active : RuleRecord → Bool
is_active r = r.status == "active"

any-usable :
    (p : RuleRecord → Bool) (o : Option DomainRegistry)
    → any p (usable_rules o) ≡ any (λ r. p r && is_active r) (rules_of o)
any-usable p none = refl
any-usable p (some d) = any-filtered d.rules
  where
    any-filtered :
        (rs : List RuleRecord)
        → any p (filter (λ r. elem r.status usable_statuses) rs)
          ≡ any (λ r. p r && r.status == "active") rs
    any-filtered [] = refl
    any-filtered (r ∷ rs) = ground (arith, any-filtered rs)

-- A rule with some property is among the active rules of the requested domains exactly if it is
-- among the rules of one of these domains and has the status "active".
pub any-active_rules_for :
    (p : RuleRecord → Bool) (s : RegistrySnapshot) (requested_domains : List String)
    → any p (active_rules_for s requested_domains)
      ≡ any
          (λ domain_name.
            any (λ r. p r && r.status == "active") (rules_of (get domain_name s.domains)))
          requested_domains
unfolding active_rules_for
any-active_rules_for p s [] = refl
any-active_rules_for p s (d ∷ ds) =
    any-append p (usable_rules (get d s.domains)) (active_rules_for s ds)
    ∙ (rw (any-usable p (get d s.domains)) (
        ap (λ b. any (λ r. p r && is_active r) (rules_of (get d s.domains)) || b)
          (any-active_rules_for p s ds)))

module _ (host : RegistryHost) where
  resolve_existing_path_ok :
      (base_dir : Location) (relative_path : String) {place : Location}
      → resolve_existing_path host base_dir relative_path base_dir ≡ ok place
      → ((below : Location) × (place ≡ below ++ base_dir)) × (host.exists place ≡ true)
  unfolding resolve_existing_path
  resolve_existing_path_ok base_dir relative_path h =
      let candidate = resolve base_dir relative_path in
      let (_, there, h1) = >>=-eq-ok (guard (host.exists candidate) file_not_found) _ h in
      let (_, within, h2) =
        >>=-eq-ok (guard (is_relative_to candidate base_dir) value_error) _ h1 in
      subst (Ensures (λ q. ((below : Location) × (q ≡ below ++ base_dir)) × (host.exists q ≡ true)))
        h2
        (
          is_relative_to-below candidate base_dir
              (guard-eq-ok (is_relative_to candidate base_dir) value_error within),
          guard-eq-ok (host.exists candidate) file_not_found there,
        )

  abbrev IsRuleOf : Fields → Location → RuleRecord → Type 0
  IsRuleOf payload source_path r =
      (r.source_path ≡ source_path) × (string_item "domain" payload ≡ ok r.domain)

  rule_of-IsRuleOf :
      (payload : Fields) (path : String) (source_path : Location)
      → Gives (IsRuleOf payload source_path) (rule_of host payload path source_path)
  unfolding rule_of
  rule_of-IsRuleOf payload path source_path =
      Gives-bind (string_item "rule_id" payload) _ λ rule_id e1.
        Gives-bind (string_item "domain" payload) _ λ domain in_domain.
          Gives-bind (string_item "title" payload) _ λ title e3.
            Gives-bind (string_item "summary" payload) _ λ summary e4.
              Gives-bind (string_item "severity_default" payload) _ λ severity_default e5.
                Gives-bind (list_item "scope" payload) _ λ scope e6.
                  Gives-bind (list_item "signals" payload) _ λ signals e7.
                    Gives-bind (optional_list "exceptions" payload) _ λ exceptions e8.
                      Gives-bind (optional_list "related_patterns" payload) _ λ related e9.
                        Gives-bind (string_item "version" payload) _ λ version e10.
                          Gives-bind (string_item "status" payload) _
                            λ status e11. Gives-ok (refl, in_domain)

  is_string-eq :
      (domain_name domain : String) (payload : Fields) (declared : Value)
      → item "domain" payload ≡ ok declared
      → is_string domain_name declared ≡ true
      → string_item "domain" payload ≡ ok domain
      → domain ≡ domain_name
  unfolding string_item ensure_string
  is_string-eq domain_name domain payload declared at_domain same_text read =
      shown declared same_text (rw at_domain at read)
    where
      value_of_ok :
          (b : Bool) (t : String) → (if b then err type_error else ok t) ≡ ok domain → t ≡ domain
      value_of_ok true t e = cc
      value_of_ok false t e = cc

      shown :
          (v : Value)
          → is_string domain_name v ≡ true
          → ensure_string v ≡ ok domain
          → domain ≡ domain_name
      shown (str t) s e = sym (value_of_ok (t == "") t e) ∙ (eq_iff t domain_name).0 s
      shown null s e = cc
      shown (bool b) s e = cc
      shown (whole n) s e = cc
      shown (decimal n) s e = cc
      shown (arr vs) s e = cc
      shown (obj fs) s e = cc

  -- A rule that is loaded for a domain declares that domain, and its file exists below the
  -- directory of the domain's index.
  pub load_rule_confined :
      (entry : Value) (domain_name : String) (base_dir : Location) {r : RuleRecord}
      → load_rule host entry domain_name base_dir ≡ ok r
      → (r.domain ≡ domain_name)
        × ((below : Location) × (r.source_path ≡ below ++ base_dir))
        × (host.exists r.source_path ≡ true)
  unfolding load_rule
  load_rule_confined entry domain_name base_dir {r} h =
      let (payload, o, h1) = >>=-eq-ok (ensure_object entry) _ h in
      let (_, valid, h2) =
        >>=-eq-ok (validate_with_schema host.accepts (obj payload) "standards-rule.schema.json") _
          h1 in
      let (path, p, h3) = >>=-eq-ok (string_item "path" payload) _ h2 in
      let (source_path, found, h4) =
        >>=-eq-ok (resolve_existing_path host base_dir path base_dir) _ h3 in
      let (declared, d, h5) = >>=-eq-ok (item "domain" payload) _ h4 in
      let (_, same_text, h6) =
        >>=-eq-ok (guard (is_string domain_name declared) value_error) _ h5 in
      let (place, in_domain) = (rule_of-IsRuleOf payload path source_path).on_ok r h6 in
      let (below, there) = resolve_existing_path_ok base_dir path found in
      (
        is_string-eq domain_name r.domain payload declared d
            (guard-eq-ok (is_string domain_name declared) value_error same_text) in_domain,
        (below.0, place ∙ below.1),
        ap host.exists place ∙ there,
      )
