-- ===== src/Registry/Laws.antt =====
-- Overlays and the choice of active rules.
use standards_control_plane.Prelude.{
  All, Bool, Bool-cases, List, Option, String, [], any, ap, arith, eq_iff, false, if◌then◌else◌,
  inl, inr, none, refl, some, subst, sym, true, ◌==◌, ◌||◌, ◌∙◌, ◌∷◌, ◌≡◌,
}
use standards_control_plane.Dict.{Dict, IsDict, contains, get, put, update, values}
use standards_control_plane.Dict.Laws.{
  All-get, All-of_get, All-update, All-values, contains-get, contains-update, get-put, get-update,
  or_else, update-IsDict,
}
use standards_control_plane.Registry.{
  DomainRegistry, PatternRecord, RegistrySnapshot, RuleRecord, by_id, entries,
  merge_domain_registry, merge_domains, merge_registry_snapshots, merged_by_id, overlaid,
}
use standards_control_plane.Order.{text}
use standards_control_plane.Order.Sorted.{All-sorted, IsSorted, any-sorted, sorted-IsSorted}

module _ {A : Type 0} (key : A → String) where
  -- The last element with an identifier.
  abbrev pub last_with : String → List A → Option A
  last_with k [] = none
  last_with k (x ∷ xs) = or_else (last_with k xs) (if key x == k then some x else none)

  abbrev pub has_key : String → A → Bool
  has_key k x = key x == k

  or_else_assoc : (a b c : Option A) → or_else a (or_else b c) ≡ or_else (or_else a b) c
  or_else_assoc none b c = refl
  or_else_assoc (some x) b c = refl

  or_else_if :
      (b : Bool) (x : A) (o : Option A)
      → (if b then some x else o) ≡ or_else (if b then some x else none) o
  or_else_if true x o = refl
  or_else_if false x o = refl

  get-entries :
      (k : String) (d : Dict A) (xs : List A)
      → get k (update d (entries key xs)) ≡ or_else (last_with k xs) (get k d)
  unfolding update
  get-entries k d [] = refl
  get-entries k d (x ∷ xs) =
      get-entries k (put (key x) x d) xs
      ∙ ap (or_else (last_with k xs)) (get-put (key x) k x d ∙ or_else_if (key x == k) x (get k d))
      ∙ or_else_assoc (last_with k xs) (if key x == k then some x else none) (get k d)

  get-by_id : (k : String) (xs : List A) → get k (by_id key xs) ≡ last_with k xs
  unfolding by_id get
  get-by_id k xs = get-entries k [] xs ∙ or_none (last_with k xs)
    where
      or_none : (o : Option A) → or_else o none ≡ o
      or_none none = refl
      or_none (some x) = refl

  contains-entries : (k : String) (xs : List A) → contains k (entries key xs) ≡ any (has_key k) xs
  unfolding contains
  contains-entries k [] = refl
  contains-entries k (x ∷ xs) = ap (λ b. key x == k || b) (contains-entries k xs)

  entries-keyed : (xs : List A) → All (λ p. key p.1 ≡ p.0) (entries key xs)
  entries-keyed [] = tt
  entries-keyed (x ∷ xs) = (refl, entries-keyed xs)

  any-values :
      (k : String) (d : Dict A)
      → All (λ p. key p.1 ≡ p.0) d
      → any (has_key k) (values d) ≡ contains k d
  unfolding contains
  any-values k [] h = refl
  any-values k ((j, x) ∷ d) h =
      rw (ap (λ s. s == k) h.0) (ap (λ b. j == k || b) (any-values k d h.1))

  module _ (base overlay : List A) where
    abbrev merged : Dict A
    merged = update (by_id key base) (by_id key overlay)

    by_id-IsDict : (xs : List A) → IsDict (by_id key xs)
    unfolding by_id
    by_id-IsDict xs = update-IsDict [] (entries key xs) tt

    by_id-keyed : (xs : List A) → All (λ p. key p.1 ≡ p.0) (by_id key xs)
    unfolding by_id
    by_id-keyed xs = All-update (λ p. key p.1 ≡ p.0) [] (entries key xs) tt (entries-keyed xs)

    contains-by_id : (k : String) (xs : List A) → contains k (by_id key xs) ≡ any (has_key k) xs
    unfolding by_id contains
    contains-by_id k xs =
        contains-update k [] (entries key xs) ∙ (rw (contains-entries k xs) (ground arith))

    merged-keyed : All (λ p. key p.1 ≡ p.0) merged
    merged-keyed =
        All-update (λ p. key p.1 ≡ p.0) (by_id key base) (by_id key overlay) (by_id-keyed base)
          (by_id-keyed overlay)

    get-merged : (k : String) → get k merged ≡ or_else (last_with k overlay) (last_with k base)
    get-merged k =
        get-update k (by_id key base) (by_id key overlay) (by_id-IsDict overlay)
        ∙ ap (λ o. or_else o (get k (by_id key base))) (get-by_id k overlay)
        ∙ ap (or_else (last_with k overlay)) (get-by_id k base)

    abbrev Wins : A → Type 0
    Wins x = or_else (last_with (key x) overlay) (last_with (key x) base) ≡ some x

    -- The merged list is in the order of the identifiers, names exactly those that the base or the
    -- overlay names, and has for each the overlay's last element, else the base's.
    pub merged_by_id_lem :
        IsSorted (λ x. text (key x) ∷ []) (merged_by_id key base overlay)
        × All
            (λ x. or_else (last_with (key x) overlay) (last_with (key x) base) ≡ some x)
            (merged_by_id key base overlay)
        × ((k : String)
            → any (has_key k) (merged_by_id key base overlay)
              ≡ (any (has_key k) overlay || any (has_key k) base))
    unfolding merged_by_id
    merged_by_id_lem = (
      sorted-IsSorted (λ x. text (key x) ∷ []) (values merged),
      All-sorted (λ x. text (key x) ∷ []) Wins (values merged)
          (All-values Wins merged (
            All-of_get (λ p. Wins p.1) merged
              (update-IsDict (by_id key base) (by_id key overlay) (by_id-IsDict base))
              λ k v here.
                subst (λ i. or_else (last_with i overlay) (last_with i base) ≡ some v)
                  (sym (All-get (λ p. key p.1 ≡ p.0) k merged merged-keyed here))
                  (sym (get-merged k) ∙ here))),
      λ k.
          any-sorted (λ x. text (key x) ∷ []) (has_key k) (values merged)
          ∙ any-values k merged merged-keyed
          ∙ contains-update k (by_id key base) (by_id key overlay)
          ∙ (rw (contains-by_id k overlay, contains-by_id k base) refl),
    )

-- What a merge of snapshots has for a domain.
abbrev pub merged_domain : Option DomainRegistry → Option DomainRegistry → Option DomainRegistry
merged_domain base none = base
merged_domain base (some overlay) = some (overlaid base overlay)

get-merge_domains :
    (k : String) (base overlay : Dict DomainRegistry)
    → IsDict overlay
    → get k (merge_domains base overlay) ≡ merged_domain (get k base) (get k overlay)
unfolding merge_domains get
get-merge_domains k base [] h = refl
get-merge_domains k base ((j, o) ∷ rest) h =
    get-merge_domains k (put j (overlaid (get j base) o) base) rest h.1
    ∙ (rw (get-put j k (overlaid (get j base) o) base)
        (elim (Bool-cases (j == k)) [ inl e ↦ rw e (now ((eq_iff j k).0 e)) | inr n ↦ rw n refl ]))
  where
    now :
        j ≡ k
        → merged_domain (some (overlaid (get j base) o)) (get k rest)
          ≡ some (overlaid (get k base) o)
    now e =
        ap (merged_domain (some (overlaid (get j base) o)))
          (subst (λ i. get i rest ≡ none) e (contains-get j rest h.0))
        ∙ ap (λ i. some (overlaid (get i base) o)) e

-- A list of elements in the order of their identifiers, which are those of the base and of the
-- overlay, with the overlay's last element for each, else the base's.
abbrev pub IsMergedBy : {A : Type 0} → (A → String) → List A → List A → List A → Type 0
IsMergedBy key base overlay xs =
    IsSorted (λ x. text (key x) ∷ []) xs
    × All (λ x. or_else (last_with key (key x) overlay) (last_with key (key x) base) ≡ some x) xs
    × ((k : String)
        → any (has_key key k) xs ≡ (any (has_key key k) overlay || any (has_key key k) base))

-- The domain of a base with that of an overlay laid over it.
pub record IsOverlay (base overlay merged : DomainRegistry) : Type 0 where
  pub same_domain : merged.domain ≡ base.domain
  pub newer : (merged.version ≡ overlay.version) × (merged.status ≡ overlay.status)
  pub rules : IsMergedBy (λ (r : RuleRecord). r.rule_id) base.rules overlay.rules merged.rules
  pub patterns :
      IsMergedBy
        (λ (p : PatternRecord). p.pattern_id)
        base.patterns
        overlay.patterns
        merged.patterns

-- What a merge has for a domain, by what the base and the overlay have.
abbrev pub IsMergeOf :
    Option DomainRegistry → Option DomainRegistry → Option DomainRegistry → Type 0
IsMergeOf none overlay merged = merged ≡ overlay
IsMergeOf (some base) none merged = merged ≡ some base
IsMergeOf (some base) (some overlay) merged =
    (m : DomainRegistry) × (merged ≡ some m) × IsOverlay base overlay m

merged_domain-IsMergeOf :
    (base overlay : Option DomainRegistry) → IsMergeOf base overlay (merged_domain base overlay)
unfolding merge_domain_registry
merged_domain-IsMergeOf none none = refl
merged_domain-IsMergeOf none (some o) = refl
merged_domain-IsMergeOf (some b) none = refl
merged_domain-IsMergeOf (some b) (some o) = (
  merge_domain_registry b o,
  refl,
  record {
    same_domain = refl;
    newer = (refl, refl);
    rules = merged_by_id_lem (λ (r : RuleRecord). r.rule_id) b.rules o.rules;
    patterns = merged_by_id_lem (λ (p : PatternRecord). p.pattern_id) b.patterns o.patterns;
  },
)

-- If the overlay names each domain once, a domain of the merged snapshot is the base's where the
-- overlay has none, the overlay's where the base has none, and else the overlay's laid over the base's: of version and status of the overlay,
-- with its rules and patterns before those of the base that have the same identifier, in the order
-- of the identifiers. Name, version and status of the snapshot are the base's.
pub merge_registry_snapshots_lem :
    (base overlay : RegistrySnapshot)
    → IsDict overlay.domains
    → ((k : String)
        → IsMergeOf
            (get k base.domains)
            (get k overlay.domains)
            (get k (merge_registry_snapshots base overlay).domains))
      × ((merge_registry_snapshots base overlay).name ≡ base.name)
      × ((merge_registry_snapshots base overlay).version ≡ base.version)
      × ((merge_registry_snapshots base overlay).status ≡ base.status)
unfolding merge_registry_snapshots
merge_registry_snapshots_lem base overlay h = (
  λ k.
      subst (IsMergeOf (get k base.domains) (get k overlay.domains))
        (sym (get-merge_domains k base.domains overlay.domains h))
        (merged_domain-IsMergeOf (get k base.domains) (get k overlay.domains)),
  refl,
  refl,
  refl,
)
