-- ===== src/ChangedAudit/Laws.antt =====
-- Which files a diff gives, and which segment stands for the area.
use standards_control_plane.Paths.Resolve.{is_relative_to-below}
use standards_control_plane.Prelude.{
  >>=-eq-ok, All, Bool, Bool-cases, Ensures, Gives, Gives-bind, Gives-ok, List, Option, Result,
  String, [], any, any-append, ap, arith, elem, eq_iff, false, guard, guard-eq-ok, if◌then◌else◌,
  inl, inr, map, none, ok, refl, some, subst, sym, traverse, traverse-All, traverse-cons, true,
  value_error, ◌++◌, ◌==◌, ◌>>=◌, ◌||◌, ◌∙◌, ◌∷◌, ◌≡◌,
}
use standards_control_plane.Paths.{Location, is_relative_to}
use standards_control_plane.Extractor.{Disk, scoped_candidate}
use standards_control_plane.Unique.Laws.{IsUnique, append-IsUnique}
use standards_control_plane.ChangedAudit.{
  add_new, changed_from, changed_name, list_changed_files, relative_name,
}
use standards_control_plane.Order.Sorted.{any-sorted, sorted-IsSorted}
use standards_control_plane.Text.{Unicode}
use standards_control_plane.Text.Sources.{splitlines, strip}
use standards_control_plane.Unique.Sets.{IsInOrder, by_text, sorted-IsUnique}

add_new-IsUnique : (o : Option String) (xs : List String) → IsUnique xs → IsUnique (add_new o xs)
add_new-IsUnique none xs u = u
add_new-IsUnique (some x) xs u = elim (Bool-cases (elem x xs)) [
  | inl there ↦ rw there u
  | inr new ↦ rw new (append-IsUnique x xs new u)
]

-- The name is the one that the line adds.
abbrev pub is_name : String → Option String → Bool
is_name k none = false
is_name k (some x) = k == x

elem-add_new :
    (k : String) (o : Option String) (xs : List String)
    → elem k (add_new o xs) ≡ (elem k xs || is_name k o)
elem-add_new k none xs = ground arith
elem-add_new k (some x) xs = elim (Bool-cases (elem x xs)) [
  | inl there ↦ rw there (ground (arith, same_elem))
  | inr new ↦ rw new (any-append (λ z. k == z) xs (x ∷ []) ∙ ground arith)
]
  where
    same_elem : (k == x) ≡ true → elem k xs ≡ elem x xs
    same_elem q = ap (λ t. elem t xs) ((eq_iff k x).0 q)

module _ (disk : Disk) where
  -- What the loop gives for its lines.
  record Listed (before after : List String) (found : Result (List (Option String))) : Type 0 where
    unique : IsUnique after
    names : List (Option String)
    of_found : found ≡ ok names
    added : (k : String) → elem k after ≡ (elem k before || any (is_name k) names)

  changed_from-Listed :
      (before lines : List String) {after : List String}
      → IsUnique before
      → changed_from disk before lines ≡ ok after
      → Listed before after (traverse (changed_name disk) lines)
  unfolding changed_from
  changed_from-Listed before [] u h = record {
    unique = subst (Ensures IsUnique) h u;
    names = [];
    of_found = refl;
    added = λ k. sym (subst (Ensures (λ a. (elem k before || false) ≡ elem k a)) h (ground arith));
  }
  changed_from-Listed before (line ∷ lines) u h =
      let (o, c, h1) = >>=-eq-ok (changed_name disk line) _ h in
      let rest = changed_from-Listed (add_new o before) lines (add_new-IsUnique o before u) h1 in
      record {
        unique = rest.unique;
        names = o ∷ rest.names;
        of_found = traverse-cons (changed_name disk) line lines c rest.of_found;
        added = λ k. rest.added k ∙ ground (arith, elem-add_new k o before);
      }

  -- A name is that of a place below the repository's root that exists.
  abbrev pub IsChanged : Option String → Type 0
  IsChanged none = Unit
  IsChanged (some name) =
      (place : Location) × (inner : Location) × (place ≡ inner ++ disk.repo_root)
      × (disk.exists place ≡ true)
      × (relative_name disk place ≡ ok name)

  existing-IsChanged :
      (place inner : Location) {o : Option String}
      → place ≡ inner ++ disk.repo_root
      → (if disk.exists place then (relative_name disk place >>= λ r. ok (some r)) else ok none)
        ≡ ok o
      → IsChanged o
  existing-IsChanged place inner w h = elim (Bool-cases (disk.exists place)) [
    | inl there ↦
        let (name, n, h1) = >>=-eq-ok (relative_name disk place) _ (rw there at h) in
        subst (Ensures IsChanged) h1 (place, inner, w, there, n)
    | inr gone ↦ subst (Ensures IsChanged) (rw gone at h) tt
  ]

  changed_name-IsChanged : (line : String) → Gives IsChanged (changed_name disk line)
  unfolding changed_name
  changed_name-IsChanged line =
      let place = disk.real (scoped_candidate disk line) in
      elim (Bool-cases (line == "")) [
        | inl blank ↦ rw blank (Gives-ok tt)
        | inr text' ↦ rw text' (
            Gives-bind (guard (is_relative_to place disk.repo_root) value_error) _ (λ u g.
              let (inner, w) =
                is_relative_to-below place disk.repo_root (guard-eq-ok _ value_error g) in
              record { on_ok = λ o q. existing-IsChanged place inner w q }))
      ]

  -- What the changed files are, by the lines that git printed.
  pub record IsDiff (lines paths : List String) : Type 0 where
    pub in_order : IsInOrder paths
    pub names : List (Option String)
    pub of_lines : traverse (changed_name disk) lines ≡ ok names
    pub each_exists : All IsChanged names
    pub complete : (k : String) → elem k paths ≡ any (is_name k) names

  -- The changed files that are listed are in order and each once; they are exactly those that the
  -- stripped lines name, and each is a file of the repository that exists.
  pub list_changed_files-IsDiff :
      (unicode : Unicode) (stdout : String) {paths : List String}
      → list_changed_files disk unicode (ok stdout) ≡ ok paths
      → IsDiff (map (strip unicode) (splitlines stdout)) paths
  unfolding list_changed_files
  list_changed_files-IsDiff unicode stdout h =
      let lines = map (strip unicode) (splitlines stdout) in
      let (after, c, h1) = >>=-eq-ok (changed_from disk [] lines) _ h in
      let listed = changed_from-Listed [] lines tt c in
      subst (Ensures (IsDiff lines)) h1 (record {
        in_order = (sorted-IsSorted by_text after, sorted-IsUnique after listed.unique);
        names = listed.names;
        of_lines = listed.of_found;
        each_exists =
            traverse-All IsChanged (changed_name disk) lines
              (λ line o c. (changed_name-IsChanged line).on_ok o c) listed.of_found;
        complete = λ k. any-sorted by_text (λ z. k == z) after ∙ listed.added k;
      })
