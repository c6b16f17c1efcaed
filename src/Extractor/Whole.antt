-- ===== src/Extractor/Whole.antt =====
-- The extracted files are those that a walk from each scope path finds, each once.
use standards_control_plane.Prelude.{
  >>=-eq-ok, All, All-mono, Ensures, List, String, [], any, ap, elem, guard, guard-eq-ok, map, ok,
  refl, subst, sym, traverse, true, value_error, ◌==◌, ◌∙◌, ◌∷◌, ◌≡◌,
}
use standards_control_plane.Dict.{Dict, contains, keys, values}
use standards_control_plane.Dict.Laws.{All-values}
use standards_control_plane.Paths.{Location}
use standards_control_plane.Text.{Unicode}
use standards_control_plane.Unique.Sets.{
  All-elem_self, IsInOrder, by_text, dedupe_sorted, sorted-IsUnique,
}
use standards_control_plane.Extractor.{
  Disk, ExtractedFile, ExtractedScope, resolve_scope_path, scope_to_dict,
}
use standards_control_plane.Extractor.Walk.{
  add_scopes, by_name, extract_scope, is_some_path, scope_of_files,
}
use standards_control_plane.Order.Sorted.{All-sorted, any-sorted, sorted-IsSorted}
use standards_control_plane.Json.{Schemas, validate_with_schema}
use standards_control_plane.Extractor.Laws.{
  IsEntry, IsInside, add_scopes-AddsAll, elem-keys, keys-IsUnique, keys-by_name, names_below,
  pair_key,
}

module _ (disk : Disk) (unicode : Unicode) where
  keys-paths :
      (scope_paths : List String) (d : Dict ExtractedFile)
      → All (IsEntry disk unicode scope_paths) d
      → map (λ (f : ExtractedFile). f.path) (values d) ≡ keys d
  keys-paths scope_paths [] h = refl
  keys-paths scope_paths (p ∷ d) h =
      rw (sym (h.0).0) (ap (λ ks. p.0 ∷ ks) (keys-paths scope_paths d h.1))

  -- What an extracted scope says of the requested paths.
  pub record IsExtraction (requested : List String) (scope : ExtractedScope) : Type 0 where
    pub resolved : List (String × Location)
    pub of_requested : traverse (resolve_scope_path disk) requested ≡ ok resolved
    pub scope_paths : scope.scope_paths ≡ dedupe_sorted (map (λ p. p.0) resolved)
    pub in_order : IsInOrder (map (λ (f : ExtractedFile). f.path) scope.files)
    pub inside : All (IsInside disk unicode scope.scope_paths) scope.files
    pub names : List (List String)
    pub walked : traverse (names_below disk unicode) scope.scope_paths ≡ ok names
    pub complete :
        (k : String) → elem k (map (λ (f : ExtractedFile). f.path) scope.files) ≡ any (elem k) names

  scope_of_files-IsExtraction :
      (requested : List String) (resolved : List (String × Location)) {d : Dict ExtractedFile}
      → traverse (resolve_scope_path disk) requested ≡ ok resolved
      → add_scopes disk unicode [] (dedupe_sorted (map (λ p. p.0) resolved)) ≡ ok d
      → IsExtraction requested (scope_of_files (dedupe_sorted (map (λ p. p.0) resolved)) d)
  unfolding contains
  scope_of_files-IsExtraction requested resolved {d} r a =
      let scope_paths = dedupe_sorted (map (λ p. p.0) resolved) in
      let index =
        add_scopes-AddsAll disk unicode scope_paths [] scope_paths (All-elem_self scope_paths)
          (tt, tt) a in
      let entries = All-sorted pair_key (IsEntry disk unicode scope_paths) d index.index.1 in
      let paths = keys-paths scope_paths (by_name d) entries ∙ keys-by_name d in
      record {
        resolved = resolved;
        of_requested = r;
        scope_paths = refl;
        in_order = subst IsInOrder (sym paths) (
          sorted-IsSorted by_text (keys d),
          sorted-IsUnique (keys d) (keys-IsUnique d index.index.0),
        );
        inside =
            All-values (IsInside disk unicode scope_paths) (by_name d)
              (All-mono _ _ (by_name d) (λ p e. e.1) entries);
        names = index.names;
        walked = index.of_found;
        complete = λ k.
            ap (elem k) paths
            ∙ (any-sorted by_text (λ z. k == z) (keys d) ∙ (elem-keys k d ∙ index.added k));
      }

  -- A scope that is extracted lists, in order and each once, exactly the files that the walks from
  -- its scope paths name; each lies in the repository, has its suffix in lower case, and lies, as it
  -- stands or once it is resolved, in the resolved scope path that it was found from, which is one
  -- of the scope paths; these are the requested ones after resolution.
  pub extract_scope-IsExtraction :
      (accepts : Schemas) (requested : List String) {scope : ExtractedScope}
      → extract_scope disk unicode accepts requested ≡ ok scope
      → IsExtraction requested scope
        × (accepts "extracted-scope.schema.json" (scope_to_dict scope) ≡ true)
  unfolding extract_scope validate_with_schema
  extract_scope-IsExtraction accepts requested h =
      let (_, _, h1) = >>=-eq-ok (guard (is_some_path requested) value_error) _ h in
      let (resolved, r, h2) = >>=-eq-ok (traverse (resolve_scope_path disk) requested) _ h1 in
      let scope_paths = dedupe_sorted (map (λ p. p.0) resolved) in
      let (d, a, h3) = >>=-eq-ok (add_scopes disk unicode [] scope_paths) _ h2 in
      let payload = scope_of_files scope_paths d in
      let (_, valid, h4) =
        >>=-eq-ok
          (validate_with_schema accepts (scope_to_dict payload) "extracted-scope.schema.json") _
          h3 in
      subst
        (Ensures (λ s.
          IsExtraction requested s
          × (accepts "extracted-scope.schema.json" (scope_to_dict s) ≡ true)))
        h4
        (
          scope_of_files-IsExtraction requested resolved r a,
          guard-eq-ok (accepts "extracted-scope.schema.json" (scope_to_dict payload)) value_error
              valid,
        )
