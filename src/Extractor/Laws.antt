-- ===== src/Extractor/Laws.antt =====
-- The index of the extracted files by their names, as the loops over the scope paths fill it.
use standards_control_plane.Extractor.Under.{IsUnder, iter_files-AllUnder}
use standards_control_plane.Prelude.{
  ==_comm, >>=-eq-ok, >>=-of_ok, All, Bool-cases, Ensures, Error, List, Option-cases, Result,
  String, [], any, ap, arith, elem, eq_iff, err, false, inl, inr, ok, refl, some, subst, sym,
  traverse, traverse-cons, true, ◌==◌, ◌>>=◌, ◌||◌, ◌∙◌, ◌∷◌, ◌≡◌,
}
use standards_control_plane.Order.{Key, insert, sorted, text}
use standards_control_plane.Dict.{Dict, IsDict, contains, keys}
use standards_control_plane.Dict.Laws.{All-put, contains-put, put-IsDict}
use standards_control_plane.Paths.{Location, with_slashes}
use standards_control_plane.Text.{Unicode}
use standards_control_plane.Unique.Laws.{IsUnique}
use standards_control_plane.Unique.Sets.{by_text}
use standards_control_plane.Extractor.{
  Disk, ExtractedFile, below, canonical_relative, lexical, resolve_scope_path, shown, suffix,
}
use standards_control_plane.Extractor.Walk.{
  add_files, add_scopes, by_name, extracted, iter_files, set_default,
}

module _ {A : Type 0} where
  abbrev pub pair_key : String × A → Key
  pair_key p = text p.0 ∷ []

  keys-insert :
      (p : String × A) (d : Dict A) → keys (insert pair_key p d) ≡ insert by_text p.0 (keys d)
  unfolding insert
  keys-insert p [] = refl
  keys-insert p (q ∷ d) = ground (arith, keys-insert p d)

  pub keys-by_name : (d : Dict A) → keys (by_name d) ≡ sorted by_text (keys d)
  unfolding sorted
  keys-by_name [] = refl
  keys-by_name (p ∷ d) =
      keys-insert p (by_name d) ∙ ap (λ ks. insert by_text p.0 ks) (keys-by_name d)

  pub elem-keys : (k : String) (d : Dict A) → elem k (keys d) ≡ contains k d
  unfolding contains
  elem-keys k [] = refl
  elem-keys k ((j, v) ∷ d) = ground (arith, elem-keys k d, ==_comm k j)

  pub keys-IsUnique : (d : Dict A) → IsDict d → IsUnique (keys d)
  keys-IsUnique [] h = tt
  keys-IsUnique ((k, v) ∷ d) h = (elem-keys k d ∙ h.0, keys-IsUnique d h.1)

module _ (disk : Disk) (unicode : Unicode) where
  -- The names of the files that the walk from one scope path finds.
  unfoldable pub names_below : String → Result (List String)
  unfolding resolve_scope_path iter_files canonical_relative
  names_below scope_path = do
    (_, resolved_scope) ← resolve_scope_path disk scope_path
    files ← iter_files disk resolved_scope
    traverse (canonical_relative disk) files

  -- A file that lies in the repository, and under the scope path that it was found from.
  pub record IsInside (scope_paths : List String) (f : ExtractedFile) : Type 0 where
    pub place : Location
    pub inner : List String
    pub inside : below (lexical disk.repo_root) (lexical (disk.real (lexical place))) ≡ some inner
    pub named : f.path ≡ with_slashes (shown inner)
    pub typed : f.extension ≡ unicode.lower (suffix place)
    pub found : elem f.source_scope_path scope_paths ≡ true
    pub scope_root : String × Location
    pub of_scope : resolve_scope_path disk f.source_scope_path ≡ ok scope_root
    pub under : IsUnder disk scope_root.1 place

  abbrev pub IsEntry : List String → String × ExtractedFile → Type 0
  IsEntry scope_paths p = (p.0 ≡ p.1.path) × IsInside scope_paths p.1

  abbrev pub IsIndex : List String → Dict ExtractedFile → Type 0
  IsIndex scope_paths d = IsDict d × All (IsEntry scope_paths) d

  extracted-IsEntry :
      (scope_paths : List String) (place : Location) (name scope_path : String)
      (root : String × Location)
      → resolve_scope_path disk scope_path ≡ ok root
      → IsUnder disk root.1 place
      → canonical_relative disk place ≡ ok name
      → elem scope_path scope_paths ≡ true
      → IsEntry scope_paths (name, extracted disk unicode place name scope_path)
  unfolding canonical_relative
  extracted-IsEntry scope_paths place name scope_path root r u h e =
      let found_below = below (lexical disk.repo_root) (lexical (disk.real (lexical place))) in
      elim (Option-cases found_below) [
        | inl n ↦ absurd (err-ok (rw n at h))
        | inr s ↦ (
          refl,
          record {
            place = place;
            inner = s.0;
            inside = s.1;
            named = sym (ok-inj (rw s.1 at h));
            typed = refl;
            found = e;
            scope_root = root;
            of_scope = r;
            under = u;
          },
        )
      ]
    where
      err-ok : {x : String} {e : Error} → err e ≡ ok x → ⊥
      err-ok q = cc

      ok-inj : {x y : String} → ok x ≡ ok y → x ≡ y
      ok-inj q = cc

  set_default-IsIndex :
      (scope_paths : List String) (k : String) (f : ExtractedFile) (d : Dict ExtractedFile)
      → IsEntry scope_paths (k, f)
      → IsIndex scope_paths d
      → IsIndex scope_paths (set_default k f d)
  set_default-IsIndex scope_paths k f d e h = elim (Bool-cases (contains k d)) [
    | inl there ↦ rw there h
    | inr new ↦ rw new (put-IsDict k f d h.0, All-put (IsEntry scope_paths) k f d e h.1)
  ]

  contains-set_default :
      (k j : String) (f : ExtractedFile) (d : Dict ExtractedFile)
      → contains j (set_default k f d) ≡ (contains j d || j == k)
  contains-set_default k j f d = ground (arith, contains-put k j f d, ==_comm k j, eq_iff j k)

  -- What a step adds to the index: the names of the files found.
  pub record Adds (scope_paths : List String) (before after : Dict ExtractedFile)
      (found : Result (List String)) : Type 0 where
    pub index : IsIndex scope_paths after
    pub names : List String
    pub of_found : found ≡ ok names
    pub added : (k : String) → contains k after ≡ (contains k before || elem k names)

  add_files-Adds :
      (scope_paths : List String) (scope_path : String) (d : Dict ExtractedFile)
      (files : List Location) (root : String × Location) {after : Dict ExtractedFile}
      → resolve_scope_path disk scope_path ≡ ok root
      → All (IsUnder disk root.1) files
      → elem scope_path scope_paths ≡ true
      → IsIndex scope_paths d
      → add_files disk unicode scope_path d files ≡ ok after
      → Adds scope_paths d after (traverse (canonical_relative disk) files)
  unfolding add_files
  add_files-Adds scope_paths scope_path d [] root r u e h q = record {
    index = subst (Ensures (IsIndex scope_paths)) q h;
    names = [];
    of_found = refl;
    added =
        λ k. sym (subst (Ensures (λ a. (contains k d || false) ≡ contains k a)) q (ground arith));
  }
  add_files-Adds scope_paths scope_path d (place ∷ files) root r u e h q =
      let (name, c, q1) = >>=-eq-ok (canonical_relative disk place) _ q in
      let f = extracted disk unicode place name scope_path in
      let rest =
        add_files-Adds scope_paths scope_path (set_default name f d) files root r u.1 e
          (set_default-IsIndex scope_paths name f d
            (extracted-IsEntry scope_paths place name scope_path root r u.0 c e) h)
          q1 in
      record {
        index = rest.index;
        names = name ∷ rest.names;
        of_found = traverse-cons (canonical_relative disk) place files c rest.of_found;
        added = λ k. rest.added k ∙ ground (arith, contains-set_default name k f d);
      }

  names_below-ok :
      (scope_path : String) {resolved : String × Location} {files : List Location}
      {names : List String}
      → resolve_scope_path disk scope_path ≡ ok resolved
      → iter_files disk resolved.1 ≡ ok files
      → traverse (canonical_relative disk) files ≡ ok names
      → names_below scope_path ≡ ok names
  unfolding names_below
  names_below-ok scope_path r i n = >>=-of_ok _ r ∙ (>>=-of_ok _ i ∙ n)

  -- The same for all scope paths.
  pub record AddsAll (scope_paths : List String) (before after : Dict ExtractedFile)
      (found : Result (List (List String))) : Type 0 where
    pub index : IsIndex scope_paths after
    pub names : List (List String)
    pub of_found : found ≡ ok names
    pub added : (k : String) → contains k after ≡ (contains k before || any (elem k) names)

  pub add_scopes-AddsAll :
      (scope_paths : List String) (d : Dict ExtractedFile) (todo : List String)
      {after : Dict ExtractedFile}
      → All (λ p. elem p scope_paths ≡ true) todo
      → IsIndex scope_paths d
      → add_scopes disk unicode d todo ≡ ok after
      → AddsAll scope_paths d after (traverse names_below todo)
  unfolding add_scopes
  add_scopes-AddsAll scope_paths d [] e h q = record {
    index = subst (Ensures (IsIndex scope_paths)) q h;
    names = [];
    of_found = refl;
    added =
        λ k. sym (subst (Ensures (λ a. (contains k d || false) ≡ contains k a)) q (ground arith));
  }
  add_scopes-AddsAll scope_paths d (scope_path ∷ todo) e h q =
      let (resolved, r, q1) = >>=-eq-ok (resolve_scope_path disk scope_path) _ q in
      let (files, i, q2) = >>=-eq-ok (iter_files disk resolved.1) _ q1 in
      let (next, a, q3) = >>=-eq-ok (add_files disk unicode scope_path d files) _ q2 in
      let here =
        add_files-Adds scope_paths scope_path d files resolved r
          (iter_files-AllUnder disk resolved.1 files i) e.0 h a in
      let rest = add_scopes-AddsAll scope_paths next todo e.1 here.index q3 in
      record {
        index = rest.index;
        names = here.names ∷ rest.names;
        of_found =
            traverse-cons names_below scope_path todo (names_below-ok scope_path r i here.of_found)
              rest.of_found;
        added = λ k. rest.added k ∙ ground (arith, here.added k);
      }
