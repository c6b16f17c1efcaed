-- ===== src/Extractor/Walk.antt =====
-- `_iter_files` and `extract_scope` of extractor.py: the walk below a scope path, and the files of
-- all scope paths by their names.
use standards_control_plane.Unique.Sets.{dedupe_sorted}
use standards_control_plane.Prelude.{
  Bool, List, Result, String, [], false, guard, if◌then◌else◌, map, not, ok, traverse, true,
  value_error, ◌++◌, ◌>>=◌, ◌>>◌, ◌∷◌,
}
use standards_control_plane.Order.{sorted, text}
use standards_control_plane.Dict.{Dict, contains, put, values}
use standards_control_plane.Json.{Schemas, validate_with_schema}
use standards_control_plane.Paths.{Location}
use standards_control_plane.Text.{Unicode}
use standards_control_plane.Extractor.{
  Directories, Disk, ExtractedFile, ExtractedScope, Listing, canonical_relative, directory,
  ensure_within_repo, ensure_within_scope, lexical, listing, no_more, resolve_scope_path,
  scope_to_dict, suffix,
}

abbrev pub directory_names : Directories → List String
directory_names no_more = []
directory_names (directory name listing' rest) = name ∷ directory_names rest

abbrev pub in_text_order : List String → List String
in_text_order = sorted λ s. text s ∷ []

abbrev pub by_name {ℓ} : {A : Type ℓ} → List (String × A) → List (String × A)
by_name = sorted λ p. text p.0 ∷ []

-- The lists of steps that all returned, end to end.
abbrev pub gathered : List (Result (List Location)) → Result (List Location)
gathered [] = ok []
gathered (step ∷ steps) = step >>= λ xs. gathered steps >>= λ ys. ok (xs ++ ys)

-- `files_by_path.setdefault(canonical_path, …)`
abbrev pub set_default : String → ExtractedFile → Dict ExtractedFile → Dict ExtractedFile
set_default k v d = if contains k d then d else put k v d

abbrev pub scope_of_files : List String → Dict ExtractedFile → ExtractedScope
scope_of_files scope_paths files_by_path = record {
  scope_paths = scope_paths;
  files = values (by_name files_by_path);
}

abbrev pub is_some_path : List String → Bool
is_some_path [] = false
is_some_path (p ∷ ps) = true

module _ (disk : Disk) where
  abbrev pub child : Location → String → List String
  child current name = lexical current ++ (name ∷ [])

  -- The checks on a discovered directory or file.
  unfoldable pub discovered : Location → Location → String → Result Location
  unfolding ensure_within_repo ensure_within_scope
  discovered root_path current name = do
    guard (not (disk.is_symlink (child current name))) value_error
    candidate ← ensure_within_repo disk (child current name)
    ensure_within_scope disk candidate root_path
    ok candidate

  abbrev pub discovered_file : Location → Location → String → Result (List Location)
  discovered_file root_path current filename =
      discovered root_path current filename >>= λ candidate.
      ok (if disk.is_file candidate then candidate ∷ [] else [])

  module _ (root_path : Location) where
    -- `_iter_files` from one directory of the walk on; every error is the same, so that it does
    -- not matter that a directory below is walked before it is put in order.
    unfoldable mutual
      unfolding ensure_within_repo ensure_within_scope discovered sorted

      pub walk_from : List String → Listing → Result (List Location)
      walk_from current_dir (listing filenames directories) =
          let below' = walk_each current_dir directories in
          ensure_within_repo disk current_dir >>= λ current_path.
          ensure_within_scope disk current_path root_path >>= λ _.
          traverse (discovered root_path current_path) (in_text_order (directory_names directories))
          >>= λ _.
              gathered (map (discovered_file root_path current_path) (in_text_order filenames))
              >>= λ here.
                  gathered (map (λ p. p.1) (by_name below')) >>= λ deeper. ok (here ++ deeper)

      pub walk_each : List String → Directories → List (String × Result (List Location))
      walk_each current_dir no_more = []
      walk_each current_dir (directory name listing' rest) =
          (name, walk_from (current_dir ++ (name ∷ [])) listing') ∷ walk_each current_dir rest

  -- `_iter_files`
  unfoldable pub iter_files : Location → Result (List Location)
  unfolding walk_from ensure_within_repo ensure_within_scope
  iter_files root_path =
      let single = ensure_within_repo disk (lexical root_path) >>= λ inside.
      ensure_within_scope disk inside root_path >>= λ file. ok (file ∷ []) in
      if disk.is_file root_path
      then single
      else walk_from root_path (lexical root_path) (disk.walk root_path)

  module _ (unicode : Unicode) where
    abbrev pub extracted : Location → String → String → ExtractedFile
    extracted resolved_file canonical_path scope_path = record {
      path = canonical_path;
      extension = unicode.lower (suffix resolved_file);
      source_scope_path = scope_path;
    }

    unfoldable pub add_files :
        String → Dict ExtractedFile → List Location → Result (Dict ExtractedFile)
    unfolding canonical_relative suffix contains put
    add_files scope_path files_by_path [] = ok files_by_path
    add_files scope_path files_by_path (resolved_file ∷ rest) =
        canonical_relative disk resolved_file >>= λ canonical_path.
        add_files scope_path
          (set_default canonical_path (extracted resolved_file canonical_path scope_path)
            files_by_path)
          rest

    -- The loop over the scope paths.
    unfoldable pub add_scopes : Dict ExtractedFile → List String → Result (Dict ExtractedFile)
    unfolding resolve_scope_path iter_files add_files
    add_scopes files_by_path [] = ok files_by_path
    add_scopes files_by_path (scope_path ∷ rest) = do
      (_, resolved_scope) ← resolve_scope_path disk scope_path
      files ← iter_files resolved_scope
      next ← add_files scope_path files_by_path files
      add_scopes next rest

    -- `extract_scope`
    unfoldable pub extract_scope : Schemas → List String → Result ExtractedScope
    unfolding resolve_scope_path dedupe_sorted add_scopes scope_to_dict validate_with_schema sorted
    extract_scope accepts scope_paths = do
      guard (is_some_path scope_paths) value_error
      resolved ← traverse (resolve_scope_path disk) scope_paths
      let resolved_scope_paths = dedupe_sorted (map (λ p. p.0) resolved)
      files_by_path ← add_scopes [] resolved_scope_paths
      let payload = scope_of_files resolved_scope_paths files_by_path
      validate_with_schema accepts (scope_to_dict payload) "extracted-scope.schema.json"
      ok payload
