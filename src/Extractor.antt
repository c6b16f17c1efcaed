-- ===== src/Extractor.antt =====
-- extractor.py: the files below the requested paths. What the operating system answers is the
-- record `Disk`; a path is given by its parts, outermost first, and a resolved one as a `Location`.
pub mod Walk
pub mod Under
pub mod Laws
pub mod Whole
use Prim.Native.Char.{code}
use standards_control_plane.Prelude.{
  Bool, List, Option, Result, String, [], file_not_found, guard, if◌then◌else◌, map, nat_eq, none,
  not, ok, or_raise, some, value_error, ◌++◌, ◌==◌, ◌>>=◌, ◌>>◌, ◌||◌, ◌∷◌,
}
use standards_control_plane.Json.{Value, arr, end, field, obj, of_list, str, strs}
use standards_control_plane.Paths.{
  Location, is_absolute, is_relative_to, parts, same, split, with_slashes,
}
use standards_control_plane.Text.{join_with}

-- What `os.walk` lists of a directory: its files, and its directories, into which it descends.
mutual
  pub data Listing : Type 0 where
    listing : List String → Directories → Listing

  pub data Directories : Type 0 where
    no_more : Directories
    directory : String → Listing → Directories → Directories

pub record Disk : Type 0 where
  pub repo_root : Location
  pub real : List String → Location
  pub is_symlink : List String → Bool
  pub exists : Location → Bool
  pub is_dir : Location → Bool
  pub is_file : Location → Bool
  pub walk : Location → Listing

pub record ExtractedFile : Type 0 where
  pub path : String
  pub extension : String
  pub source_scope_path : String

pub record ExtractedScope : Type 0 where
  pub scope_paths : List String
  pub files : List ExtractedFile

abbrev file_to_dict : ExtractedFile → Value
file_to_dict f = obj (
    field "path" (str f.path) (
      field "extension" (str f.extension)
        (field "source_scope_path" (str f.source_scope_path) end)))

-- The dict `payload` of `extract_scope`.
unfoldable pub scope_to_dict : ExtractedScope → Value
scope_to_dict s = obj (
    field "scope_paths" (strs s.scope_paths)
      (field "files" (arr (of_list (map file_to_dict s.files))) end))

abbrev onto : List String → List String → List String
onto [] ys = ys
onto (x ∷ xs) ys = onto xs (x ∷ ys)

-- The parts of a location, outermost first.
abbrev pub lexical : Location → List String
lexical place = onto place []

-- `path.relative_to(root)` by parts; `none` where Python raises.
unfoldable pub below : List String → List String → Option (List String)
below [] path = some path
below (r ∷ root) [] = none
below (r ∷ root) (p ∷ path) = let rest = below root path in if r == p then rest else none

-- `str(path)` of a relative path.
abbrev pub shown : List String → String
shown [] = "."
shown (p ∷ ps) = join_with "/" (p ∷ ps)

-- From the last dot on.
unfoldable pub last_dot : String → Option String
last_dot String.[] = none
last_dot (String.◌∷◌ c s) = or_here (nat_eq (code c) 46) (String.◌∷◌ c s) (last_dot s)
  where
    or_here : Bool → String → Option String → Option String
    or_here is_dot here (some later) = some later
    or_here is_dot here none = if is_dot then some here else none

abbrev name_of : Location → String
name_of [] = ""
name_of (p ∷ ps) = p

abbrev suffix_of : String → Option String → String
suffix_of name none = ""
suffix_of name (some dotted) = if dotted == name || dotted == "." then "" else dotted

-- `path.suffix`: none if the last dot begins or ends the name.
unfoldable pub suffix : Location → String
unfolding last_dot
suffix place = suffix_of (name_of place) (last_dot (name_of place))

module _ (disk : Disk) where
  -- `_canonical_relative`
  unfoldable pub canonical_relative : Location → Result String
  unfolding below with_slashes
  canonical_relative path =
      or_raise value_error (below (lexical disk.repo_root) (lexical (disk.real (lexical path))))
      >>= λ parts'. ok (with_slashes (shown parts'))

  -- `_ensure_within_repo`
  unfoldable pub ensure_within_repo : List String → Result Location
  unfolding is_relative_to
  ensure_within_repo path = do
    guard (is_relative_to (disk.real path) disk.repo_root) value_error
    ok (disk.real path)

  -- `_ensure_within_scope`
  unfoldable pub ensure_within_scope : Location → Location → Result Location
  unfolding is_relative_to same
  ensure_within_scope path scope_root =
      let resolved = disk.real (lexical path) in
      let resolved_scope_root = disk.real (lexical scope_root) in
      guard
        (if disk.is_dir resolved_scope_root
          then is_relative_to resolved resolved_scope_root
          else same resolved resolved_scope_root)
        value_error
      >> ok resolved

  -- The loop of `_ensure_no_symlink_ancestors`.
  unfoldable pub no_symlink_from : List String → List String → Result (Unit {0})
  no_symlink_from current [] = ok tt
  no_symlink_from current (part ∷ rest) =
      guard (not (disk.is_symlink (current ++ (part ∷ [])))) value_error
      >> no_symlink_from (current ++ (part ∷ [])) rest

  abbrev symlinks_checked : Option (List String) → Result (Unit {0})
  symlinks_checked none = ok tt
  symlinks_checked (some relative_parts) = no_symlink_from (lexical disk.repo_root) relative_parts

  -- `_ensure_no_symlink_ancestors` of a path that is absolute.
  unfoldable pub ensure_no_symlink_ancestors : List String → Result (Unit {0})
  unfolding no_symlink_from below
  ensure_no_symlink_ancestors path = symlinks_checked (below (lexical disk.repo_root) path)

  abbrev pub scoped_candidate : String → List String
  scoped_candidate path_value =
      if is_absolute (split path_value)
      then parts path_value
      else lexical disk.repo_root ++ parts path_value

  -- `_resolve_scope_path`
  unfoldable pub resolve_scope_path : String → Result (String × Location)
  unfolding ensure_no_symlink_ancestors canonical_relative ensure_within_repo split parts
  resolve_scope_path path_value = do
    ensure_no_symlink_ancestors (scoped_candidate path_value)
    guard (not (disk.is_symlink (scoped_candidate path_value))) value_error
    guard (disk.exists (disk.real (scoped_candidate path_value))) file_not_found
    bounded ← ensure_within_repo (lexical (disk.real (scoped_candidate path_value)))
    name ← canonical_relative bounded
    ok (name, bounded)
