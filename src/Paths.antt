-- ===== src/Paths.antt =====
-- Texts as paths: separators, suffixes, and the part of `pathlib` that the loaders use.
-- Symbolic links are not followed.
pub mod Overlap
pub mod Resolve
use Prim.Native.Char.{Char, code}
use standards_control_plane.Prelude.{
  Bool, List, Result, String, [], false, file_not_found, filter, guard, if◌then◌else◌, nat_eq, not,
  ok, true, value_error, ◌&&◌, ◌==◌, ◌>>=◌, ◌>>◌, ◌||◌, ◌∷◌,
}

abbrev slash : Char
slash = "/"

-- `s.replace("\\", "/")`
unfoldable pub with_slashes : String → String
with_slashes String.[] = String.[]
with_slashes (String.◌∷◌ c s) =
    String.◌∷◌ (if nat_eq (code c) 92 then slash else c) (with_slashes s)

-- `s.endswith(t)`: some suffix of `s` is `t`.
unfoldable pub ends_with : String → String → Bool
ends_with String.[] t = String.[] == t
ends_with (String.◌∷◌ c s) t = String.◌∷◌ c s == t || ends_with s t

-- `_paths_overlap` of findings.py
unfoldable pub paths_overlap : String → String → Bool
unfolding with_slashes ends_with
paths_overlap left right =
    let left_parts = with_slashes left in
    let right_parts = with_slashes right in
    left_parts == right_parts
    || (ends_with left_parts right_parts || ends_with right_parts left_parts)

abbrev cons_first : Char → List String → List String
cons_first c [] = String.◌∷◌ c String.[] ∷ []
cons_first c (p ∷ ps) = String.◌∷◌ c p ∷ ps

-- `s.split("/")`
unfoldable pub split : String → List String
split String.[] = String.[] ∷ []
split (String.◌∷◌ c s) =
    let rest = split s in if nat_eq (code c) 47 then String.[] ∷ rest else cons_first c rest

-- The parts of a path: `pathlib` drops empty ones and `.`.
unfoldable pub parts : String → List String
unfolding split
parts s = filter (λ p. not (p == "" || p == ".")) (split s)

-- A place in the file tree, its innermost part first.
abbrev pub Location : Type 0
Location = List String

abbrev pub parent : Location → Location
parent [] = []
parent (p ∷ ps) = ps

-- `.resolve()`: `..` goes up, and at the top stays.
unfoldable pub climb : Location → List String → Location
climb here [] = here
climb here (p ∷ ps) = climb (if p == ".." then parent here else p ∷ here) ps

abbrev pub is_absolute : List String → Bool
is_absolute (p ∷ q ∷ ps) = p == ""
is_absolute _ = false

-- `(root / path_value).resolve()`: an absolute path drops the root.
unfoldable pub resolve : Location → String → Location
unfolding climb parts
resolve root path_value =
    climb (if is_absolute (split path_value) then [] else root) (parts path_value)

unfoldable pub same : List String → List String → Bool
same [] [] = true
same (x ∷ xs) (y ∷ ys) = x == y && same xs ys
same _ _ = false

-- `candidate.is_relative_to(root)`
unfoldable pub is_relative_to : Location → Location → Bool
unfolding same
is_relative_to [] root = same [] root
is_relative_to (p ∷ ps) root = same (p ∷ ps) root || is_relative_to ps root

-- The file tree: where the project is, and what there is.
pub record Files : Type 0 where
  pub project_root : Location
  pub exists : Location → Bool

-- `_resolve_repo_path` of findings.py
unfoldable pub resolve_repo_path : Files → String → Result Location
unfolding resolve is_relative_to
resolve_repo_path files path_value = do
  let candidate = resolve files.project_root path_value
  guard (is_relative_to candidate files.project_root) value_error
  guard (files.exists candidate) file_not_found
  ok candidate
