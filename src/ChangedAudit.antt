-- ===== src/ChangedAudit.antt =====
-- changed_audit.py: the files that git names as changed, and the area that is derived from them
-- when none can be inferred. What `git diff` prints is a parameter.
pub mod Build
pub mod Laws
pub mod Leading
use Prim.Native.Char.{Char, code}
use Prim.Native.String.{◌++◌ as join}
use standards_control_plane.Prelude.{
  Bool, List, Option, Result, String, [], elem, err, false, filter, guard, if◌then◌else◌,
  index_error, leb, map, nat_eq, none, not, ok, or_raise, some, traverse, true, value_error, ℕ,
  ◌&&◌, ◌++◌, ◌+◌, ◌==◌, ◌>>=◌, ◌>>◌, ◌||◌, ◌∷◌,
}
use standards_control_plane.Prelude.Int.{neg}
use standards_control_plane.Order.{Key, int, leb_key, sorted, text}
use standards_control_plane.Dict.{Dict, get, put}
use standards_control_plane.Paths.{Location, is_relative_to, parts, split, with_slashes}
use standards_control_plane.Text.{Unicode}
use standards_control_plane.Text.Sources.{splitlines, strip}
use standards_control_plane.Extractor.{Disk, below, lexical, scoped_candidate, shown}
use standards_control_plane.Unique.Sets.{by_text}

abbrev pub add_new : Option String → List String → List String
add_new none changed_paths = changed_paths
add_new (some relative) changed_paths =
    if elem relative changed_paths then changed_paths else changed_paths ++ (relative ∷ [])

module _ (disk : Disk) where
  -- `str(resolved.relative_to(root)).replace("\\", "/")`
  unfoldable pub relative_name : Location → Result String
  unfolding below with_slashes
  relative_name resolved =
      or_raise value_error (below (lexical disk.repo_root) (lexical resolved)) >>= λ parts'.
      ok (with_slashes (shown parts'))

  -- The name that a line adds, if any.
  unfoldable pub changed_name : String → Result (Option String)
  unfolding relative_name split parts is_relative_to
  changed_name candidate =
      let resolved = disk.real (scoped_candidate disk candidate) in
      let named = relative_name resolved >>= λ relative. ok (some relative) in
      if candidate == ""
      then ok none
      else guard (is_relative_to resolved disk.repo_root) value_error
        >> (if disk.exists resolved then named else ok none)

  -- The loop of `list_changed_files`; the set `seen` has what the list has.
  unfoldable pub changed_from : List String → List String → Result (List String)
  unfolding changed_name
  changed_from changed_paths [] = ok changed_paths
  changed_from changed_paths (candidate ∷ rest) =
      changed_name candidate >>= λ named. changed_from (add_new named changed_paths) rest

  -- `list_changed_files`, from what git printed.
  unfoldable pub list_changed_files : Unicode → Result String → Result (List String)
  unfolding splitlines strip changed_from sorted
  list_changed_files unicode printed = do
    stdout ← printed
    changed_paths ← changed_from [] (map (strip unicode) (splitlines stdout))
    ok (sorted by_text changed_paths)

-- `s.lstrip(c)` for one character.
unfoldable pub lstrip_char : ℕ → String → String
lstrip_char k String.[] = String.[]
lstrip_char k (String.◌∷◌ c s) =
    let rest = lstrip_char k s in if nat_eq (code c) k then rest else String.◌∷◌ c s

abbrev pub put_unless_bare : ℕ → Char → String → String
put_unless_bare k c String.[] = if nat_eq (code c) k then String.[] else String.◌∷◌ c String.[]
put_unless_bare k c (String.◌∷◌ d s) = String.◌∷◌ c (String.◌∷◌ d s)

-- `s.rstrip(c)`
unfoldable pub rstrip_char : ℕ → String → String
rstrip_char k String.[] = String.[]
rstrip_char k (String.◌∷◌ c s) = put_unless_bare k c (rstrip_char k s)

-- `s.strip(c)`
unfoldable pub strip_char : ℕ → String → String
unfolding lstrip_char rstrip_char
strip_char k s = rstrip_char k (lstrip_char k s)

abbrev pub is_plain : ℕ → Bool
is_plain c = (leb 97 c && leb c 122) || (leb 48 c && leb c 57)

abbrev pub dash : Char
dash = "-"

-- `re.sub(r"[^a-z0-9]+", "-", s)`: one dash for a run of other characters.
unfoldable pub dashed_from : Bool → String → String
dashed_from in_run String.[] = String.[]
dashed_from in_run (String.◌∷◌ c s) =
    let plain = dashed_from false s in
    let run = dashed_from true s in
    if is_plain (code c) then String.◌∷◌ c plain else if in_run then run else String.◌∷◌ dash run

-- The slug of a text, or the given one where nothing is left of it.
unfoldable pub slug : Unicode → String → String → String
unfolding dashed_from strip_char
slug unicode s otherwise =
    let stripped = strip_char 45 (dashed_from false (unicode.lower s)) in
    if stripped == "" then otherwise else stripped

-- The first part of a path between its slashes.
unfoldable pub top_part : String → Result String
unfolding with_slashes strip_char parts
top_part path = first (parts (strip_char 47 (with_slashes path)))
  where
    first : List String → Result String
    first [] = err index_error
    first (p ∷ ps) = ok p

abbrev pub count_of : Option ℕ → ℕ
count_of none = 0
count_of (some n) = n

-- `Counter(xs)`
unfoldable pub counter_from : Dict ℕ → List String → Dict ℕ
unfolding put get
counter_from counts [] = counts
counter_from counts (x ∷ xs) = counter_from (put x (count_of (get x counts) + 1) counts) xs

module _ {A : Type 0} (key : A → Key) where
  unfoldable pub lesser : A → A → A
  unfolding leb_key
  lesser best x = if leb_key (key best) (key x) then best else x

  -- `min(best, *xs, key=key)`: the first of the least ones.
  unfoldable pub min_from : A → List A → A
  min_from best [] = best
  min_from best (x ∷ xs) = min_from (lesser best x) xs

abbrev pub segment_key : String × ℕ → Key
segment_key p = int (neg p.1) ∷ text p.0 ∷ []

-- The segment with the highest count, the first by its text among these.
unfoldable pub top_segment : Dict ℕ → Option String
unfolding min_from lesser
top_segment [] = none
top_segment (p ∷ d) = some (min_from segment_key p d).0

unfoldable pub area_of_segment : Unicode → String → Option String → String
unfolding slug
area_of_segment unicode subsystem_slug none = join subsystem_slug "-changed"
area_of_segment unicode subsystem_slug (some segment) =
    join subsystem_slug (join "-" (slug unicode segment "changed"))

-- `derive_area_id`
unfoldable pub derive_area_id : Unicode → List String → String → Result String
unfolding top_part strip_char counter_from slug top_segment area_of_segment
derive_area_id unicode paths subsystem = do
  tops ← traverse top_part (filter (λ path. not (strip_char 47 path == "")) paths)
  ok (
      area_of_segment unicode (slug unicode subsystem "subsystem")
        (top_segment (counter_from [] tops)))
