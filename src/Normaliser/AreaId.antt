-- ===== src/Normaliser/AreaId.antt =====
-- `AREA_SPEC_PATTERN` and `_infer_area_id` of normaliser.py.
use Prim.Native.Char.{code}
use Prim.Native.String.{◌++◌ as join}
use standards_control_plane.Prelude.{
  Bool, List, Option, Result, String, [], any, area_id_inference_error, elem, err, false,
  if◌then◌else◌, leb, nat_eq, none, ok, some, true, ℕ, ◌&&◌, ◌==◌, ◌||◌, ◌∷◌,
}
use standards_control_plane.Paths.{parts, with_slashes}
use standards_control_plane.Text.{
  after_first, after_prefix_in, occurs_in, path_name, span, starts_with,
}

-- `ENH-`, `-` and `.md` without regard to case.
abbrev enh_dash : List (List ℕ)
enh_dash = (69 ∷ 101 ∷ []) ∷ (78 ∷ 110 ∷ []) ∷ (72 ∷ 104 ∷ []) ∷ (45 ∷ []) ∷ []

abbrev dash : List (List ℕ)
dash = (45 ∷ []) ∷ []

abbrev dot_md : List (List ℕ)
dot_md = (46 ∷ []) ∷ (77 ∷ 109 ∷ []) ∷ (68 ∷ 100 ∷ []) ∷ []

-- `[a-z0-9-]` without regard to case, with the four other characters that Python then lets in.
abbrev pub is_slug_char : ℕ → Bool
is_slug_char c =
    (leb 97 c && leb c 122)
    || ((leb 65 c && leb c 90)
        || ((leb 48 c && leb c 57) || any (nat_eq c) (45 ∷ 304 ∷ 305 ∷ 383 ∷ 8490 ∷ [])))

-- `$`: at the end, or before a line feed that ends the text.
abbrev at_end : Option String → Bool
at_end none = false
at_end (some String.[]) = true
at_end (some (String.◌∷◌ c String.[])) = nat_eq (code c) 10
at_end (some (String.◌∷◌ c (String.◌∷◌ d s))) = false

-- From behind the second dash: a slug that is not empty, then `.md` and the end. The slug's
-- characters and the dot are distinct, so no shorter slug can match where the longest does not.
abbrev slug_match : String × String → Option String
slug_match (slug, rest) =
    if slug == "" then none else if at_end (after_prefix_in dot_md rest) then some slug else none

abbrev slug_behind : Option String → Option String
slug_behind none = none
slug_behind (some s) = slug_match (span is_slug_char s)

abbrev pub or_else : Option String → Option String → Option String
or_else none later = later
or_else (some found) later = some found

module _ (is_decimal : ℕ → Bool) where
  abbrev behind_digits : String × String → Option String
  behind_digits (digits, rest) =
      if digits == "" then none else slug_behind (after_prefix_in dash rest)

  abbrev behind_enh : Option String → Option String
  behind_enh none = none
  behind_enh (some s) = behind_digits (span is_decimal s)

  -- The group of a match of the pattern at the head of the text.
  unfoldable pub area_spec_at : String → Option String
  unfolding after_prefix_in span
  area_spec_at s = behind_enh (after_prefix_in enh_dash s)

  -- `AREA_SPEC_PATTERN.search(s)`, and of the match its group 1.
  unfoldable pub area_spec : String → Option String
  unfolding area_spec_at
  area_spec String.[] = area_spec_at String.[]
  area_spec (String.◌∷◌ c s) = or_else (area_spec_at (String.◌∷◌ c s)) (area_spec s)

  -- `_is_enhancement_spec`
  unfoldable pub is_enhancement_spec : String → Bool
  unfolding with_slashes starts_with occurs_in path_name area_spec
  is_enhancement_spec path_value =
      let path = with_slashes path_value in
      starts_with path "docs/enhancements/"
      || (occurs_in "/docs/enhancements/" path
          || is_found (area_spec (path_name (with_slashes path))))
    where
      is_found : Option String → Bool
      is_found none = false
      is_found (some slug) = true

  -- The group of the first path that the pattern finds something in.
  unfoldable pub spec_slug : List String → Option String
  unfolding area_spec path_name
  spec_slug [] = none
  spec_slug (path_value ∷ rest) = or_else (area_spec (path_name path_value)) (spec_slug rest)

-- `PurePosixPath(s).parts`: the root is a part, of two slashes if the path begins with just two.
unfoldable pub posix_parts : String → List String
unfolding parts starts_with
posix_parts s =
    if starts_with s "///"
    then "/" ∷ parts s
    else if starts_with s "//"
    then "//" ∷ parts s
    else if starts_with s "/"
    then "/" ∷ parts s
    else parts s

-- The first of at least two parts.
abbrev pub first_of_several : List String → Option String
first_of_several (segment ∷ next ∷ rest) = some segment
first_of_several _ = none

abbrev pub route_of : Option String → Option String
route_of none = none
route_of (some suffix) =
    if elem (path_name suffix) ("page.tsx" ∷ "page.jsx" ∷ [])
    then first_of_several (posix_parts suffix)
    else none

-- The first segment of the first path below `/frontend/app/` that is a page.
unfoldable pub route_segment : List String → Option String
unfolding after_first path_name posix_parts
route_segment [] = none
route_segment (path_value ∷ rest) =
    or_else (route_of (after_first "/frontend/app/" path_value)) (route_segment rest)

abbrev pub routed : String → Option String → Result String
routed subsystem none = err area_id_inference_error
routed subsystem (some segment) = ok (join subsystem (join "-" segment))

abbrev pub specified : String → Option String → Option String → Result String
specified subsystem none segment = routed subsystem segment
specified subsystem (some slug) segment = ok slug

-- `_infer_area_id`
unfoldable pub infer_area_id : (ℕ → Bool) → List String → String → Option String → Result String
unfolding spec_slug route_segment
infer_area_id is_decimal paths subsystem (some area_hint) = ok area_hint
infer_area_id is_decimal paths subsystem none =
    specified subsystem (spec_slug is_decimal paths) (route_segment paths)
