-- ===== src/AppliesTo.antt =====
-- applies_to.py: globs over repository paths. `fnmatchcase` of the standard library matches one
-- segment; it is a parameter.
pub mod Globs
pub mod Fallback
pub mod Effective
use standards_control_plane.Prelude.{
  Bool, List, String, [], any, false, filter, if◌then◌else◌, not, true, ◌&&◌, ◌==◌, ◌∷◌,
}
use standards_control_plane.Paths.{split, with_slashes}

-- The loop that drops a `**` behind a `**`; `last` tells whether a `**` was put last.
unfoldable pub collapse_from : Bool → List String → List String
collapse_from last [] = []
collapse_from last (part ∷ rest) =
    let stars = part == "**" in
    let more = collapse_from stars rest in if stars && last then more else part ∷ more

abbrev pub suffixes : List String → List (List String)
suffixes [] = [] ∷ []
suffixes (x ∷ xs) = (x ∷ xs) ∷ suffixes xs

module _ (fnmatchcase : String → String → Bool) where
  -- One step of `match` at a part that is not `**`.
  abbrev pub match_one : List String → String → (List String → Bool) → Bool
  match_one [] p k = false
  match_one (x ∷ xs) p k = fnmatchcase x p && k xs

  abbrev pub is_nil : List String → Bool
  is_nil [] = true
  is_nil (x ∷ xs) = false

  -- `match`, on what is left of the path and of the pattern. The memo holds results of the same
  -- calls and changes none.
  unfoldable pub match : List String → List String → Bool
  match parts' [] = is_nil parts'
  match parts' (p ∷ ps) =
      if p == "**"
      then any (λ rest. match rest ps) (suffixes parts')
      else match_one parts' p (λ rest. match rest ps)

  -- `_match_segments`
  unfoldable pub match_segments : List String → List String → Bool
  unfolding collapse_from match
  match_segments parts' pattern_parts = match parts' (collapse_from false pattern_parts)

  -- `glob_matches`
  unfoldable pub glob_matches : String → String → Bool
  unfolding match_segments split with_slashes
  glob_matches path pattern' =
      match_segments (filter (λ part. not (part == "")) (split (with_slashes path)))
        (split pattern')
