-- ===== src/Unique.antt =====
-- Loops that keep the first occurrence of each text: `_ordered_unique` of audit.py,
-- `_dedupe_strings` of consult.py, and `dict.fromkeys`.
pub mod Laws
pub mod Sets
use standards_control_plane.Prelude.{
  List, String, [], elem, if◌then◌else◌, leb, length, ℕ, ◌+◌, ◌∷◌,
}

-- The loop of `_ordered_unique`, by the set of what was seen.
unfoldable pub unique_from : List String → List String → List String
unique_from seen [] = []
unique_from seen (value ∷ rest) =
    if elem value seen then unique_from seen rest else value ∷ unique_from (value ∷ seen) rest

-- `_ordered_unique`
unfoldable pub ordered_unique : List String → List String
unfolding unique_from
ordered_unique = unique_from []

-- The loop of `_dedupe_strings`: it ends once `limit` texts are kept, `kept` of them so far.
unfoldable pub dedupe_from : ℕ → ℕ → List String → List String → List String
dedupe_from limit kept seen [] = []
dedupe_from limit kept seen (value ∷ rest) =
    let skip = dedupe_from limit kept seen rest in
    let more = dedupe_from limit (kept + 1) (value ∷ seen) rest in
    if elem value seen then skip else value ∷ (if leb limit (kept + 1) then [] else more)

-- `_dedupe_strings`
unfoldable pub dedupe_strings : List String → ℕ → List String
unfolding dedupe_from
dedupe_strings values limit = dedupe_from limit 0 [] values

-- `_unique_ordered` of consult.py
unfoldable pub unique_ordered : List String → List String
unfolding dedupe_strings
unique_ordered values = dedupe_strings values (length values)
