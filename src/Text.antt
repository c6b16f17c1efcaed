-- ===== src/Text.antt =====
-- Texts: Python's `startswith`, `in`, `split`, `join` and the like, and the facts of Unicode that
-- these leave open.
pub mod Sources
use Prim.Native.Char.{Char, code}
use Prim.Native.String.{◌++◌ as join}
use standards_control_plane.Prelude.{
  Bool, List, Option, String, [], any, false, if◌then◌else◌, nat_eq, none, some, suc, true, zero, ℕ,
  ◌&&◌, ◌||◌, ◌∷◌,
}
use standards_control_plane.Paths.{ends_with, parts}

-- What is Unicode's to say: `str.lower`, the decimal digits, white space, and the characters of
-- words, by code points.
pub record Unicode : Type 0 where
  pub lower : String → String
  pub is_decimal : ℕ → Bool
  pub is_space : ℕ → Bool
  pub is_word : ℕ → Bool

-- `s.startswith(t)`
unfoldable pub starts_with : String → String → Bool
starts_with s String.[] = true
starts_with String.[] (String.◌∷◌ d t) = false
starts_with (String.◌∷◌ c s) (String.◌∷◌ d t) = nat_eq (code c) (code d) && starts_with s t

-- `t in s`
unfoldable pub occurs_in : String → String → Bool
unfolding starts_with
occurs_in t String.[] = starts_with String.[] t
occurs_in t (String.◌∷◌ c s) = starts_with (String.◌∷◌ c s) t || occurs_in t s

-- `any(marker in s for marker in markers)`
unfoldable pub mentions : List String → String → Bool
unfolding occurs_in
mentions markers s = any (λ marker. occurs_in marker s) markers

-- `next((marker for marker in markers if marker in s), None)`
unfoldable pub first_marker : List String → String → Option String
unfolding occurs_in
first_marker [] s = none
first_marker (marker ∷ rest) s =
    let later = first_marker rest s in if occurs_in marker s then some marker else later

-- `s.endswith((t, u, …))`
unfoldable pub ends_with_any : String → List String → Bool
unfolding ends_with
ends_with_any s suffixes = any (λ t. ends_with s t) suffixes

-- `sep.join(xs)`
abbrev pub join_with : String → List String → String
join_with sep [] = ""
join_with sep (x ∷ []) = x
join_with sep (x ∷ (y ∷ ys)) = join x (join sep (join_with sep (y ∷ ys)))

-- `" ".join(xs)`
abbrev pub spaced : List String → String
spaced xs = join_with " " xs

abbrev cons_first : Char → List String → List String
cons_first c [] = String.◌∷◌ c String.[] ∷ []
cons_first c (p ∷ ps) = String.◌∷◌ c p ∷ ps

-- `s.split(sep)` for a separator of one character, given by its code point.
unfoldable pub split_at : ℕ → String → List String
split_at sep String.[] = String.[] ∷ []
split_at sep (String.◌∷◌ c s) =
    let rest = split_at sep s in if nat_eq (code c) sep then String.[] ∷ rest else cons_first c rest

abbrev pub drop_chars : ℕ → String → String
drop_chars zero s = s
drop_chars (suc n) String.[] = String.[]
drop_chars (suc n) (String.◌∷◌ c s) = drop_chars n s

abbrev pub size : String → ℕ
size String.[] = 0
size (String.◌∷◌ c s) = suc (size s)

-- What stands behind the first `t` in `s`.
unfoldable pub after_first : String → String → Option String
unfolding starts_with
after_first t String.[] = if starts_with String.[] t then some String.[] else none
after_first t (String.◌∷◌ c s) =
    let later = after_first t s in
    if starts_with (String.◌∷◌ c s) t then some (drop_chars (size t) (String.◌∷◌ c s)) else later

-- The longest beginning of which every character passes, and the rest.
unfoldable pub span : (ℕ → Bool) → String → String × String
span p String.[] = (String.[], String.[])
span p (String.◌∷◌ c s) =
    let rest = span p s in
    if p (code c) then (String.◌∷◌ c rest.0, rest.1) else (String.[], String.◌∷◌ c s)

-- The rest behind characters that are each among those of the place.
unfoldable pub after_prefix_in : List (List ℕ) → String → Option String
after_prefix_in [] s = some s
after_prefix_in (place ∷ places) String.[] = none
after_prefix_in (place ∷ places) (String.◌∷◌ c s) =
    let rest = after_prefix_in places s in if any (nat_eq (code c)) place then rest else none

-- `PurePosixPath(s).name`
unfoldable pub path_name : String → String
unfolding parts
path_name s = last_part (parts s)
  where
    last_part : List String → String
    last_part [] = ""
    last_part (p ∷ []) = p
    last_part (p ∷ (q ∷ ps)) = last_part (q ∷ ps)
