-- ===== src/Text/Sources.antt =====
-- The texts of source files: lines, comments and imports, as the evaluators read them.
use Prim.Native.Char.{Char, code}
use standards_control_plane.Prelude.{
  Bool, List, String, [], any, false, filter, if◌then◌else◌, map, nat_eq, suc, true, zero, ℕ, ◌&&◌,
  ◌+◌, ◌-◌, ◌∷◌,
}
use standards_control_plane.Text.{Unicode, drop_chars, size, starts_with}

abbrev newline : ℕ
newline = 10

-- `re.sub(pattern, "", s)` for a pattern without empty matches: `match_size at_line_start s` is the
-- length of the match at the head of `s`, 0 without one, and `skipped` characters are still to go.
module _ (match_size : Bool → String → ℕ) where
  unfoldable pub remove_from : ℕ → Bool → String → String
  remove_from skipped at_line_start String.[] = String.[]
  remove_from zero at_line_start (String.◌∷◌ c s) =
      let starts = nat_eq (code c) newline in
      let kept = remove_from zero starts s in
      elim (match_size at_line_start (String.◌∷◌ c s)) [
        | zero ↦ String.◌∷◌ c kept
        | suc n ↦ remove_from n starts s
      ]
  remove_from (suc n) at_line_start (String.◌∷◌ c s) = remove_from n (nat_eq (code c) newline) s

  unfoldable pub remove_matches : String → String
  unfolding remove_from
  remove_matches s = remove_from 0 true s

-- How long the text is up to the end of the first `t` in it, `n` longer; 0 without one.
size_through : String → ℕ → String → ℕ
unfolding starts_with
size_through t n String.[] = 0
size_through t n (String.◌∷◌ c s) =
    let later = size_through t (n + 1) s in
    if starts_with (String.◌∷◌ c s) t then n + size t else later

-- How long the rest of the line is, `n` longer.
line_size : ℕ → String → ℕ
line_size n String.[] = n
line_size n (String.◌∷◌ c s) =
    let longer = line_size (n + 1) s in if nat_eq (code c) newline then n else longer

-- `/\*.*?\*/` across lines.
unfoldable pub block_comment : Bool → String → ℕ
unfolding starts_with size_through
block_comment at_line_start s =
    if starts_with s "/*" then size_through "*/" 2 (drop_chars 2 s) else 0

-- `//.*`
unfoldable pub line_comment : Bool → String → ℕ
unfolding starts_with line_size
line_comment at_line_start s = if starts_with s "//" then line_size 2 (drop_chars 2 s) else 0

module _ (unicode : Unicode) where
  after_spaces : ℕ → String → ℕ
  unfolding line_size
  after_spaces n String.[] = 0
  after_spaces n (String.◌∷◌ c s) =
      let longer = after_spaces (n + 1) s in
      if nat_eq (code c) 35
      then line_size (n + 1) s
      else if unicode.is_space (code c)
      then longer
      else 0

  -- `^\s*#.*$` at the start of any line; the space may run over several lines.
  unfoldable pub hash_comment : Bool → String → ℕ
  unfolding after_spaces
  hash_comment at_line_start s = if at_line_start then after_spaces 0 s else 0

  -- `_strip_comments`
  unfoldable pub strip_comments : String → String
  unfolding remove_matches block_comment line_comment hash_comment
  strip_comments source =
      remove_matches hash_comment
        (remove_matches line_comment (remove_matches block_comment source))

  -- `s.lstrip()`
  unfoldable pub lstrip : String → String
  lstrip String.[] = String.[]
  lstrip (String.◌∷◌ c s) =
      let rest = lstrip s in if unicode.is_space (code c) then rest else String.◌∷◌ c s

  abbrev put_unless_bare : Char → String → String
  put_unless_bare c String.[] =
      if unicode.is_space (code c) then String.[] else String.◌∷◌ c String.[]
  put_unless_bare c (String.◌∷◌ d s) = String.◌∷◌ c (String.◌∷◌ d s)

  -- `s.rstrip()`
  unfoldable pub rstrip : String → String
  rstrip String.[] = String.[]
  rstrip (String.◌∷◌ c s) = put_unless_bare c (rstrip s)

  -- `s.strip()`
  unfoldable pub strip : String → String
  unfolding lstrip rstrip
  strip s = rstrip (lstrip s)

-- The characters that end a line for `splitlines`; a carriage return takes a line feed along.
abbrev line_breaks : List ℕ
line_breaks = 10 ∷ 11 ∷ 12 ∷ 13 ∷ 28 ∷ 29 ∷ 30 ∷ 133 ∷ 8232 ∷ 8233 ∷ []

abbrev cons_first : Char → List String → List String
cons_first c [] = String.◌∷◌ c String.[] ∷ []
cons_first c (l ∷ ls) = String.◌∷◌ c l ∷ ls

-- `s.splitlines()`: no line stands behind the last break, and a line feed behind a carriage return
-- is part of the same break.
unfoldable pub splitlines_from : Bool → String → List String
splitlines_from after_return String.[] = []
splitlines_from after_return (String.◌∷◌ c s) =
    let next = splitlines_from (nat_eq (code c) 13) s in
    if after_return && nat_eq (code c) 10
    then next
    else if any (nat_eq (code c)) line_breaks
    then String.[] ∷ next
    else cons_first c next

unfoldable pub splitlines : String → List String
unfolding splitlines_from
splitlines s = splitlines_from false s

-- `s.count(t)` of a text that is not empty.
unfoldable pub count_from : String → ℕ → String → ℕ
unfolding starts_with
count_from t skipped String.[] = 0
count_from t (suc n) (String.◌∷◌ c s) = count_from t n s
count_from t zero (String.◌∷◌ c s) =
    let none_here = count_from t 0 s in
    let behind = count_from t (size t - 1) s in
    if starts_with (String.◌∷◌ c s) t then 1 + behind else none_here

unfoldable pub count_occurrences : String → String → ℕ
unfolding count_from
count_occurrences s t = count_from t 0 s

module _ (unicode : Unicode) where
  -- `_import_lines`
  unfoldable pub import_lines : String → List String
  unfolding strip_comments splitlines strip starts_with
  import_lines source =
      filter (λ l. any (λ t. starts_with l t) ("import " ∷ "from " ∷ "export " ∷ []))
        (map (strip unicode) (splitlines (strip_comments unicode source)))
