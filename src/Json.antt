-- ===== src/Json.antt =====
-- JSON values as `json.loads` gives them, the checks on them that every loader starts with
-- (src/standards_control_plane/findings.py and the same helpers of waivers.py and registry.py),
-- and the call of the schema validator.
use standards_control_plane.Prelude.{
  ==-false, Bool, List, Option, Result, String, [], err, false, guard, if◌then◌else◌, key_error,
  map, none, ok, or_raise, refl, some, true, type_error, value_error, ◌*◌, ◌+◌, ◌==◌, ◌>>=◌, ◌∷◌,
  ◌≡◌, ◌≢◌,
}
use standards_control_plane.Prelude.Int.{negsuc, pos, ℤ}

-- A number with a fraction is counted in ten-thousandths.
mutual
  pub data Value : Type 0 where
    obj : Fields → Value
    arr : Items → Value
    str : String → Value
    whole decimal : ℤ → Value
    bool : Bool → Value
    null : Value

  -- The keys and values of an object, in order.
  pub data Fields : Type 0 where
    end : Fields
    field : String → Value → Fields → Fields

  -- The elements of an array.
  pub data Items : Type 0 where
    cons : Value → Items → Items
    nil : Items

abbrev pub of_list : List Value → Items
of_list [] = nil
of_list (x ∷ xs) = cons x (of_list xs)

abbrev pub to_list : Items → List Value
to_list nil = []
to_list (cons x xs) = x ∷ to_list xs

abbrev pub strs : List String → Value
strs l = arr (of_list (map str l))

-- `payload.get(k)`
unfoldable pub get : String → Fields → Option Value
get k end = none
get k (field j v fs) = if j == k then some v else get k fs

-- `payload[k]`
abbrev pub item : String → Fields → Result Value
item k fs = or_raise key_error (get k fs)

unfoldable pub ensure_object : Value → Result Fields
ensure_object (obj fs) = ok fs
ensure_object _ = err type_error

unfoldable pub ensure_string : Value → Result String
ensure_string (str s) = if s == "" then err type_error else ok s
ensure_string _ = err type_error

all_strings : List Value → Result (List String)
all_strings [] = ok []
all_strings (str s ∷ vs) = all_strings vs >>= λ ss. ok (s ∷ ss)
all_strings (_ ∷ vs) = err type_error

unfoldable pub ensure_string_list : Value → Result (List String)
unfolding all_strings
ensure_string_list (arr vs) = all_strings (to_list vs)
ensure_string_list _ = err type_error

-- `_ensure_string(payload[k], …)`
unfoldable pub string_item : String → Fields → Result String
unfolding get ensure_string
string_item k fs = do v ← item k fs; ensure_string v

-- `v if isinstance(v, str) else None` for `v = payload.get(k)`
abbrev pub text_of : Option Value → Option String
text_of (some (str s)) = some s
text_of _ = none

-- `payload.get(k, [])`
abbrev pub or_empty : Option Value → Value
or_empty none = arr nil
or_empty (some v) = v

-- `float(v)`; a text is taken to be no number.
unfoldable pub to_float : Value → Result ℤ
to_float (decimal d) = ok d
to_float (whole (pos n)) = ok (pos (n * 10000))
to_float (whole (negsuc n)) = ok (negsuc (n * 10000 + 9999))
to_float (bool true) = ok (pos 10000)
to_float (bool false) = ok (pos 0)
to_float (str s) = err value_error
to_float _ = err type_error

-- What the JSON Schema library answers for a value and a schema's file name.
abbrev pub Schemas : Type 0
Schemas = String → Value → Bool

unfoldable pub validate_with_schema : Schemas → Value → String → Result (Unit {0})
validate_with_schema accepts instance' schema_name =
    guard (accepts schema_name instance') value_error

pub ensure_string-str : (s : String) → s ≢ "" → ensure_string (str s) ≡ ok s
unfolding ensure_string
ensure_string-str s h = rw (==-false s "" h)

pub ensure_string_list-strs : (l : List String) → ensure_string_list (strs l) ≡ ok l
unfolding ensure_string_list
ensure_string_list-strs [] = refl
ensure_string_list-strs (s ∷ l) = rw (ensure_string_list-strs l)
