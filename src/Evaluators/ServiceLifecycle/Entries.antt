-- ===== src/Evaluators/ServiceLifecycle/Entries.antt =====
-- An entry of `accepted_modes` in evaluators/service_lifecycle.py: the tables of the modes, the
-- patterns of the values, and its mode. The child checks the entry.
pub mod Issues
use Prim.Native.Char.{code}
use Prim.Native.String.{◌++◌ as join}
use standards_control_plane.Json
use standards_control_plane.Prelude.{
  Bool, List, Option, String, [], false, if◌then◌else◌, leb, nat_eq, none, not, some, true, ℕ, ◌&&◌,
  ◌==◌, ◌||◌, ◌∷◌,
}
use standards_control_plane.Decimal.{decimal as digits_of}
use standards_control_plane.Json.{
  Fields, Value, arr, bool, decimal, end, field, null, obj, str, whole,
}
use standards_control_plane.Text.{Unicode, after_first, drop_chars, starts_with}
use standards_control_plane.Evaluators.ServiceLifecycle.{Issue}

-- `APPROVED_MODES`
abbrev pub approved_modes : List String
approved_modes =
    "mode.user_oidc" ∷ "mode.service_rs256" ∷ "mode.api_key" ∷ "mode.bearer_legacy" ∷ []

-- `MODE_METADATA_REQUIRED[mode]` of an approved mode
unfoldable pub mode_metadata_required : String → List String
mode_metadata_required mode =
    if mode == "mode.user_oidc"
    then "audience" ∷ "jwks_url" ∷ []
    else if mode == "mode.service_rs256"
    then "audience" ∷ "jwks_url" ∷ []
    else if mode == "mode.api_key"
    then "issuer" ∷ []
    else "deprecation_close_date" ∷ "waiver_ref" ∷ []

-- `ALLOWED_BASE_ENTRY_FIELDS | ADDITIONAL_ENTRY_FIELDS_BY_MODE[mode]` of an approved mode
unfoldable pub allowed_fields : String → List String
allowed_fields mode =
    "mode"
    ∷ "notes"
    ∷ (if mode == "mode.user_oidc"
        then "audience" ∷ "jwks_url" ∷ []
        else if mode == "mode.service_rs256"
        then "audience" ∷ "jwks_url" ∷ []
        else if mode == "mode.api_key"
        then "issuer" ∷ "key_id_prefix" ∷ []
        else "deprecation_close_date" ∷ "waiver_ref" ∷ [])

-- `type(value).__name__`
abbrev pub type_name : Value → String
type_name (obj fs) = "dict"
type_name (arr vs) = "list"
type_name (str s) = "str"
type_name (whole n) = "int"
type_name (decimal d) = "float"
type_name (bool b) = "bool"
type_name null = "NoneType"

abbrev pub value_or_null : Option Value → Value
value_or_null none = null
value_or_null (some v) = v

abbrev pub names_of : Fields → List String
names_of end = []
names_of (field k v fs) = k ∷ names_of fs

abbrev or_whole : String → Option String → String
or_whole s none = s
or_whole s (some rest) = rest

-- `mode.split(".", 1)[-1]`
unfoldable pub short_mode : String → String
unfolding after_first
short_mode mode = or_whole mode (after_first "." mode)

abbrev is_lower : ℕ → Bool
is_lower c = leb 97 c && leb c 122

all_chars : (ℕ → Bool) → String → Bool
all_chars p String.[] = true
all_chars p (String.◌∷◌ c s) = p (code c) && all_chars p s

-- `AUDIENCE_PATTERN.fullmatch(s)`
unfoldable pub is_audience : String → Bool
unfolding all_chars
is_audience String.[] = false
is_audience (String.◌∷◌ c s) =
    is_lower (code c) && all_chars (λ d. is_lower d || ((leb 48 d && leb d 57) || nat_eq d 45)) s

-- `JWKS_URL_PATTERN.fullmatch(s)`
unfoldable pub is_jwks_url : Unicode → String → Bool
unfolding after_first starts_with all_chars
is_jwks_url unicode s =
    (starts_with s "http://" && is_rest (drop_chars 7 s))
    || (starts_with s "https://" && is_rest (drop_chars 8 s))
  where
    is_rest : String → Bool
    is_rest rest = not (rest == "") && all_chars (λ c. not (unicode.is_space c)) rest

-- What `_parse_close_date` returns.
pub data CloseDate : Type 0 where
  no_date : CloseDate
  date : ℕ → CloseDate
  not_a_date : CloseDate

unfoldable pub parse_close_date : (String → Option ℕ) → Value → CloseDate
parse_close_date from_iso null = no_date
parse_close_date from_iso (str s) = date_or_malformed (from_iso s)
  where
    date_or_malformed : Option ℕ → CloseDate
    date_or_malformed none = not_a_date
    date_or_malformed (some day) = date day
parse_close_date from_iso _ = not_a_date

-- The mode of an entry, or what is reported of one that has none.
pub data Entry : Type 0 where
  with_mode : String → Fields → Entry
  without_mode : Issue → Entry
