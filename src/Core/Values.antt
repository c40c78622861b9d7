-- ===== src/Core/Values.antt =====
-- `Value`, the byte slice that a query reads back, and the values that the caller may store.
use redka.Base.{
  ℕ, ℤ, pos, String, Bool, true, false, not, Option, none, some, ◌≡◌, str_eq, if◌then◌else◌,
}
use redka.Core.Decimal.{atoi, itoa}

abbrev pub Value : Type 0
Value = String

-- the bit pattern of a float64
abbrev pub Float64 : Type 0
Float64 = ℕ

-- The argument type `any`; `bytes` is a byte slice that is not nil, and `other` is every dynamic type that is not listed.
pub data AnyValue : Type 0 where
  str : String → AnyValue
  int : ℤ → AnyValue
  float : Float64 → AnyValue
  bool : Bool → AnyValue
  bytes : String → AnyValue
  nil_bytes : AnyValue
  other : AnyValue

unfoldable pub is_value_type : AnyValue → Bool
is_value_type other = false
is_value_type _ = true

-- `Value.Exists`
abbrev pub exists : Value → Bool
exists v = not (str_eq v "")

-- `Value.Int`; `none` is the error of strconv
unfoldable pub to_int : Value → Option ℤ
to_int v = if exists v then atoi v else some (pos 0)

-- strconv.ParseBool
unfoldable pub parse_bool : String → Option Bool
parse_bool s =
    if str_eq s "1"
    then some true
    else if str_eq s "t"
    then some true
    else if str_eq s "T"
    then some true
    else if str_eq s "TRUE"
    then some true
    else if str_eq s "true"
    then some true
    else if str_eq s "True"
    then some true
    else if str_eq s "0"
    then some false
    else if str_eq s "f"
    then some false
    else if str_eq s "F"
    then some false
    else if str_eq s "FALSE"
    then some false
    else if str_eq s "false"
    then some false
    else if str_eq s "False"
    then some false
    else none

-- `Value.Bool`
unfoldable pub to_bool : Value → Option Bool
unfolding parse_bool
to_bool v = if exists v then parse_bool v else some false

-- What the program uses of the SQLite driver, of SQLite's functions and of Go's floats: how a
-- stored value is read back as bytes, `none` where it is bound as null (a nil byte slice, a NaN),
-- `glob`, and the arithmetic and the texts of float64.
pub record Driver : Type 0 where
  pub stored : AnyValue → Option Value
  pub glob : String → String → Bool
  pub parse_float : String → Option Float64
  pub format_float : Float64 → String
  pub add_float : Float64 → Float64 → Float64
  -- texts and byte slices are stored as they are
  pub stored_str : (s : String) → stored (str s) ≡ some s
  pub stored_bytes : (s : String) → stored (bytes s) ≡ some s
  pub stored_nil : stored nil_bytes ≡ none
  -- an integer is read back as its decimal text
  pub stored_int : (n : ℤ) → stored (int n) ≡ some (itoa n)

-- `Value.Float`
unfoldable pub to_float : Driver → Value → Option Float64
to_float d v = if exists v then d.parse_float v else some 0
