-- ===== src/Core.antt =====
-- internal/core/core.go: the types that the other packages share. A Go `int` is ℤ, kept to 64 bits
-- by `wrap` where the source computes; a byte slice and a string are both `String`, one character
-- to a byte; a `float64` is its bit pattern.
mod Values
pub mod Decimal
pub use Values.*
unfoldable pub use Values.{is_value_type, to_int, parse_bool, to_bool, to_float}
unfoldable pub use Decimal.{atoi, itoa}
use redka.Base.{
  ℕ, ℤ, pos, negsuc, ◌/◌, String, Bool, true, false, Option, none, not, str_eq, ◌==◌, if◌then◌else◌,
}

-- The errors of core.go; `sql` is any other error with its message, SQLite's or the server's.
pub data Error : Type 0 where
  not_found key_type value_type not_allowed : Error
  sql : String → Error

-- `err.Error()`
unfoldable pub error_text : Error → String
error_text not_found = "key not found"
error_text key_type = "key type mismatch"
error_text value_type = "invalid value type"
error_text not_allowed = "operation not allowed"
error_text (sql message) = message

-- A Go result `(A, error)`: the value where the error is nil, else the error.
pub data Result (A : Type 0) : Type 0 where
  ok : A → Result A
  err : Error → Result A

-- A `time.Time` as nanoseconds since 1970, a `time.Duration` in nanoseconds.
abbrev pub Time : Type 0
Time = ℤ

abbrev pub Duration : Type 0
Duration = ℤ

-- `Time.UnixMilli`, which rounds down
unfoldable pub unix_milli : Time → ℤ
unix_milli (pos n) = pos (n / 1000000)
unix_milli (negsuc n) = negsuc (n / 1000000)

-- `TypeID`, an int with five named values
abbrev pub TypeId : Type 0
TypeId = ℕ

abbrev pub type_string : TypeId
type_string = 1

abbrev pub type_list : TypeId
type_list = 2

abbrev pub type_set : TypeId
type_set = 3

abbrev pub type_hash : TypeId
type_hash = 4

abbrev pub type_sorted_set : TypeId
type_sorted_set = 5

abbrev pub initial_version : ℕ
initial_version = 1

-- `Key`, which is also a row of the table `rkey`
pub record Key : Type 0 where
  pub id : ℕ
  pub key : String
  pub type_id : TypeId
  pub version : ℕ
  pub etime : Option ℤ
  pub mtime : ℤ

-- the zero value `core.Key{}`
abbrev pub no_key : Key
no_key = record { id = 0; key = ""; type_id = 0; version = 0; etime = none; mtime = pos 0 }

-- `Key.Exists`
abbrev pub key_exists : Key → Bool
key_exists k = not (str_eq k.key "")

-- `Key.TypeName`
unfoldable pub type_name : Key → String
type_name k =
    if k.type_id == type_string
    then "string"
    else if k.type_id == type_list
    then "list"
    else if k.type_id == type_set
    then "set"
    else if k.type_id == type_hash
    then "hash"
    else if k.type_id == type_sorted_set
    then "zset"
    else "unknown"
