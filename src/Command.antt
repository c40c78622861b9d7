-- ===== src/Command.antt =====
-- internal/command: the commands, their arguments and their errors.
pub mod Arguments
pub mod Parse
pub mod Dispatch
pub mod Respond
pub mod Run
pub mod Framing
pub mod Invariant
pub mod Redka
pub mod Storing
mod Tests
use Prim.Native.String.{◌++◌ as append}
use redka.Base.{ℕ, ℤ, String, List, Bool}
use redka.Core.{Error, not_found, key_type, error_text, Duration, Time, AnyValue, Float64}

-- The errors of a.go that parsing returns.
pub data CommandError : Type 0 where
  invalid_arg_num invalid_cursor invalid_expire_time invalid_float invalid_int syntax_error :
      CommandError

unfoldable pub command_error_text : CommandError → String
command_error_text invalid_arg_num = "ERR wrong number of arguments"
command_error_text invalid_cursor = "ERR invalid cursor"
command_error_text invalid_expire_time = "ERR invalid expire time"
command_error_text invalid_float = "ERR value is not a float"
command_error_text invalid_int = "ERR value is not an integer or out of range"
command_error_text syntax_error = "ERR syntax error"

-- The commands, one constructor for each Go struct that embeds `baseCmd`, with its fields. A value
-- is the byte slice of the argument. `SetOptions` are the fields of `Set` beside key and value.
pub record SetOptions : Type 0 where
  pub if_nx : Bool
  pub if_xx : Bool
  pub ttl : Duration

pub record ScanOptions : Type 0 where
  pub cursor : ℤ
  pub match_ : String
  pub count : ℤ

pub data Op : Type 0 where
  cmd_ok cmd_unknown cmd_flush_db cmd_random_key : Op
  cmd_echo cmd_del cmd_exists cmd_m_get : List String → Op
  cmd_expire : String → Duration → Op
  cmd_expire_at : String → Time → Op
  cmd_keys cmd_persist cmd_get cmd_h_get_all cmd_h_keys cmd_h_len cmd_h_vals : String → Op
  cmd_rename cmd_rename_nx cmd_get_set cmd_set_nx cmd_h_exists cmd_h_get : String → String → Op
  cmd_scan : ScanOptions → Op
  cmd_h_scan : String → ScanOptions → Op
  cmd_incr : String → ℤ → Op
  cmd_incr_by_float : String → Float64 → Op
  cmd_m_set cmd_m_set_nx : List (String × AnyValue) → Op
  cmd_set : String → String → SetOptions → Op
  cmd_set_ex : String → Duration → String → Op
  cmd_h_del cmd_h_m_get : String → List String → Op
  cmd_h_incr_by : String → String → ℤ → Op
  cmd_h_incr_by_float : String → String → Float64 → Op
  cmd_h_set cmd_h_m_set : String → List (String × AnyValue) → Op
  cmd_h_set_nx : String → String → String → Op

-- `baseCmd`, less the arguments, which only `String` reads
pub record Cmd : Type 0 where
  pub name : String
  pub op : Op

-- `fmt.Sprintf("%s (%s)", err, cmd.Name())`
abbrev pub error_line : String → String → String
error_line name text = append text (append " (" (append name ")"))

-- `baseCmd.Error` of an error of a repository
unfoldable pub domain_error : String → Error → String
domain_error name not_found = error_line name "ERR no such key"
domain_error name key_type =
    error_line name "WRONGTYPE Operation against a key holding the wrong kind of value"
domain_error name e = error_line name (error_text e)
