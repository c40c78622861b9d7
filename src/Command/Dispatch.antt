-- ===== src/Command/Dispatch.antt =====
-- `Parse` (a.go): the switch over the names of the commands.
use redka.Base.{pos, negsuc, String, List, str_eq, if◌then◌else◌}
use redka.Core.{Driver}
use redka.Command.{Op, Cmd, command_error_text, error_line, cmd_ok, cmd_unknown}
use redka.Server.{Parsed, parsed, refused}
use redka.Command.Arguments.{Parsing, accept, reject}
use redka.Command.Parse.{
  parse_del, parse_echo, parse_exists, parse_expire, parse_expire_at, parse_flush_db, parse_get,
  parse_get_set, parse_h_del, parse_h_exists, parse_h_get, parse_h_get_all, parse_h_incr_by,
  parse_h_incr_by_float, parse_h_keys, parse_h_len, parse_h_m_get, parse_h_m_set, parse_h_scan,
  parse_h_set, parse_h_set_nx, parse_h_vals, parse_incr, parse_incr_by, parse_incr_by_float,
  parse_keys, parse_m_get, parse_m_set, parse_m_set_nx, parse_persist, parse_random_key,
  parse_rename, parse_rename_nx, parse_scan, parse_set, parse_set_ex, parse_set_nx,
}

module _ (d : Driver) where
  -- the switch of `Parse` over the names of the server and of the keys, or the next switch
  unfoldable pub parse_key_op : String → List String → Parsing Op → Parsing Op
  parse_key_op name args other =
      if str_eq name "command"
      then accept cmd_ok
      else if str_eq name "flushdb"
      then parse_flush_db args
      else if str_eq name "info"
      then accept cmd_ok
      else if str_eq name "echo"
      then parse_echo args
      else if str_eq name "del"
      then parse_del args
      else if str_eq name "exists"
      then parse_exists args
      else if str_eq name "expire"
      then parse_expire (pos 1000) args
      else if str_eq name "expireat"
      then parse_expire_at (pos 1000) args
      else if str_eq name "keys"
      then parse_keys args
      else if str_eq name "persist"
      then parse_persist args
      else if str_eq name "pexpire"
      then parse_expire (pos 1) args
      else if str_eq name "pexpireat"
      then parse_expire_at (pos 1) args
      else if str_eq name "randomkey"
      then parse_random_key args
      else if str_eq name "rename"
      then parse_rename args
      else if str_eq name "renamenx"
      then parse_rename_nx args
      else if str_eq name "scan"
      then parse_scan args
      else other

  -- over the names of the strings
  unfoldable pub parse_string_op : String → List String → Parsing Op → Parsing Op
  parse_string_op name args other =
      if str_eq name "decr"
      then parse_incr (negsuc 0) args
      else if str_eq name "decrby"
      then parse_incr_by (negsuc 0) args
      else if str_eq name "get"
      then parse_get args
      else if str_eq name "getset"
      then parse_get_set args
      else if str_eq name "incr"
      then parse_incr (pos 1) args
      else if str_eq name "incrby"
      then parse_incr_by (pos 1) args
      else if str_eq name "incrbyfloat"
      then parse_incr_by_float d args
      else if str_eq name "mget"
      then parse_m_get args
      else if str_eq name "mset"
      then parse_m_set args
      else if str_eq name "msetnx"
      then parse_m_set_nx args
      else if str_eq name "psetex"
      then parse_set_ex (pos 1) args
      else if str_eq name "set"
      then parse_set args
      else if str_eq name "setex"
      then parse_set_ex (pos 1000) args
      else if str_eq name "setnx"
      then parse_set_nx args
      else other

  -- over the names of the hashes
  unfoldable pub parse_hash_op : String → List String → Parsing Op → Parsing Op
  parse_hash_op name args other =
      if str_eq name "hdel"
      then parse_h_del args
      else if str_eq name "hexists"
      then parse_h_exists args
      else if str_eq name "hget"
      then parse_h_get args
      else if str_eq name "hgetall"
      then parse_h_get_all args
      else if str_eq name "hincrby"
      then parse_h_incr_by args
      else if str_eq name "hincrbyfloat"
      then parse_h_incr_by_float d args
      else if str_eq name "hkeys"
      then parse_h_keys args
      else if str_eq name "hlen"
      then parse_h_len args
      else if str_eq name "hmget"
      then parse_h_m_get args
      else if str_eq name "hmset"
      then parse_h_m_set args
      else if str_eq name "hscan"
      then parse_h_scan args
      else if str_eq name "hset"
      then parse_h_set args
      else if str_eq name "hsetnx"
      then parse_h_set_nx args
      else if str_eq name "hvals"
      then parse_h_vals args
      else other

  -- the command, or the text of the error that `pcmd.Error` makes
  abbrev to_parsed : String → Parsing Op → Parsed Cmd
  to_parsed name (accept op) = parsed (record { name = name; op = op })
  to_parsed name (reject e) = refused (error_line name (command_error_text e))

  -- `Parse`: `lower` is `strings.ToLower`, the name stands first
  unfoldable pub parse : (String → String) → String × List String → Parsed Cmd
  parse lower (first, args) =
      let name = lower first in
      to_parsed name (
        parse_key_op name args
          (parse_string_op name args (parse_hash_op name args (accept cmd_unknown))))
