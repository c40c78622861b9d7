-- ===== src/Command/Parse.antt =====
-- The parse functions of the commands.
use redka.Base.{
  ℤ, pos, ◌*ℤ◌, wrap, ltb_ℤ, String, true, false, none, some, List, [], ◌∷◌, str_eq, if◌then◌else◌,
}
use redka.Core.{Duration, Driver}
use redka.Command.{
  invalid_arg_num, invalid_expire_time, invalid_float, invalid_int, syntax_error, SetOptions, Op,
  cmd_flush_db, cmd_random_key, cmd_echo, cmd_del, cmd_exists, cmd_m_get, cmd_expire, cmd_expire_at,
  cmd_keys, cmd_persist, cmd_get, cmd_h_get_all, cmd_h_keys, cmd_h_len, cmd_h_vals, cmd_rename,
  cmd_rename_nx, cmd_get_set, cmd_set_nx, cmd_h_exists, cmd_h_get, cmd_scan, cmd_h_scan, cmd_incr,
  cmd_incr_by_float, cmd_m_set, cmd_m_set_nx, cmd_set, cmd_set_ex, cmd_h_del, cmd_h_m_get,
  cmd_h_incr_by, cmd_h_incr_by_float, cmd_h_set, cmd_h_m_set, cmd_h_set_nx,
}
use redka.Command.Arguments.{
  Parsing, accept, reject, then_parse, integer, milliseconds, millisecond, second, parse_none,
  parse_some, parse_one, parse_two, parse_pairs, parse_key_pairs, parse_fields, parse_cursor,
}

-- `parseExpire`, `parseExpireAt`
unfoldable pub parse_expire : ℤ → List String → Parsing Op
parse_expire unit (key ∷ n ∷ []) =
    then_parse (integer invalid_int n) (λ ttl. accept (cmd_expire key (milliseconds unit ttl)))
parse_expire unit _ = reject invalid_arg_num

-- `time.UnixMilli` of the product
unfoldable pub parse_expire_at : ℤ → List String → Parsing Op
parse_expire_at unit (key ∷ n ∷ []) =
    then_parse (integer invalid_int n)
      (λ at. accept (cmd_expire_at key (wrap (unit *ℤ at) *ℤ millisecond)))
parse_expire_at unit _ = reject invalid_arg_num

-- `parseSetEX`
unfoldable pub parse_set_ex : ℤ → List String → Parsing Op
parse_set_ex unit (key ∷ n ∷ value ∷ []) =
    then_parse (integer invalid_int n)
      (λ ttl. accept (cmd_set_ex key (milliseconds unit ttl) value))
parse_set_ex unit _ = reject invalid_arg_num

-- `parseIncr`, `parseIncrBy`
unfoldable pub parse_incr : ℤ → List String → Parsing Op
parse_incr sign (key ∷ []) = accept (cmd_incr key sign)
parse_incr sign _ = reject invalid_arg_num

unfoldable pub parse_incr_by : ℤ → List String → Parsing Op
parse_incr_by sign (key ∷ n ∷ []) =
    then_parse (integer invalid_int n) λ delta. accept (cmd_incr key (wrap (delta *ℤ sign)))
parse_incr_by sign _ = reject invalid_arg_num

-- the local `parseExists` of `parseSet`
unfoldable pub parse_set_exists : SetOptions → String → Parsing SetOptions
parse_set_exists o value =
    if str_eq value "nx"
    then accept (record o { if_nx = true })
    else if str_eq value "xx"
    then accept (record o { if_xx = true })
    else reject syntax_error

-- the ttl has to be positive
abbrev positive_ttl : SetOptions → Duration → Parsing SetOptions
positive_ttl o ttl =
    if ltb_ℤ (pos 0) ttl then accept (record o { ttl = ttl }) else reject invalid_expire_time

-- the local `parseExpires`
unfoldable pub parse_set_expires : SetOptions → String → String → Parsing SetOptions
parse_set_expires o unit value = then_parse (integer invalid_int value) λ n.
    if str_eq unit "ex"
    then positive_ttl o (wrap (n *ℤ second))
    else if str_eq unit "px"
    then positive_ttl o (wrap (n *ℤ millisecond))
    else reject syntax_error

abbrev pub no_options : SetOptions
no_options = record { if_nx = false; if_xx = false; ttl = pos 0 }

-- `parseSet`
unfoldable pub parse_set : List String → Parsing Op
parse_set (key ∷ value ∷ []) = accept (cmd_set key value no_options)
parse_set (key ∷ value ∷ cond ∷ []) =
    then_parse (parse_set_exists no_options cond) λ o. accept (cmd_set key value o)
parse_set (key ∷ value ∷ unit ∷ n ∷ []) =
    then_parse (parse_set_expires no_options unit n) λ o. accept (cmd_set key value o)
parse_set (key ∷ value ∷ cond ∷ unit ∷ n ∷ []) =
    then_parse (parse_set_exists no_options cond)
      λ o. then_parse (parse_set_expires o unit n) λ o'. accept (cmd_set key value o')
parse_set _ = reject invalid_arg_num

unfoldable pub parse_h_set_nx : List String → Parsing Op
parse_h_set_nx (key ∷ field ∷ value ∷ []) = accept (cmd_h_set_nx key field value)
parse_h_set_nx _ = reject invalid_arg_num

unfoldable pub parse_h_incr_by : List String → Parsing Op
parse_h_incr_by (key ∷ field ∷ n ∷ []) =
    then_parse (integer invalid_int n) λ delta. accept (cmd_h_incr_by key field delta)
parse_h_incr_by _ = reject invalid_arg_num

-- the commands whose arguments are checked for their number and taken as they are
abbrev pub parse_random_key : List String → Parsing Op
parse_random_key = parse_none cmd_random_key invalid_arg_num

abbrev pub parse_flush_db : List String → Parsing Op
parse_flush_db = parse_none cmd_flush_db syntax_error

abbrev pub parse_echo : List String → Parsing Op
parse_echo = parse_some cmd_echo

abbrev pub parse_del : List String → Parsing Op
parse_del = parse_some cmd_del

abbrev pub parse_exists : List String → Parsing Op
parse_exists = parse_some cmd_exists

abbrev pub parse_m_get : List String → Parsing Op
parse_m_get = parse_some cmd_m_get

abbrev pub parse_keys : List String → Parsing Op
parse_keys = parse_one cmd_keys

abbrev pub parse_persist : List String → Parsing Op
parse_persist = parse_one cmd_persist

abbrev pub parse_get : List String → Parsing Op
parse_get = parse_one cmd_get

abbrev pub parse_h_get_all : List String → Parsing Op
parse_h_get_all = parse_one cmd_h_get_all

abbrev pub parse_h_keys : List String → Parsing Op
parse_h_keys = parse_one cmd_h_keys

abbrev pub parse_h_len : List String → Parsing Op
parse_h_len = parse_one cmd_h_len

abbrev pub parse_h_vals : List String → Parsing Op
parse_h_vals = parse_one cmd_h_vals

abbrev pub parse_rename : List String → Parsing Op
parse_rename = parse_two cmd_rename

abbrev pub parse_rename_nx : List String → Parsing Op
parse_rename_nx = parse_two cmd_rename_nx

abbrev pub parse_get_set : List String → Parsing Op
parse_get_set = parse_two cmd_get_set

abbrev pub parse_set_nx : List String → Parsing Op
parse_set_nx = parse_two cmd_set_nx

abbrev pub parse_h_exists : List String → Parsing Op
parse_h_exists = parse_two cmd_h_exists

abbrev pub parse_h_get : List String → Parsing Op
parse_h_get = parse_two cmd_h_get

abbrev pub parse_m_set : List String → Parsing Op
parse_m_set = parse_pairs cmd_m_set

abbrev pub parse_m_set_nx : List String → Parsing Op
parse_m_set_nx = parse_pairs cmd_m_set_nx

abbrev pub parse_h_set : List String → Parsing Op
parse_h_set = parse_key_pairs cmd_h_set

abbrev pub parse_h_m_set : List String → Parsing Op
parse_h_m_set = parse_key_pairs cmd_h_m_set

abbrev pub parse_h_del : List String → Parsing Op
parse_h_del = parse_fields cmd_h_del

abbrev pub parse_h_m_get : List String → Parsing Op
parse_h_m_get = parse_fields cmd_h_m_get

abbrev pub parse_scan : List String → Parsing Op
parse_scan = parse_cursor cmd_scan

-- `parseHScan`
unfoldable pub parse_h_scan : List String → Parsing Op
unfolding parse_cursor
parse_h_scan (key ∷ c ∷ rest) = parse_cursor (cmd_h_scan key) (c ∷ rest)
parse_h_scan _ = reject invalid_arg_num

module _ (d : Driver) where
  -- `strconv.ParseFloat`, with the command's error
  unfoldable pub parse_incr_by_float : List String → Parsing Op
  parse_incr_by_float (key ∷ x ∷ []) = elim (d.parse_float x) [
    | none ↦ reject invalid_float
    | some delta ↦ accept (cmd_incr_by_float key delta)
  ]
  parse_incr_by_float _ = reject invalid_arg_num

  unfoldable pub parse_h_incr_by_float : List String → Parsing Op
  parse_h_incr_by_float (key ∷ field ∷ x ∷ []) = elim (d.parse_float x) [
    | none ↦ reject invalid_float
    | some delta ↦ accept (cmd_h_incr_by_float key field delta)
  ]
  parse_h_incr_by_float _ = reject invalid_arg_num
