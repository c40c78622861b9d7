-- ===== src/Command/Run.antt =====
-- `Run` of every command.
pub mod Keys
pub mod Strings
pub mod Hashes
use redka.Base.{ℕ, String, List}
use redka.Core.{Time}
use redka.Schema.{Db}
use redka.Command.{
  Op, Cmd, cmd_ok, cmd_unknown, cmd_flush_db, cmd_random_key, cmd_echo, cmd_del, cmd_exists,
  cmd_m_get, cmd_expire, cmd_expire_at, cmd_keys, cmd_persist, cmd_get, cmd_h_get_all, cmd_h_keys,
  cmd_h_len, cmd_h_vals, cmd_rename, cmd_rename_nx, cmd_get_set, cmd_set_nx, cmd_h_exists,
  cmd_h_get, cmd_scan, cmd_h_scan, cmd_incr, cmd_incr_by_float, cmd_m_set, cmd_m_set_nx, cmd_set,
  cmd_set_ex, cmd_h_del, cmd_h_m_get, cmd_h_incr_by, cmd_h_incr_by_float, cmd_h_set, cmd_h_m_set,
  cmd_h_set_nx,
}
use redka.Command.Respond.{Env, Outcome}
use redka.Command.Run.Keys.{
  run_ok, run_unknown, run_flush_db, run_random_key, run_echo, run_del, run_exists, run_expire,
  run_expire_at, run_keys, run_persist, run_rename, run_rename_nx, run_scan,
}
use redka.Command.Run.Strings.{
  run_m_get, run_get, run_get_set, run_set_nx, run_incr, run_incr_by_float, run_m_set, run_m_set_nx,
  run_set, run_set_ex,
}
use redka.Command.Run.Hashes.{
  run_h_get_all, run_h_keys, run_h_len, run_h_vals, run_h_exists, run_h_get, run_h_scan, run_h_del,
  run_h_m_get, run_h_incr_by, run_h_incr_by_float, run_h_set, run_h_m_set, run_h_set_nx,
}

-- The dispatch on the dynamic type of the command; `choice` is what RANDOMKEY draws.
unfoldable pub run_op : Env → ℕ → String → Op → (ℕ → Time) → Db → Outcome
run_op e choice name cmd_ok clock db = run_ok e name clock db
run_op e choice name cmd_unknown clock db = run_unknown e name clock db
run_op e choice name cmd_flush_db clock db = run_flush_db e name clock db
run_op e choice name cmd_random_key clock db = run_random_key e name clock db choice
run_op e choice name (cmd_echo a) clock db = run_echo e name clock db a
run_op e choice name (cmd_del a) clock db = run_del e name clock db a
run_op e choice name (cmd_exists a) clock db = run_exists e name clock db a
run_op e choice name (cmd_m_get a) clock db = run_m_get e name clock db a
run_op e choice name (cmd_expire a b) clock db = run_expire e name clock db a b
run_op e choice name (cmd_expire_at a b) clock db = run_expire_at e name clock db a b
run_op e choice name (cmd_keys a) clock db = run_keys e name clock db a
run_op e choice name (cmd_persist a) clock db = run_persist e name clock db a
run_op e choice name (cmd_get a) clock db = run_get e name clock db a
run_op e choice name (cmd_h_get_all a) clock db = run_h_get_all e name clock db a
run_op e choice name (cmd_h_keys a) clock db = run_h_keys e name clock db a
run_op e choice name (cmd_h_len a) clock db = run_h_len e name clock db a
run_op e choice name (cmd_h_vals a) clock db = run_h_vals e name clock db a
run_op e choice name (cmd_rename a b) clock db = run_rename e name clock db a b
run_op e choice name (cmd_rename_nx a b) clock db = run_rename_nx e name clock db a b
run_op e choice name (cmd_get_set a b) clock db = run_get_set e name clock db a b
run_op e choice name (cmd_set_nx a b) clock db = run_set_nx e name clock db a b
run_op e choice name (cmd_h_exists a b) clock db = run_h_exists e name clock db a b
run_op e choice name (cmd_h_get a b) clock db = run_h_get e name clock db a b
run_op e choice name (cmd_scan a) clock db = run_scan e name clock db a
run_op e choice name (cmd_h_scan a b) clock db = run_h_scan e name clock db a b
run_op e choice name (cmd_incr a b) clock db = run_incr e name clock db a b
run_op e choice name (cmd_incr_by_float a b) clock db = run_incr_by_float e name clock db a b
run_op e choice name (cmd_m_set a) clock db = run_m_set e name clock db a
run_op e choice name (cmd_m_set_nx a) clock db = run_m_set_nx e name clock db a
run_op e choice name (cmd_set a b c) clock db = run_set e name clock db a b c
run_op e choice name (cmd_set_ex a b c) clock db = run_set_ex e name clock db a b c
run_op e choice name (cmd_h_del a b) clock db = run_h_del e name clock db a b
run_op e choice name (cmd_h_m_get a b) clock db = run_h_m_get e name clock db a b
run_op e choice name (cmd_h_incr_by a b c) clock db = run_h_incr_by e name clock db a b c
run_op e choice name (cmd_h_incr_by_float a b c) clock db =
    run_h_incr_by_float e name clock db a b c
run_op e choice name (cmd_h_set a b) clock db = run_h_set e name clock db a b
run_op e choice name (cmd_h_m_set a b) clock db = run_h_m_set e name clock db a b
run_op e choice name (cmd_h_set_nx a b c) clock db = run_h_set_nx e name clock db a b c

unfoldable pub run : Env → ℕ → Cmd → (ℕ → Time) → Db → Outcome
unfolding run_op
run e choice cmd clock db = run_op e choice cmd.name cmd.op clock db
