-- ===== src/Command/Invariant.antt =====
-- The commands of the server keep the tables valid.
use redka.Base.{ℕ, suc, pos, String, Bool, true, false, List, if◌then◌else◌}
use redka.Core.{
  Result, bytes, ok, err, not_found, key_type, value_type, not_allowed, sql, Time, Value,
}
use redka.Schema.{Db}
use redka.Schema.Valid.{IsValid, LeavesValid}
use redka.Sqlx.{Action}
use redka.Sqlx.Keeps.{Keeps, then-Keeps, pure-Keeps}
use redka.Reply.{Reply}
use redka.Command.{
  Op, Cmd, SetOptions, cmd_ok, cmd_unknown, cmd_flush_db, cmd_random_key, cmd_echo, cmd_del,
  cmd_exists, cmd_m_get, cmd_expire, cmd_expire_at, cmd_keys, cmd_persist, cmd_get, cmd_h_get_all,
  cmd_h_keys, cmd_h_len, cmd_h_vals, cmd_rename, cmd_rename_nx, cmd_get_set, cmd_set_nx,
  cmd_h_exists, cmd_h_get, cmd_scan, cmd_h_scan, cmd_incr, cmd_incr_by_float, cmd_m_set,
  cmd_m_set_nx, cmd_set, cmd_set_ex, cmd_h_del, cmd_h_m_get, cmd_h_incr_by, cmd_h_incr_by_float,
  cmd_h_set, cmd_h_m_set, cmd_h_set_nx,
}
use redka.Command.Respond.{Env, Outcome, respond}
use redka.Command.Run.{run_op, run}
use redka.Command.Run.Keys.{
  run_ok, run_unknown, run_flush_db, run_random_key, run_echo, run_del, run_exists, run_expire,
  run_expire_at, run_keys, run_persist, run_rename, run_rename_nx, run_scan,
}
use redka.Command.Run.Strings.{
  set_op, run_m_get, run_get, run_get_set, run_set_nx, run_incr, run_incr_by_float, run_m_set,
  run_m_set_nx, run_set, run_set_ex,
}
use redka.Command.Run.Hashes.{
  or_missing, run_h_get_all, run_h_keys, run_h_len, run_h_vals, run_h_exists, run_h_get, run_h_scan,
  run_h_del, run_h_m_get, run_h_incr_by, run_h_incr_by_float, run_h_set, run_h_m_set, run_h_set_nx,
}
use redka.Rkey.Invariant as keys
use redka.Rkey.Rename.{rename-IsValid, rename_not_exists-IsValid}
use redka.Rstring.Invariant as strings
use redka.Rhash.Invariant as hashes
use redka.Rhash.Delete.{delete-IsValid}

-- the tables that a run leaves are valid
abbrev pub EndsValid : Outcome → Type 0
EndsValid (out, r, db) = IsValid db

respond-EndsValid :
    {A : Type 0} (name : String) (replies : A → List Reply) (r : Result A × Db)
    → LeavesValid r
    → EndsValid (respond name replies r)
unfolding respond
respond-EndsValid name replies (ok a, db) w = w
respond-EndsValid name replies (err e, db) w = w

missing-EndsValid :
    (name : String) (r : Result Value × Db) → LeavesValid r → EndsValid (or_missing name r)
missing-EndsValid name (ok v, db) w = w
missing-EndsValid name (err not_found, db) w = w
missing-EndsValid name (err key_type, db) w = w
missing-EndsValid name (err value_type, db) w = w
missing-EndsValid name (err not_allowed, db) w = w
missing-EndsValid name (err (sql s), db) w = w

-- Running an operation in the environment keeps the tables valid when the operation does.
abbrev pub UpdateKeeps : Env → Type 1
UpdateKeeps e = (A : Type 0) (m : Action A) → Keeps m → Keeps (e.update m)

if-Keeps : {A : Type 0} (b : Bool) (m k : Action A) → Keeps m → Keeps k → Keeps (if b then m else k)
if-Keeps true m k hm hk = hm
if-Keeps false m k hm hk = hk

module _ (e : Env) (u : UpdateKeeps e) where
  set_op-Keeps :
      (name : String) (clock : ℕ → Time) (db : Db) (key value : String) (o : SetOptions)
      → Keeps (set_op e name clock db key value o)
  unfolding set_op
  set_op-Keeps name clock db key value o =
      if-Keeps o.if_xx _ _
        (u _ _ (strings.set_exists-Keeps e.driver key (bytes value) o.ttl (clock 0) (clock 1)))
        (if-Keeps o.if_nx _ _
          (u _ _
            (strings.set_not_exists-Keeps e.driver key (bytes value) o.ttl (clock 0) (clock 1)))
          (then-Keeps _ _
            (u _ _ (strings.set_expires-Keeps e.driver key (bytes value) o.ttl (clock 0)))
            (pure-Keeps true)))

module _ (e : Env) (u : UpdateKeeps e) (choice : ℕ) (name : String) (clock : ℕ → Time) (db : Db)
    (w : IsValid db) where
  -- the command responds with what an operation returns that keeps the tables valid
  updates :
      {A : Type 0} (replies : A → List Reply) (m : Action A)
      → Keeps m
      → EndsValid (respond name replies (e.update m db))
  updates replies m k = respond-EndsValid name replies _ (u _ m k db w)

  run_op-EndsValid : (op : Op) → EndsValid (run_op e choice name op clock db)
  unfolding run_op run_ok run_unknown run_flush_db run_random_key run_echo run_del run_exists
      run_m_get run_expire run_expire_at run_keys run_persist run_get run_h_get_all run_h_keys
      run_h_len run_h_vals run_rename run_rename_nx run_get_set run_set_nx run_h_exists run_h_get
      run_scan run_h_scan run_incr run_incr_by_float run_m_set run_m_set_nx run_set run_set_ex
      run_h_del run_h_m_get run_h_incr_by run_h_incr_by_float run_h_set run_h_m_set run_h_set_nx
  run_op-EndsValid cmd_ok = w
  run_op-EndsValid cmd_unknown = w
  run_op-EndsValid cmd_flush_db = respond-EndsValid name _ _ (keys.delete_all-IsValid db w)
  run_op-EndsValid cmd_random_key = w
  run_op-EndsValid (cmd_echo a) = w
  run_op-EndsValid (cmd_del a) = updates _ _ (λ d v. keys.delete-IsValid d v a (clock 0))
  run_op-EndsValid (cmd_exists a) = w
  run_op-EndsValid (cmd_m_get a) = w
  run_op-EndsValid (cmd_expire a b) =
      updates _ _ (λ d v. keys.expire-IsValid d v a b (clock 0) (clock 1))
  run_op-EndsValid (cmd_expire_at a b) =
      updates _ _ (λ d v. keys.expire_at-IsValid d v a b (clock 0))
  run_op-EndsValid (cmd_keys a) = w
  run_op-EndsValid (cmd_persist a) = updates _ _ (λ d v. keys.persist-IsValid d v a (clock 0))
  run_op-EndsValid (cmd_get a) = w
  run_op-EndsValid (cmd_h_get_all a) = w
  run_op-EndsValid (cmd_h_keys a) = w
  run_op-EndsValid (cmd_h_len a) = w
  run_op-EndsValid (cmd_h_vals a) = w
  run_op-EndsValid (cmd_rename a b) =
      updates _ _ (λ d v. rename-IsValid a b (clock 0) (clock 1) (clock 2) d v)
  run_op-EndsValid (cmd_rename_nx a b) =
      updates _ _ (λ d v. rename_not_exists-IsValid a b (clock 0) (clock 1) (clock 2) d v)
  run_op-EndsValid (cmd_get_set a b) =
      updates _ _ (strings.get_set-Keeps e.driver a (bytes b) (pos 0) (clock 0) (clock 1))
  run_op-EndsValid (cmd_set_nx a b) =
      updates _ _ (strings.set_not_exists-Keeps e.driver a (bytes b) (pos 0) (clock 0) (clock 1))
  run_op-EndsValid (cmd_h_exists a b) = w
  run_op-EndsValid (cmd_h_get a b) = missing-EndsValid name _ w
  run_op-EndsValid (cmd_scan a) = w
  run_op-EndsValid (cmd_h_scan a b) = w
  run_op-EndsValid (cmd_incr a b) =
      updates _ _ (strings.incr-Keeps e.driver a b (clock 0) (clock 1))
  run_op-EndsValid (cmd_incr_by_float a b) =
      updates _ _ (strings.incr_float-Keeps e.driver a b (clock 0) (clock 1))
  run_op-EndsValid (cmd_m_set a) = updates _ _ (strings.set_many-Keeps e.driver (e.order a) clock)
  run_op-EndsValid (cmd_m_set_nx a) =
      updates _ _ (strings.set_many_nx-Keeps e.driver (e.order a) (clock 0) (λ i. clock (suc i)))
  run_op-EndsValid (cmd_set a b c) =
      respond-EndsValid name _ _ (set_op-Keeps e u name clock db a b c db w)
  run_op-EndsValid (cmd_set_ex a b c) =
      updates _ _ (strings.set_expires-Keeps e.driver a (bytes c) b (clock 0))
  run_op-EndsValid (cmd_h_del a b) = updates _ _ (λ d v. delete-IsValid a b (clock 0) d v)
  run_op-EndsValid (cmd_h_m_get a b) = w
  run_op-EndsValid (cmd_h_incr_by a b c) =
      updates _ _ (hashes.incr-Keeps e.driver a b c (clock 0) (clock 1))
  run_op-EndsValid (cmd_h_incr_by_float a b c) =
      updates _ _ (hashes.incr_float-Keeps e.driver a b c (clock 0) (clock 1))
  run_op-EndsValid (cmd_h_set a b) =
      updates _ _ (hashes.set_many-Keeps e.driver a (e.order b) (clock 0) (λ i. clock (suc i)))
  run_op-EndsValid (cmd_h_m_set a b) =
      updates _ _ (hashes.set_many-Keeps e.driver a (e.order b) (clock 0) (λ i. clock (suc i)))
  run_op-EndsValid (cmd_h_set_nx a b c) =
      updates _ _ (hashes.set_not_exists-Keeps e.driver a b (bytes c) (clock 0) (clock 1))

-- Every command keeps the tables valid, in an environment whose updates do.
pub run-EndsValid :
    (e : Env) (choice : ℕ) (cmd : Cmd) (clock : ℕ → Time) (db : Db)
    → UpdateKeeps e
    → IsValid db
    → EndsValid (run e choice cmd clock db)
unfolding run
run-EndsValid e choice cmd clock db u w = run_op-EndsValid e u choice cmd.name clock db w cmd.op
