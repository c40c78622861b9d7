-- ===== src/Command/Run/Keys.antt =====
-- `Run` of the commands on keys, and of those without data.
use Prim.Native.String.{◌++◌ as append}
use redka.Base.{ℕ, pos, String, none, some, List, [], ◌∷◌, length, if◌then◌else◌}
use redka.Core.{Key, ok, err, sql, Time, Duration, key_exists}
use redka.Sqlx.{sure}
use redka.Schema.{Db}
use redka.Reply.{error_reply, string_reply, bulk, any_reply, int_reply, array, null}
use redka.Command.{ScanOptions, domain_error}
use redka.Command.Respond.{Env, Outcome, respond, int_of_bool, int_of_ℕ, ok_reply, bulks}
use redka.Rkey

-- `strings.Join(parts, " ")`
unfoldable pub joined : List String → String
joined [] = ""
joined (p ∷ []) = p
joined (p ∷ q ∷ ps) = append p (append " " (joined (q ∷ ps)))

module _ (e : Env) (name : String) (clock : ℕ → Time) (db : Db) where
  unfoldable pub run_ok : Outcome
  run_ok = (string_reply "OK" ∷ [], ok tt, db)

  unfoldable pub run_unknown : Outcome
  run_unknown = (
    error_reply (domain_error name (sql "ERR unknown command")) ∷ [],
    err (sql "ERR unknown command"),
    db,
  )

  unfoldable pub run_echo : List String → Outcome
  run_echo parts = (any_reply (joined parts) ∷ [], ok tt, db)

  -- The rows are deleted before `vacuum` runs, which SQLite refuses inside a transaction.
  unfoldable pub run_flush_db : Outcome
  run_flush_db =
      respond name ok_reply (elim e.vacuum [ none ↦ ok tt | some x ↦ err x ], Rkey.delete_all db)

  unfoldable pub run_del : List String → Outcome
  run_del keys = respond name int_of_ℕ (e.update (sure (Rkey.delete keys (clock 0))) db)

  unfoldable pub run_exists : List String → Outcome
  run_exists keys = (int_reply (pos (Rkey.count keys (clock 0) db)) ∷ [], ok tt, db)

  unfoldable pub run_expire : String → Duration → Outcome
  run_expire key ttl =
      respond name int_of_bool (e.update (sure (Rkey.expire key ttl (clock 0) (clock 1))) db)

  unfoldable pub run_expire_at : String → Time → Outcome
  run_expire_at key at =
      respond name int_of_bool (e.update (sure (Rkey.expire_at key at (clock 0))) db)

  unfoldable pub run_persist : String → Outcome
  run_persist key = respond name int_of_bool (e.update (sure (Rkey.persist key (clock 0))) db)

  unfoldable pub run_rename : String → String → Outcome
  run_rename key new_key =
      respond name ok_reply (e.update (Rkey.rename key new_key (clock 0) (clock 1) (clock 2)) db)

  unfoldable pub run_rename_nx : String → String → Outcome
  run_rename_nx key new_key =
      respond name int_of_bool
        (e.update (Rkey.rename_not_exists key new_key (clock 0) (clock 1) (clock 2)) db)

  unfoldable pub run_keys : String → Outcome
  run_keys pattern =
      let found = Rkey.keys e.driver pattern (clock 0) db in
      (array (length found) ∷ bulks (λ (k : Key). k.key) found, ok tt, db)

  unfoldable pub run_scan : ScanOptions → Outcome
  run_scan o =
      let res = Rkey.scan e.driver o.cursor o.match_ o.count (clock 0) db in
      (
        array 2
            ∷ int_reply (pos res.cursor)
            ∷ array (length res.keys)
            ∷ bulks (λ (k : Key). k.key) res.keys,
        ok tt,
        db,
      )

  -- `choice` is what `order by random()` draws
  unfoldable pub run_random_key : ℕ → Outcome
  run_random_key choice =
      let k = Rkey.random choice (clock 0) db in
      ((if key_exists k then bulk k.key else null) ∷ [], ok tt, db)
