-- ===== src/Command/Run/Hashes.antt =====
-- `Run` of the commands on hashes.
use redka.Base.{ℕ, suc, ◌*◌, ℤ, pos, String, List, [], ◌∷◌, length}
use redka.Core.{not_found, Result, ok, err, Time, Value, AnyValue, bytes, Float64}
use redka.Sqlx.{sure}
use redka.Schema.{Db}
use redka.Reply.{error_reply, bulk, int_reply, array, null}
use redka.Command.{ScanOptions, domain_error}
use redka.Command.Respond.{
  Env, Outcome, respond, int_of_bool, int_of_ℕ, int_of_ℤ, ok_reply, bulks, picked, pairs,
}
use redka.Rhash
use redka.Rhash.{item}
use mathlib.Core.List.{map}

-- no field is null, and no error
abbrev pub or_missing : String → Result Value × Db → Outcome
or_missing name (ok v, db) = (bulk v ∷ [], ok tt, db)
or_missing name (err not_found, db) = (null ∷ [], ok tt, db)
or_missing name (err e, db) = (error_reply (domain_error name e) ∷ [], err e, db)

module _ (e : Env) (name : String) (clock : ℕ → Time) (db : Db) where
  unfoldable pub run_h_get : String → String → Outcome
  run_h_get key field = or_missing name (Rhash.get key field (clock 0) db, db)

  unfoldable pub run_h_exists : String → String → Outcome
  run_h_exists key field = (int_of_bool (Rhash.exists key field (clock 0) db), ok tt, db)

  unfoldable pub run_h_len : String → Outcome
  run_h_len key = (int_of_ℕ (Rhash.len key (clock 0) db), ok tt, db)

  unfoldable pub run_h_keys : String → Outcome
  run_h_keys key =
      let found = Rhash.fields key (clock 0) db in
      (array (length found) ∷ bulks (λ f. f) found, ok tt, db)

  unfoldable pub run_h_vals : String → Outcome
  run_h_vals key =
      let found = Rhash.values key (clock 0) db in
      (array (length found) ∷ bulks (λ v. v) found, ok tt, db)

  unfoldable pub run_h_get_all : String → Outcome
  run_h_get_all key =
      let items = e.order (Rhash.items key (clock 0) db) in
      (array (length items * 2) ∷ pairs items, ok tt, db)

  unfoldable pub run_h_m_get : String → List String → Outcome
  run_h_m_get key fields =
      (array (length fields) ∷ picked fields (Rhash.get_many key fields (clock 0) db), ok tt, db)

  unfoldable pub run_h_scan : String → ScanOptions → Outcome
  run_h_scan key o =
      let res = Rhash.scan e.driver key o.cursor o.match_ o.count (clock 0) db in
      (
        array 2
            ∷ int_reply (pos res.cursor)
            ∷ array (length res.items * 2)
            ∷ pairs (map item res.items),
        ok tt,
        db,
      )

  unfoldable pub run_h_del : String → List String → Outcome
  run_h_del key fields =
      respond name int_of_ℕ (e.update (sure (Rhash.delete key fields (clock 0))) db)

  unfoldable pub run_h_incr_by : String → String → ℤ → Outcome
  run_h_incr_by key field delta =
      respond name int_of_ℤ (e.update (Rhash.incr e.driver key field delta (clock 0) (clock 1)) db)

  unfoldable pub run_h_incr_by_float : String → String → Float64 → Outcome
  run_h_incr_by_float key field delta =
      respond name (λ x. bulk (e.driver.format_float x) ∷ [])
        (e.update (Rhash.incr_float e.driver key field delta (clock 0) (clock 1)) db)

  unfoldable pub run_h_set : String → List (String × AnyValue) → Outcome
  run_h_set key items =
      respond name int_of_ℕ
        (e.update (Rhash.set_many e.driver key (e.order items) (clock 0) (λ i. clock (suc i))) db)

  unfoldable pub run_h_m_set : String → List (String × AnyValue) → Outcome
  run_h_m_set key items =
      respond name ok_reply
        (e.update (Rhash.set_many e.driver key (e.order items) (clock 0) (λ i. clock (suc i))) db)

  unfoldable pub run_h_set_nx : String → String → String → Outcome
  run_h_set_nx key field value =
      respond name int_of_bool
        (e.update (Rhash.set_not_exists e.driver key field (bytes value) (clock 0) (clock 1)) db)
