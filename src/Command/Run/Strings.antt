-- ===== src/Command/Run/Strings.antt =====
-- `Run` of the commands on strings. A read takes the tables as they are; a write runs as the
-- environment says.
use redka.Base.{ℕ, suc, ℤ, pos, String, Bool, true, List, [], ◌∷◌, length, if◌then◌else◌}
use redka.Core.{ok, Time, Duration, AnyValue, bytes, Float64}
use redka.Schema.{Db}
use redka.Sqlx.{Action, pure, ◌>>◌}
use redka.Reply.{Reply, string_reply, bulk, array, null}
use redka.Command.{SetOptions}
use redka.Command.Respond.{
  Env, Outcome, respond, int_of_bool, int_of_ℤ, ok_reply, or_null, value_reply, picked,
}
use redka.Rstring

-- the answer of `Set.run`
abbrev pub ok_or_null : Bool → List Reply
ok_or_null b = (if b then string_reply "OK" else null) ∷ []

module _ (e : Env) (name : String) (clock : ℕ → Time) (db : Db) where
  unfoldable pub run_get : String → Outcome
  run_get key = (value_reply (Rstring.get key (clock 0) db) ∷ [], ok tt, db)

  unfoldable pub run_m_get : List String → Outcome
  run_m_get keys =
      (array (length keys) ∷ picked keys (Rstring.get_many keys (clock 0) db), ok tt, db)

  -- `SetExists`, `SetNotExists` or `SetExpires`, as the options say
  unfoldable pub set_op : String → String → SetOptions → Action Bool
  set_op key value o =
      if o.if_xx
      then e.update (Rstring.set_exists e.driver key (bytes value) o.ttl (clock 0) (clock 1))
      else if o.if_nx
      then e.update (Rstring.set_not_exists e.driver key (bytes value) o.ttl (clock 0) (clock 1))
      else e.update (Rstring.set_expires e.driver key (bytes value) o.ttl (clock 0)) >> pure true

  unfoldable pub run_set : String → String → SetOptions → Outcome
  unfolding set_op
  run_set key value o = respond name ok_or_null (set_op key value o db)

  unfoldable pub run_set_ex : String → Duration → String → Outcome
  run_set_ex key ttl value =
      respond name ok_reply
        (e.update (Rstring.set_expires e.driver key (bytes value) ttl (clock 0)) db)

  unfoldable pub run_set_nx : String → String → Outcome
  run_set_nx key value =
      respond name int_of_bool (
        e.update (Rstring.set_not_exists e.driver key (bytes value) (pos 0) (clock 0) (clock 1)) db)

  unfoldable pub run_get_set : String → String → Outcome
  run_get_set key value =
      respond name or_null
        (e.update (Rstring.get_set e.driver key (bytes value) (pos 0) (clock 0) (clock 1)) db)

  -- `Incr` and `IncrBy`
  unfoldable pub run_incr : String → ℤ → Outcome
  run_incr key delta =
      respond name int_of_ℤ (e.update (Rstring.incr e.driver key delta (clock 0) (clock 1)) db)

  unfoldable pub run_incr_by_float : String → Float64 → Outcome
  run_incr_by_float key delta =
      respond name (λ x. bulk (e.driver.format_float x) ∷ [])
        (e.update (Rstring.incr_float e.driver key delta (clock 0) (clock 1)) db)

  unfoldable pub run_m_set : List (String × AnyValue) → Outcome
  run_m_set items =
      respond name ok_reply (e.update (Rstring.set_many e.driver (e.order items) clock) db)

  unfoldable pub run_m_set_nx : List (String × AnyValue) → Outcome
  run_m_set_nx items =
      respond name int_of_bool
        (e.update (Rstring.set_many_nx e.driver (e.order items) (clock 0) (λ i. clock (suc i))) db)
