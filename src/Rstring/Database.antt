-- ===== src/Rstring/Database.antt =====
-- internal/rstring/db.go: the methods of the string repository outside a transaction. One that
-- writes runs its operation in a transaction of its own.
use redka.Base.{ℕ, ℤ, String, Bool, List}
use redka.Core.{Value, AnyValue, Float64, Time, Duration, Driver}
use redka.Schema.{Db}
use redka.Sqlx.{Action, TxOutcome, exec_tx}
use redka.Rstring

module _ (d : Driver) where
  -- `DB.Get`
  unfoldable pub get : String → Time → Db → Value
  get key t db = Rstring.get key t db

  -- `DB.GetMany`
  unfoldable pub get_many : List String → Time → Db → List (String × Value)
  get_many keys t db = Rstring.get_many keys t db

  -- `DB.Set`
  unfoldable pub set : TxOutcome → String → AnyValue → Time → Action Unit
  set o key v t = exec_tx o (Rstring.set d key v t)

  -- `DB.SetExpires`
  unfoldable pub set_expires : TxOutcome → String → AnyValue → Duration → Time → Action Unit
  set_expires o key v ttl t = exec_tx o (Rstring.set_expires d key v ttl t)

  -- `DB.SetNotExists`
  unfoldable pub set_not_exists :
      TxOutcome → String → AnyValue → Duration → Time → Time → Action Bool
  set_not_exists o key v ttl t t' = exec_tx o (Rstring.set_not_exists d key v ttl t t')

  -- `DB.SetExists`
  unfoldable pub set_exists : TxOutcome → String → AnyValue → Duration → Time → Time → Action Bool
  set_exists o key v ttl t t' = exec_tx o (Rstring.set_exists d key v ttl t t')

  -- `DB.GetSet`
  unfoldable pub get_set : TxOutcome → String → AnyValue → Duration → Time → Time → Action Value
  get_set o key v ttl t t' = exec_tx o (Rstring.get_set d key v ttl t t')

  -- `DB.SetMany`
  unfoldable pub set_many : TxOutcome → List (String × AnyValue) → (ℕ → Time) → Action Unit
  set_many o items times = exec_tx o (Rstring.set_many d items times)

  -- `DB.SetManyNX`
  unfoldable pub set_many_nx :
      TxOutcome → List (String × AnyValue) → Time → (ℕ → Time) → Action Bool
  set_many_nx o items t times = exec_tx o (Rstring.set_many_nx d items t times)

  -- `DB.Incr`
  unfoldable pub incr : TxOutcome → String → ℤ → Time → Time → Action ℤ
  incr o key delta t t' = exec_tx o (Rstring.incr d key delta t t')

  -- `DB.IncrFloat`
  unfoldable pub incr_float : TxOutcome → String → Float64 → Time → Time → Action Float64
  incr_float o key delta t t' = exec_tx o (Rstring.incr_float d key delta t t')
