-- ===== src/Rhash/Database.antt =====
-- internal/rhash/db.go: the methods of the hash repository outside a transaction. One that writes
-- runs its operation in a transaction of its own.
use redka.Base.{ℕ, ℤ, String, Bool, List}
use redka.Core.{Value, AnyValue, Float64, Result, Time, Driver}
use redka.Schema.{Db}
use redka.Sqlx.{Action, TxOutcome, exec_tx, sure}
use redka.Rhash

module _ (d : Driver) where
  -- `DB.Delete`
  unfoldable pub delete : TxOutcome → String → List String → Time → Action ℕ
  delete o key fields t = exec_tx o (sure (Rhash.delete key fields t))

  -- `DB.Exists`
  unfoldable pub exists : String → String → Time → Db → Bool
  exists key field t db = Rhash.exists key field t db

  -- `DB.Fields`
  unfoldable pub fields : String → Time → Db → List String
  fields key t db = Rhash.fields key t db

  -- `DB.Get`
  unfoldable pub get : String → String → Time → Db → Result Value
  get key field t db = Rhash.get key field t db

  -- `DB.GetMany`
  unfoldable pub get_many : String → List String → Time → Db → List (String × Value)
  get_many key fields t db = Rhash.get_many key fields t db

  -- `DB.Incr`
  unfoldable pub incr : TxOutcome → String → String → ℤ → Time → Time → Action ℤ
  incr o key field delta t t' = exec_tx o (Rhash.incr d key field delta t t')

  -- `DB.IncrFloat`
  unfoldable pub incr_float : TxOutcome → String → String → Float64 → Time → Time → Action Float64
  incr_float o key field delta t t' = exec_tx o (Rhash.incr_float d key field delta t t')

  -- `DB.Items`
  unfoldable pub items : String → Time → Db → List (String × Value)
  items key t db = Rhash.items key t db

  -- `DB.Len`
  unfoldable pub len : String → Time → Db → ℕ
  len key t db = Rhash.len key t db

  -- `DB.Scan`
  unfoldable pub scan : String → ℤ → String → ℤ → Time → Db → Rhash.ScanResult
  scan key cursor pattern n t db = Rhash.scan d key cursor pattern n t db

  -- `DB.Set`
  unfoldable pub set : TxOutcome → String → String → AnyValue → Time → Time → Action Bool
  set o key field v t t' = exec_tx o (Rhash.set d key field v t t')

  -- `DB.SetMany`
  unfoldable pub set_many :
      TxOutcome → String → List (String × AnyValue) → Time → (ℕ → Time) → Action ℕ
  set_many o key items t times = exec_tx o (Rhash.set_many d key items t times)

  -- `DB.SetNotExists`
  unfoldable pub set_not_exists : TxOutcome → String → String → AnyValue → Time → Time → Action Bool
  set_not_exists o key field v t t' = exec_tx o (Rhash.set_not_exists d key field v t t')

  -- `DB.Values`
  unfoldable pub values : String → Time → Db → List Value
  values key t db = Rhash.values key t db
