-- ===== src/Rzset/Database.antt =====
-- internal/rzset/db.go, and the handles of the commands: the methods of the sorted set repository
-- outside a transaction. One that writes runs its operation in a transaction of its own.
use redka.Base.{ℕ, ℤ, String, Bool, List}
use redka.Core.{AnyValue, Float64, Result, Time}
use redka.Schema.{Db}
use redka.Sqlx.{Action, TxOutcome, exec_tx, sure}
use redka.Rzset
use redka.Rzset.{SetItem}
use redka.Rzset.Driver.{SetDriver}
use redka.Rzset.Range as ranges
use redka.Rzset.Removal as removal
use redka.Rzset.Combine as combine
use redka.Rzset.Combine.{inter, union, combine_with}

module _ (d : SetDriver) where
  -- `DB.Add`
  unfoldable pub add : TxOutcome → String → AnyValue → Float64 → Time → Time → Action Bool
  add o key elem score t t' = exec_tx o (Rzset.add d key elem score t t')

  -- `DB.AddMany`
  unfoldable pub add_many :
      TxOutcome → String → List (AnyValue × Float64) → Time → (ℕ → Time) → Action ℕ
  add_many o key items t times = exec_tx o (Rzset.add_many d key items t times)

  -- `DB.Count`
  unfoldable pub count : String → Float64 → Float64 → Time → Db → ℕ
  count key lo hi t db = Rzset.count_score d key lo hi t db

  -- `DB.Delete`
  unfoldable pub delete : TxOutcome → String → List AnyValue → Time → Action ℕ
  delete o key elems t = exec_tx o (sure (Rzset.delete d key elems t))

  -- `DB.DeleteWith`
  unfoldable pub delete_with : TxOutcome → removal.DeleteCmd → Time → Action ℕ
  delete_with o c t = exec_tx o (sure (removal.run_delete d c t))

  -- `DB.GetRank`
  unfoldable pub get_rank : String → AnyValue → Time → Db → Result (ℕ × Float64)
  get_rank key elem t db = Rzset.get_rank d key elem t db

  -- `DB.GetRankRev`
  unfoldable pub get_rank_rev : String → AnyValue → Time → Db → Result (ℕ × Float64)
  get_rank_rev key elem t db = Rzset.get_rank_rev d key elem t db

  -- `DB.GetScore`
  unfoldable pub get_score : String → AnyValue → Time → Db → Result Float64
  get_score key elem t db = Rzset.get_score d key elem t db

  -- `DB.Incr`
  unfoldable pub incr : TxOutcome → String → AnyValue → Float64 → Time → Action Float64
  incr o key elem delta t = exec_tx o (Rzset.incr d key elem delta t)

  -- `DB.Inter`
  unfoldable pub run_inter : List String → Time → Db → Result (List SetItem)
  run_inter keys t db = combine.run_combine d inter (combine_with keys) t db

  -- `DB.Len`
  unfoldable pub len : String → Time → Db → ℕ
  len key t db = Rzset.len key t db

  -- `DB.Range`
  unfoldable pub range : String → ℤ → ℤ → Time → Db → List SetItem
  range key start stop t db = ranges.range d key start stop t db

  -- `DB.Scan`
  unfoldable pub scan : String → ℤ → String → ℤ → Time → Db → Rzset.ScanResult
  scan key cursor pattern n t db = Rzset.scan d key cursor pattern n t db

  -- `DB.Union`
  unfoldable pub run_union : List String → Time → Db → Result (List SetItem)
  run_union keys t db = combine.run_combine d union (combine_with keys) t db

  -- `DB.InterWith`
  unfoldable pub store : TxOutcome → combine.Operation → combine.CombineCmd → Time → Time → Action ℕ
  store o op c t t' = exec_tx o (combine.store d op c t t')
