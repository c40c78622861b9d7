-- ===== src/Rzset/Updates.antt =====
-- The methods of the sorted set repository that write, in their transactions, keep the tables valid.
use redka.Base.{ℕ, String, List}
use redka.Core.{AnyValue, Float64, Time}
use redka.Schema.{Db}
use redka.Schema.Valid.{IsValid, LeavesValid}
use redka.Sqlx.{TxOutcome}
use redka.Sqlx.Keeps.{exec_tx-Keeps}
use redka.Rzset.Driver.{SetDriver}
use redka.Rzset.Removal.{DeleteCmd}
use redka.Rzset.Combine.{Operation, CombineCmd}
use redka.Rzset.Database.{add, add_many, delete, delete_with, incr, store}
use redka.Rzset.Invariant.{add-Keeps, add_many-Keeps, delete-Keeps, run_delete-Keeps, incr-Keeps}
use redka.Rzset.Stored.{store-Keeps}

-- From valid tables `Add`, `AddMany`, `Delete`, `DeleteWith(…).Run`, `Incr`, `InterWith(…).Store` and
-- `UnionWith(…).Store` leave valid tables, whatever their arguments, their results, the clock and
-- the answers of the driver to the transaction: the indexes stay unique, and every element belongs
-- to a key of the sorted set type.
pub updates-IsValid :
    (d : SetDriver) (o : TxOutcome) (key : String) (elem : AnyValue) (elems : List AnyValue)
    (items : List (AnyValue × Float64)) (x : Float64) (c : DeleteCmd) (op : Operation)
    (c' : CombineCmd) (t t' : Time) (times : ℕ → Time) (db : Db)
    → IsValid db
    → LeavesValid (add d o key elem x t t' db)
      × LeavesValid (add_many d o key items t times db)
      × LeavesValid (delete d o key elems t db)
      × LeavesValid (delete_with d o c t db)
      × LeavesValid (incr d o key elem x t db)
      × LeavesValid (store d o op c' t t' db)
unfolding add add_many delete delete_with incr store
updates-IsValid d o key elem elems items x c op c' t t' times db w = (
  exec_tx-Keeps o _ (add-Keeps d key elem x t t') db w,
  exec_tx-Keeps o _ (add_many-Keeps d key items t times) db w,
  exec_tx-Keeps o _ (delete-Keeps d key elems t) db w,
  exec_tx-Keeps o _ (run_delete-Keeps d c t) db w,
  exec_tx-Keeps o _ (incr-Keeps d key elem x t) db w,
  exec_tx-Keeps o _ (store-Keeps d op c' t t') db w,
)
