-- ===== src/Rzset/Removal.antt =====
-- internal/rzset/delete.go: deletion of a range of a sorted set.
use redka.Base.{
  drop, ℕ, suc, ℤ, pos, sub_ℕ, wrap, String, Bool, Option, List, ◌==◌, ◌&&◌, any, first, keep,
}
use redka.Core.{Key, Float64, Time, unix_milli}
use redka.Schema.{Db, ZsetRow}
use redka.Sqlx.{limit}
use redka.Rkey.{by_key}
use redka.Rzset.Driver.{SetDriver}
use redka.Rzset.Order.{asc, sort_rows, dir_le}
use redka.Rzset.{in_set, between, delete_rows}
use redka.Rzset.Range.{Filter, unfiltered, by_rank, by_score}

-- `DeleteCmd`, less the handle that it runs with
pub record DeleteCmd : Type 0 where
  pub key : String
  pub filter : Filter

-- `DeleteWith`, `ByRank` and `ByScore`
abbrev pub delete_with : String → DeleteCmd
delete_with key = record { key = key; filter = unfiltered }

abbrev pub with_rank : ℤ → ℤ → DeleteCmd → DeleteCmd
with_rank start stop c = record c { filter = by_rank start stop }

abbrev pub with_score : Float64 → Float64 → DeleteCmd → DeleteCmd
with_score start stop c = record c { filter = by_score start stop }

-- `rowid in (select rowid from ranked)`
abbrev pub has_rowid : List ZsetRow → ZsetRow → Bool
has_rowid rows z = any (λ r. r.rowid == z.rowid) rows

module _ (d : SetDriver) where
  -- the rows that the common table expression `ranked` selects: `limit :count offset :start`, where
  -- the count is the `int` `stop - start + 1`
  abbrev pub ranked_rows : ℕ → ℕ → Option Key → Db → List ZsetRow
  ranked_rows start stop owner db =
      limit (wrap (sub_ℕ (suc stop) start))
        (drop start (sort_rows (dir_le d asc) (keep (in_set owner) db.zsets)))

  -- `deleteRank` and `deleteScore`, after the choice between them
  unfoldable pub delete_in : Filter → Option Key → Db → ℕ × Db
  delete_in unfiltered owner db = (0, db)
  delete_in (by_rank (pos start) (pos stop)) owner db =
      delete_rows (has_rowid (ranked_rows start stop owner db)) db
  delete_in (by_rank _ _) owner db = (0, db)
  delete_in (by_score start stop) owner db =
      delete_rows (λ z. in_set owner z && between d start stop z) db

  -- `DeleteCmd.Run` with a transaction
  unfoldable pub run_delete : DeleteCmd → Time → Db → ℕ × Db
  unfolding delete_in
  run_delete c t db = delete_in c.filter (first (by_key c.key (unix_milli t)) db.keys) db
