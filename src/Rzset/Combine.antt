-- ===== src/Rzset/Combine.antt =====
-- internal/rzset/inter.go and union.go: the intersection and the union of sorted sets.
use redka.Base.{
  ℕ, suc, ℤ, String, Bool, true, Option, none, some, List, [], ◌∷◌, ◌++◌, ◌==◌, str_eq, map, any,
  keep, length, if◌then◌else◌,
}
use mathlib.Core.Option
use redka.Core.{sql, Result, ok, err, Time, unix_milli, type_sorted_set}
use redka.Schema.{Db, ZsetRow, find_key, next_id, removes}
use redka.Sqlx.{Action, ◌>>◌, exec, typed}
use redka.Rkey.{among, is_in, delete_type}
use redka.Rzset.Driver.{SetDriver, Aggregate, sum}
use redka.Rzset.Order.{asc, sort_rows, dir_le}
use redka.Rzset.{SetItem, scan_item, set_key, max_rowid}

-- `InterCmd` and `UnionCmd`
pub data Operation : Type 0 where
  inter union : Operation

-- either command, less the handle that it runs with
pub record CombineCmd : Type 0 where
  pub dest : String
  pub keys : List String
  pub aggregate : Aggregate

-- `Inter`, `InterWith`, `Union` and `UnionWith`
abbrev pub combine_with : List String → CombineCmd
combine_with keys = record { dest = ""; keys = keys; aggregate = sum }

-- `Dest`, `Sum`, `Min` and `Max`
abbrev pub with_dest : String → CombineCmd → CombineCmd
with_dest dest c = record c { dest = dest }

abbrev pub with_aggregate : Aggregate → CombineCmd → CombineCmd
with_aggregate a c = record c { aggregate = a }

-- `join rkey on key_id = rkey.id and (etime is null or etime > :now) where key in (:keys)`
abbrev pub sources : List String → ℤ → Db → List ZsetRow
sources keys now db = keep (λ z. removes (among keys now) db.keys z.key_id) db.zsets

-- the rows of one element
abbrev pub of_elem : String → List ZsetRow → List ZsetRow
of_elem e rows = keep (λ z. str_eq z.elem e) rows

-- the elements of the rows, each of them once: `group by elem`
unfoldable pub elems_of : List ZsetRow → List String
elems_of [] = []
elems_of (z ∷ zs) = let rest = elems_of zs in if is_in rest z.elem then rest else z.elem ∷ rest

-- `count(distinct key_id)`
unfoldable pub distinct_keys : List ZsetRow → List ℕ
distinct_keys [] = []
distinct_keys (z ∷ zs) =
    let rest = distinct_keys zs in if any (λ i. i == z.key_id) rest then rest else z.key_id ∷ rest

-- `having count(distinct key_id) = :nkeys`, which only the intersection has
unfoldable pub having : Operation → ℕ → List ZsetRow → Bool
unfolding distinct_keys
having inter n rows = length (distinct_keys rows) == n
having union n rows = true

-- the elements of the result
unfoldable pub elems_in : Operation → ℕ → List ZsetRow → List String
unfolding elems_of having
elems_in op n rows = keep (λ e. having op n (of_elem e rows)) (elems_of rows)

module _ (d : SetDriver) where
  -- a row of the result for each element; `none` if a score is null
  unfoldable pub scored : Aggregate → List String → List ZsetRow → Option (List ZsetRow)
  scored a [] rows = some []
  scored a (e ∷ es) rows =
      let rest = scored a es rows in
      elim (d.aggregate a (map (λ z. z.score) (of_elem e rows))) [
        | none ↦ none
        | some x ↦
            Option.map (λ zs. record { rowid = 0; key_id = 0; elem = e; score = x } ∷ zs) rest
      ]

  -- the result of the query, in the order `sum(score), elem`
  unfoldable pub combined : Operation → CombineCmd → Time → Db → Option (List ZsetRow)
  unfolding elems_in scored
  combined op c t db =
      let rows = sources c.keys (unix_milli t) db in
      Option.map (sort_rows (dir_le d asc))
        (scored c.aggregate (elems_in op (length c.keys) rows) rows)

  -- the items read from the rows; a null cannot be read into a float64
  abbrev pub read_items : Option (List ZsetRow) → Result (List SetItem)
  read_items none = err (sql "converting NULL to float64 is unsupported")
  read_items (some rows) = ok (map (scan_item d) rows)

  -- `InterCmd.Run` and `UnionCmd.Run`
  unfoldable pub run_combine : Operation → CombineCmd → Time → Db → Result (List SetItem)
  unfolding combined
  run_combine op c t db = read_items (combined op c t db)

  -- the statement `insert into rkey … returning id`, whose unique index refuses a name that is taken
  unfoldable pub sql_insert_key : String → Time → Db → Result Db
  sql_insert_key dest t db = elim (find_key dest db.keys) [
    | some k ↦ err (sql "UNIQUE constraint failed: rkey.key")
    | none ↦
        ok (record db { keys = db.keys ++ record (set_key dest t) { id = next_id db.keys } ∷ [] })
  ]

  -- the rows of the result as rows of a new set
  unfoldable pub stored_rows : ℕ → ℕ → List ZsetRow → List ZsetRow
  stored_rows rowid i [] = []
  stored_rows rowid i (z ∷ zs) =
      record z { rowid = rowid; key_id = i } ∷ stored_rows (suc rowid) i zs

  -- the statement `insert into rzset … select …`, with the number of rows
  abbrev pub insert_rows : ℕ → Option (List ZsetRow) → Action ℕ
  insert_rows i none db = (err (sql "NOT NULL constraint failed"), db)
  insert_rows i (some rows) db = (
    ok (length rows),
    record db { zsets = db.zsets ++ stored_rows (suc (max_rowid db.zsets)) i rows },
  )

  -- the last statement of `store`, for the id that the insertion returned
  unfoldable pub sql_store : Operation → CombineCmd → ℕ → Time → Action ℕ
  unfolding combined stored_rows
  sql_store op c i t db = insert_rows i (combined op c t db) db

  -- `store`: `DeleteType` reads the clock as `t`, and the statements take `t'`
  unfoldable pub store : Operation → CombineCmd → Time → Time → Action ℕ
  unfolding sql_insert_key sql_store
  store op c t t' db =
      let cleared = (delete_type type_sorted_set (c.dest ∷ []) t db).1 in
      let i = next_id cleared.keys in
      (typed (exec (sql_insert_key c.dest t')) >> sql_store op c i t') cleared
