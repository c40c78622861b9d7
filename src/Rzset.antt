-- ===== src/Rzset.antt =====
-- internal/rzset/tx.go: the sorted set repository. Readings of the clock are arguments, in the
-- order in which the function reads it.
pub mod Driver
pub mod Order
pub mod Range
pub mod Removal
pub mod Combine
pub mod Database
pub mod Scan
mod Elems
pub mod Write
pub mod View
pub mod Score
pub mod Incr
pub mod Sorted
pub mod Rank
pub mod Slices
pub mod Store
pub mod Stored
pub mod Inverted
pub mod Updates
pub mod Union
pub mod Inter
mod Samples
mod Tests
pub mod Invariant
use redka.Base.{
  ℕ, zero, suc, ◌-◌, ℤ, pos, negsuc, String, Bool, true, false, ◌&&◌, ◌||◌, not, Option, none, some,
  List, [], ◌∷◌, ◌++◌, ltb, ltb_ℤ, ◌==◌, str_eq, map, map_if, any, first, keep, length, is_some,
  if◌then◌else◌,
}
use redka.Core.{
  Key, Error, sql, value_type, not_found, Result, ok, err, Time, unix_milli, type_sorted_set,
  initial_version, Value, AnyValue, is_value_type, Float64,
}
use redka.Schema.{
  Db, ZsetRow, find_key, find_elem, same_pair, zset_column, removes, upsert_key, not_null,
}
use redka.Sqlx.{Action, ◌>>=◌, ◌>>◌, pure, raise, exec, typed, limit}
use redka.Rkey.{by_key, is_in}
use redka.Rzset.Driver.{SetDriver}
use redka.Rzset.Order.{SortDir, asc, desc, sort_rows, dir_le, ranked}

-- `SetItem`
pub record SetItem : Type 0 where
  pub id : ℕ
  pub elem : Value
  pub score : Float64

-- `join rkey on key_id = rkey.id and (etime is null or etime > :now) where key = :key`
abbrev pub of_key : String → ℤ → Db → ZsetRow → Bool
of_key key now db z = removes (by_key key now) db.keys z.key_id

-- the rows of a set
abbrev pub members : String → ℤ → Db → List ZsetRow
members key now db = keep (of_key key now db) db.zsets

-- `for _, elem := range elems { if !core.IsValueType(elem) { … } }`
unfoldable pub all_elems : List AnyValue → Bool
all_elems [] = true
all_elems (v ∷ vs) = is_value_type v && all_elems vs

-- `sqlAdd1` and `sqlIncr1`: the row, and its `on conflict (key) do update`
abbrev pub set_key : String → Time → Key
set_key key t = record {
  id = 0;
  key = key;
  type_id = type_sorted_set;
  version = initial_version;
  etime = none;
  mtime = unix_milli t;
}

abbrev pub set_change : Time → Key → Key
set_change t k = record k {
  version = suc k.version;
  type_id = type_sorted_set;
  mtime = unix_milli t;
}

unfoldable pub put_key : String → Time → Action Unit
put_key key t = typed (exec (upsert_key (set_key key t) (set_change t)))

-- the rowid of a new row
abbrev pub max_rowid : List ZsetRow → ℕ
max_rowid [] = 0
max_rowid (z ∷ zs) = let rest = max_rowid zs in if ltb rest z.rowid then z.rowid else rest

-- `insert into rzset … on conflict (key_id, elem) do update set score = …`
abbrev pub put_elem : ℕ → String → Float64 → List ZsetRow → List ZsetRow
put_elem i e x zs =
    if is_some (find_elem i e zs)
    then map_if (λ z. same_pair (zset_column z) (i, e)) (λ z. record z { score = x }) zs
    else zs ++ record { rowid = suc (max_rowid zs); key_id = i; elem = e; score = x } ∷ []

-- the statement with a score that may be null
abbrev with_score : Option Float64 → (Float64 → Result Db) → Result Db
with_score none f = not_null
with_score (some x) f = f x

-- `sqlAdd2`
unfoldable pub sql_put : String → Option String → Option Float64 → Db → Result Db
sql_put key none score db = not_null
sql_put key (some e) score db = elim (find_key key db.keys) [
  | none ↦ not_null
  | some k ↦ with_score score (λ x. ok (record db { zsets = put_elem k.id e x db.zsets }))
]

-- the score of an element before an increment
abbrev pub old_score : Option ZsetRow → Option Float64
old_score none = none
old_score (some z) = some z.score

abbrev pub scan_page_size : ℤ
scan_page_size = pos 10

abbrev default_page : ℤ → ℤ
default_page (pos zero) = scan_page_size
default_page n = n

-- `ScanResult`; an item is a row of `rzset`, whose rowid is its `id`
pub record ScanResult : Type 0 where
  pub cursor : ℕ
  pub items : List ZsetRow

-- the loop over the items for the largest id
unfoldable pub largest_id : ℕ → List ZsetRow → ℕ
largest_id acc [] = acc
largest_id acc (z ∷ zs) = largest_id (if ltb acc z.rowid then z.rowid else acc) zs

-- no row is `ErrNotFound`
abbrev found_score : Option ZsetRow → Result Float64
found_score none = err not_found
found_score (some z) = ok z.score

abbrev found_rank : Option (ℕ × ZsetRow) → Result (ℕ × Float64)
found_rank none = err not_found
found_rank (some (n, z)) = ok (n, z.score)

-- `elem = :elem`, which is no row's where the element is a null
abbrev pub same_elem : Option String → String → Bool
same_elem none x = false
same_elem (some e) x = str_eq x e

-- the row of the window with `elem = :elem`
abbrev pub ranked_as : Option String → List ZsetRow → Option (ℕ × ZsetRow)
ranked_as none zs = none
ranked_as (some e) zs = ranked 0 e zs

-- a null in a list of elements is equal to none of the rows' elements
abbrev with_code : Option String → List String → List String
with_code none es = es
with_code (some e) es = e ∷ es

-- `key_id = (select id from rkey where key = :key and …)`
abbrev pub in_set : Option Key → ZsetRow → Bool
in_set none z = false
in_set (some k) z = z.key_id == k.id

-- `delete from rzset where …`: the number of rows, and the tables
abbrev pub delete_rows : (ZsetRow → Bool) → Db → ℕ × Db
delete_rows gone db =
    (length (keep gone db.zsets), record db { zsets = keep (λ z. not (gone z)) db.zsets })

-- a query of the tables as a step of an action
abbrev pub query : {A : Type 0} → (Db → Result A) → Action A
query f db = (f db, db)

-- the end of `sqlIncr2`: the score, which may not be null
abbrev pub raised : Option Float64 → (Float64 → Db) → Db → Result Float64 × Db
raised none f db = (err (sql "NOT NULL constraint failed"), db)
raised (some x) f db = (ok x, f x)

-- `Tx.Len`
unfoldable pub len : String → Time → Db → ℕ
len key t db = length (members key (unix_milli t) db)

module _ (d : SetDriver) where
  abbrev pub codes : List AnyValue → List String
  codes [] = []
  codes (elem ∷ elems) = with_code (d.elem_code elem) (codes elems)

  -- `elem in (:elems)`
  abbrev pub among_elems : List AnyValue → ZsetRow → Bool
  among_elems elems z = is_in (codes elems) z.elem

  -- `scanItem`
  abbrev pub scan_item : ZsetRow → SetItem
  scan_item z = record { id = 0; elem = d.elem_bytes z.elem; score = z.score }

  -- `count`
  unfoldable pub count : String → List AnyValue → Time → Db → Result ℕ
  count key elems t db =
      if not (all_elems elems)
      then err value_type
      else ok (length (keep (λ z. of_key key (unix_milli t) db z && among_elems elems z) db.zsets))

  -- `add`
  unfoldable pub add_elem : String → AnyValue → Float64 → Time → Action Unit
  add_elem key elem score t db =
      if not (is_value_type elem)
      then raise value_type db
      else (put_key key t >> exec (sql_put key (d.elem_code elem) (d.score_of score))) db

  -- `Tx.Add`: true if the element was created
  unfoldable pub add : String → AnyValue → Float64 → Time → Time → Action Bool
  add key elem score t t' =
      query (count key (elem ∷ []) t) >>= λ n. add_elem key elem score t' >> pure (n == 0)

  -- the loop of `AddMany`; the i-th round reads the clock as `times i`
  unfoldable pub add_all : String → List (AnyValue × Float64) → (ℕ → Time) → Action Unit
  add_all key [] times = pure tt
  add_all key ((elem, score) ∷ items) times =
      add_elem key elem score (times 0) >> add_all key items (λ i. times (suc i))

  abbrev pub keys_of : List (AnyValue × Float64) → List AnyValue
  keys_of [] = []
  keys_of ((elem, score) ∷ items) = elem ∷ keys_of items

  -- `Tx.AddMany`: `len(items) - existCount`
  unfoldable pub add_many : String → List (AnyValue × Float64) → Time → (ℕ → Time) → Action ℕ
  add_many key items t times = query (count key (keys_of items) t) >>= λ n.
      add_all key items times >> pure (length items - n)

  -- `score between :min and :max`; a bound that is a NaN is null, and no score lies above it
  abbrev at_least : Option Float64 → Float64 → Bool
  at_least none x = false
  at_least (some lo) x = d.score_le lo x

  abbrev at_most : Option Float64 → Float64 → Bool
  at_most none x = false
  at_most (some hi) x = d.score_le x hi

  abbrev pub between : Float64 → Float64 → ZsetRow → Bool
  between lo hi z = at_least (d.score_of lo) z.score && at_most (d.score_of hi) z.score

  -- `Tx.Count`
  unfoldable pub count_score : String → Float64 → Float64 → Time → Db → ℕ
  count_score key lo hi t db = length (keep (between lo hi) (members key (unix_milli t) db))

  -- `Tx.Delete`. Its loop over the indexes of the elements finds an int each time.
  unfoldable pub delete : String → List AnyValue → Time → Db → ℕ × Db
  delete key elems t db =
      let owner = first (by_key key (unix_milli t)) db.keys in
      delete_rows (λ z. in_set owner z && among_elems elems z) db

  -- `getRank`
  unfoldable pub rank_in : SortDir → String → AnyValue → Time → Db → Result (ℕ × Float64)
  rank_in dir key elem t db =
      if not (is_value_type elem)
      then err value_type
      else found_rank
          (ranked_as (d.elem_code elem) (sort_rows (dir_le d dir) (members key (unix_milli t) db)))

  -- `Tx.GetRank` and `Tx.GetRankRev`
  unfoldable pub get_rank : String → AnyValue → Time → Db → Result (ℕ × Float64)
  unfolding rank_in
  get_rank = rank_in asc

  unfoldable pub get_rank_rev : String → AnyValue → Time → Db → Result (ℕ × Float64)
  unfolding rank_in
  get_rank_rev = rank_in desc

  -- `Tx.GetScore`
  unfoldable pub get_score : String → AnyValue → Time → Db → Result Float64
  get_score key elem t db =
      if not (is_value_type elem)
      then err value_type
      else found_score (
          first (λ z. of_key key (unix_milli t) db z && same_elem (d.elem_code elem) z.elem)
            db.zsets)

  -- the score after `on conflict … set score = score + excluded.score`: a null in either is null
  abbrev pub incremented : Option Float64 → Option Float64 → Option Float64
  incremented none old = none
  incremented (some x) none = some x
  incremented (some x) (some y) = d.add_score y x

  -- `sqlIncr2`, with the score that it returns
  unfoldable pub sql_incr : String → Option String → Float64 → Action Float64
  sql_incr key none delta db = raised none (λ x. db) db
  sql_incr key (some e) delta db = elim (find_key key db.keys) [
    | none ↦ raised none (λ x. db) db
    | some k ↦
        raised (incremented (d.score_of delta) (old_score (find_elem k.id e db.zsets)))
          (λ x. record db { zsets = put_elem k.id e x db.zsets }) db
  ]

  -- `Tx.Incr`
  unfoldable pub incr : String → AnyValue → Float64 → Time → Action Float64
  incr key elem delta t db =
      if not (is_value_type elem)
      then raise value_type db
      else (put_key key t >> sql_incr key (d.elem_code elem) delta) db

  -- `Tx.Scan`
  unfoldable pub scan : String → ℤ → String → ℤ → Time → Db → ScanResult
  unfolding largest_id
  scan key cursor pattern page_size t db =
      let rows = limit (default_page page_size) (
        keep
          (λ z.
            of_key key (unix_milli t) db z
            && (ltb_ℤ cursor (pos z.rowid) && d.elem_glob pattern z.elem))
          db.zsets) in
      record { cursor = largest_id 0 rows; items = rows }
