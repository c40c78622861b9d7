-- ===== src/Rhash.antt =====
-- internal/rhash/tx.go: the hash repository. Readings of the clock are arguments, in the order in
-- which the function reads it; a loop over a map takes the map in its order of iteration. A query
-- that joins `rhash` with `rkey` takes the rows of `rhash` whose key passes the test: `rkey.id` is
-- a primary key, so that each row has one.
pub mod View
mod Fields
mod Write
pub mod Set
pub mod Incr
pub mod Invariant
pub mod Delete
pub mod Database
pub mod Scan
mod Tests
use redka.Base.{
  ℕ, zero, suc, ◌-◌, ℤ, pos, negsuc, ◌+ℤ◌, wrap, String, Bool, true, false, ◌&&◌, not, Option, none,
  some, List, [], ◌∷◌, ◌++◌, ltb, ltb_ℤ, ◌==◌, str_eq, map, map_if, any, first, keep, length,
  is_some, if◌then◌else◌, lookup, put, put_all, names,
}
use redka.Core.{
  Key, Error, value_type, not_found, Result, ok, err, Time, unix_milli, type_hash, initial_version,
  Value, AnyValue, int, float, is_value_type, to_int, to_float, Float64, Driver,
}
use redka.Schema.{
  Db, HashRow, live, find_key, find_field, same_pair, hash_column, removes, upsert_key, not_null,
}
use redka.Sqlx.{Action, ◌>>=◌, ◌>>◌, pure, raise, exec, typed, limit}
use redka.Rkey.{by_key, is_in}
use redka.Rstring.{all_values}

-- `join rkey on key_id = rkey.id and (etime is null or etime > :now) where key = :key`
abbrev pub of_key : String → ℤ → Db → HashRow → Bool
of_key key now db h = removes (by_key key now) db.keys h.key_id

-- the entry that `scanValue` reads of a row
abbrev pub item : HashRow → String × Value
item h = (h.field, h.value)

-- `count`
unfoldable pub count : String → List String → Time → Db → ℕ
count key fields t db =
    length (keep (λ h. of_key key (unix_milli t) db h && is_in fields h.field) db.hashes)

-- `Tx.Exists`
unfoldable pub exists : String → String → Time → Db → Bool
unfolding count
exists key field t db = ltb 0 (count key (field ∷ []) t db)

-- `Tx.Fields`
unfoldable pub fields : String → Time → Db → List String
fields key t db = map (λ h. h.field) (keep (of_key key (unix_milli t) db) db.hashes)

-- no row is `ErrNotFound`
abbrev found_value : Option HashRow → Result Value
found_value none = err not_found
found_value (some h) = ok h.value

-- `Tx.Get`
unfoldable pub get : String → String → Time → Db → Result Value
get key field t db =
    found_value (first (λ h. of_key key (unix_milli t) db h && str_eq h.field field) db.hashes)

-- `Tx.GetMany`
unfoldable pub get_many : String → List String → Time → Db → List (String × Value)
get_many key fields t db =
    put_all
      (map item (keep (λ h. of_key key (unix_milli t) db h && is_in fields h.field) db.hashes)) []

-- `Tx.Items`
unfoldable pub items : String → Time → Db → List (String × Value)
items key t db = put_all (map item (keep (of_key key (unix_milli t) db) db.hashes)) []

-- `Tx.Len`
unfoldable pub len : String → Time → Db → ℕ
len key t db = length (keep (of_key key (unix_milli t) db) db.hashes)

-- `Tx.Values`
unfoldable pub values : String → Time → Db → List Value
values key t db = map (λ h. h.value) (keep (of_key key (unix_milli t) db) db.hashes)

-- `key_id = (select id from rkey where key = :key and …) and field in (:fields)`
abbrev in_fields : Option Key → List String → HashRow → Bool
in_fields none fields h = false
in_fields (some k) fields h = (h.key_id == k.id) && is_in fields h.field

-- `Tx.Delete`: the number of fields deleted, and the tables
unfoldable pub delete : String → List String → Time → Db → ℕ × Db
delete key fields t db =
    let gone = in_fields (first (by_key key (unix_milli t)) db.keys) fields in
    (length (keep gone db.hashes), record db { hashes = keep (λ h. not (gone h)) db.hashes })

-- the rowid of a new row
abbrev pub max_rowid : List HashRow → ℕ
max_rowid [] = 0
max_rowid (h ∷ hs) = let rest = max_rowid hs in if ltb rest h.rowid then h.rowid else rest

-- `sqlSet2`: `insert into rhash … on conflict (key_id, field) do update set value = …`
abbrev put_field : ℕ → String → Value → List HashRow → List HashRow
put_field i f v hs =
    if is_some (find_field i f hs)
    then map_if (λ h. same_pair (hash_column h) (i, f)) (λ h. record h { value = v }) hs
    else hs ++ record { rowid = suc (max_rowid hs); key_id = i; field = f; value = v } ∷ []

-- `sqlSet2`, where `none` is a null, which the column `value` refuses
unfoldable pub sql_put : String → String → Option Value → Db → Result Db
sql_put key field none db = not_null
sql_put key field (some v) db = elim (find_key key db.keys) [
  | none ↦ not_null
  | some k ↦ ok (record db { hashes = put_field k.id field v db.hashes })
]

-- the row of `sqlSet1`, and its `on conflict (key) do update`
abbrev hash_key : String → Time → Key
hash_key key t = record {
  id = 0;
  key = key;
  type_id = type_hash;
  version = initial_version;
  etime = none;
  mtime = unix_milli t;
}

abbrev hash_change : Time → Key → Key
hash_change t k = record k { version = suc k.version; type_id = type_hash; mtime = unix_milli t }

-- `Tx.set`, with the value as it is stored
unfoldable pub set_value : String → String → Option Value → Time → Action Unit
set_value key field v t =
    typed (exec (upsert_key (hash_key key t) (hash_change t))) >> exec (sql_put key field v)

abbrev pub scan_page_size : ℤ
scan_page_size = pos 10

abbrev default_page : ℤ → ℤ
default_page (pos zero) = scan_page_size
default_page n = n

-- `ScanResult`; an item is a row of `rhash`
pub record ScanResult : Type 0 where
  pub cursor : ℕ
  pub items : List HashRow

-- the loop over the items for the largest id
unfoldable pub largest_id : ℕ → List HashRow → ℕ
largest_id acc [] = acc
largest_id acc (h ∷ hs) = largest_id (if ltb acc h.rowid then h.rowid else acc) hs

-- the value that a missing field counts as in `Incr`: nil
abbrev or_nil : Result Value → Value
or_nil (ok v) = v
or_nil (err e) = ""

module _ (d : Driver) where
  -- the rows that `sqlScan` ranges over, before its limit
  abbrev pub after : String → ℤ → String → ℤ → Db → HashRow → Bool
  after key cursor pattern now db h =
      of_key key now db h && (ltb_ℤ cursor (pos h.rowid) && d.glob pattern h.field)

  -- `Tx.Scan`
  unfoldable pub scan : String → ℤ → String → ℤ → Time → Db → ScanResult
  unfolding largest_id
  scan key cursor pattern page_size t db =
      let rows =
        limit (default_page page_size)
          (keep (after key cursor pattern (unix_milli t) db) db.hashes) in
      record { cursor = largest_id 0 rows; items = rows }

  -- `Tx.Set`: true if the field was created
  unfoldable pub set : String → String → AnyValue → Time → Time → Action Bool
  set key field v t t' db =
      if not (is_value_type v)
      then raise value_type db
      else (set_value key field (d.stored v) t' >> pure (count key (field ∷ []) t db == 0)) db

  -- the loop that writes the items; the i-th round reads the clock as `times i`
  unfoldable pub set_all : String → List (String × AnyValue) → (ℕ → Time) → Action Unit
  set_all key [] times = pure tt
  set_all key ((field, v) ∷ items) times =
      set_value key field (d.stored v) (times 0) >> set_all key items (λ i. times (suc i))

  -- `Tx.SetMany`: `len(items) - existCount`
  unfoldable pub set_many : String → List (String × AnyValue) → Time → (ℕ → Time) → Action ℕ
  set_many key items t times db =
      if not (all_values items)
      then raise value_type db
      else (set_all key items times >> pure (length items - count key (names items) t db)) db

  -- `Tx.SetNotExists`
  unfoldable pub set_not_exists : String → String → AnyValue → Time → Time → Action Bool
  set_not_exists key field v t t' db =
      if not (is_value_type v)
      then raise value_type db
      else if exists key field t db
      then (ok false, db)
      else (set_value key field (d.stored v) t' >> pure true) db

  -- `Tx.Incr`: the sum is a Go `int`
  unfoldable pub incr : String → String → ℤ → Time → Time → Action ℤ
  incr key field delta t t' db = elim (to_int (or_nil (get key field t db))) [
    | none ↦ raise value_type db
    | some n ↦
        (set_value key field (d.stored (int (wrap (n +ℤ delta)))) t' >> pure (wrap (n +ℤ delta))) db
  ]

  -- `Tx.IncrFloat`
  unfoldable pub incr_float : String → String → Float64 → Time → Time → Action Float64
  incr_float key field delta t t' db = elim (to_float d (or_nil (get key field t db))) [
    | none ↦ raise value_type db
    | some x ↦
        (set_value key field (d.stored (float (d.add_float x delta))) t'
            >> pure (d.add_float x delta))
          db
  ]
