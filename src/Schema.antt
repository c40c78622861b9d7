-- ===== src/Schema.antt =====
-- internal/sqlx/schema.sql: the tables, their foreign keys and unique indexes, and what the SQL
-- statements of the packages have in common. A table is the list of its rows, in the order in
-- which the engine visits them.
pub mod Valid
pub mod View
pub mod Upsert
use redka.Base.{
  ℕ, suc, ℤ, String, Bool, true, false, ◌&&◌, not, Option, none, some, List, [], ◌∷◌, ◌++◌, ltb,
  leb, ltb_ℤ, ◌==◌, str_eq, keep, map_if, any, if◌then◌else◌,
}
use redka.Table
use redka.Core.{Error, Key, Value, Float64, Result, ok, err, sql}

-- a row of `rstring`
pub record StringRow : Type 0 where
  pub key_id : ℕ
  pub value : Value

-- a row of `rhash`
pub record HashRow : Type 0 where
  pub rowid : ℕ
  pub key_id : ℕ
  pub field : String
  pub value : Value

-- a row of `rzset`
pub record ZsetRow : Type 0 where
  pub rowid : ℕ
  pub key_id : ℕ
  pub elem : Value
  pub score : Float64

pub record Db : Type 0 where
  pub keys : List Key
  pub strings : List StringRow
  pub hashes : List HashRow
  pub zsets : List ZsetRow

abbrev pub empty_db : Db
empty_db = record { keys = []; strings = []; hashes = []; zsets = [] }

-- `etime is null or etime > :now`
abbrev pub live : ℤ → Key → Bool
live now k = elim k.etime [ none ↦ true | some at ↦ ltb_ℤ now at ]

-- `etime <= :now`, which is not true of null
abbrev pub expired : ℤ → Key → Bool
expired now k = elim k.etime [ none ↦ false | some at ↦ not (ltb_ℤ now at) ]

-- the unique indexes: `rkey_key_idx`, the primary key of `rkey`, and `rstring_pk_idx`
abbrev pub find_key : String → List Key → Option Key
find_key = Table.find str_eq (λ (k : Key). k.key)

abbrev pub find_id : ℕ → List Key → Option Key
find_id = Table.find ◌==◌ (λ (k : Key). k.id)

abbrev pub find_string : ℕ → List StringRow → Option StringRow
find_string = Table.find ◌==◌ (λ (s : StringRow). s.key_id)

-- `rhash_pk_idx` and `rzset_pk_idx` cover two columns
abbrev pub same_pair : ℕ × String → ℕ × String → Bool
same_pair (i, f) (j, g) = (i == j) && str_eq f g

abbrev pub hash_column : HashRow → ℕ × String
hash_column h = (h.key_id, h.field)

abbrev pub find_field : ℕ → String → List HashRow → Option HashRow
find_field i f = Table.find same_pair hash_column (i, f)

abbrev pub zset_column : ZsetRow → ℕ × String
zset_column z = (z.key_id, z.elem)

abbrev pub find_elem : ℕ → String → List ZsetRow → Option ZsetRow
find_elem i e = Table.find same_pair zset_column (i, e)

-- The id of a new row: one above the largest, which is what SQLite gives an integer primary key.
abbrev pub max_id : List Key → ℕ
max_id [] = 0
max_id (k ∷ ks) = let rest = max_id ks in if ltb rest k.id then k.id else rest

abbrev pub next_id : List Key → ℕ
next_id ks = suc (max_id ks)

-- Some row of `keys` that passes the test has the id.
abbrev pub removes : (Key → Bool) → List Key → ℕ → Bool
removes p keys i = any (λ k. p k && (k.id == i)) keys

-- `delete from rkey where …`, and the foreign keys' `on delete cascade`
unfoldable pub delete_keys : (Key → Bool) → Db → Db
delete_keys p db = record {
  keys = keep (λ k. not (p k)) db.keys;
  strings = keep (λ s. not (removes p db.keys s.key_id)) db.strings;
  hashes = keep (λ h. not (removes p db.keys h.key_id)) db.hashes;
  zsets = keep (λ z. not (removes p db.keys z.key_id)) db.zsets;
}

-- `update rkey set … where …`
unfoldable pub update_keys : (Key → Bool) → (Key → Key) → Db → Db
update_keys p change db = record db { keys = map_if p change db.keys }

-- `insert into rkey … on conflict (key) do update set …`. The trigger `rkey_on_type_update` raises
-- if the update would change the type. `new` is the row to insert, less its id.
unfoldable pub upsert_key : Key → (Key → Key) → Db → Result Db
unfolding update_keys
upsert_key new change db = elim (find_key new.key db.keys) [
  | none ↦ ok (record db { keys = db.keys ++ record new { id = next_id db.keys } ∷ [] })
  | some old ↦
      if (change old).type_id == old.type_id
      then ok (update_keys (λ k. str_eq k.key new.key) change db)
      else err (sql "key type mismatch")
]

-- the error of a statement that gives a null to a column which is not null, as one that finds no row
-- for `(select id from rkey where key = :key)`
abbrev pub null_error : Error
null_error = sql "NOT NULL constraint failed"

abbrev pub not_null : Result Db
not_null = err null_error
