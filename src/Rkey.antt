-- ===== src/Rkey.antt =====
-- internal/rkey/tx.go: the key repository. Every reading of `time.Now()` is an argument, in the
-- order in which the function reads the clock. A query is a function of the tables.
pub mod Invariant
pub mod Expiry
pub mod Owner
pub mod Purge
mod Naming
pub mod Rename
pub mod Paging
pub mod Database
pub mod Scan
mod Tests
use redka.Base.{
  ℕ, zero, suc, ◌+◌, ℤ, pos, negsuc, ◌+ℤ◌, String, Bool, true, false, ◌&&◌, not, Option, none, some,
  List, [], ◌∷◌, ltb, leb, ltb_ℤ, ◌==◌, ◌%◌, str_eq, first, keep, map_if, any, length,
  if◌then◌else◌,
}
use redka.Core.{
  Key, no_key, key_exists, Error, not_found, Result, ok, err, Time, Duration, unix_milli, TypeId,
  Driver,
}
use redka.Schema.{
  Db, StringRow, HashRow, ZsetRow, live, expired, find_key, delete_keys, update_keys, empty_db,
}
use redka.Sqlx.{Action, ◌>>=◌, ◌>>◌, pure, raise, gets, exec, limit}

-- `where key = :key and (etime is null or etime > :now)`
abbrev pub by_key : String → ℤ → Key → Bool
by_key key now k = str_eq k.key key && live now k

-- `key in (:keys)`
abbrev pub is_in : List String → String → Bool
is_in keys name = any (λ k. str_eq k name) keys

-- `where key in (:keys) and (etime is null or etime > :now)`
abbrev pub among : List String → ℤ → Key → Bool
among keys now k = is_in keys k.key && live now k

abbrev or_no_key : Option Key → Key
or_no_key none = no_key
or_no_key (some k) = k

-- `Get`
unfoldable pub get : String → Time → Db → Key
get key t db = or_no_key (first (by_key key (unix_milli t)) db.keys)

-- `Count`
unfoldable pub count : List String → Time → Db → ℕ
count keys t db = length (keep (among keys (unix_milli t)) db.keys)

-- `Tx.Exists`
unfoldable pub exists : String → Time → Db → Bool
unfolding count
exists key t db = ltb 0 (count (key ∷ []) t db)

-- `Delete`: the number of rows of `rkey` that are deleted, and the tables
unfoldable pub delete : List String → Time → Db → ℕ × Db
delete keys t db = let p = among keys (unix_milli t) in (length (keep p db.keys), delete_keys p db)

-- `DeleteType`
unfoldable pub delete_type : TypeId → List String → Time → Db → ℕ × Db
delete_type type keys t db =
    let p : Key → Bool = λ k. among keys (unix_milli t) k && (k.type_id == type) in
    (length (keep p db.keys), delete_keys p db)

-- `Tx.ExpireAt`, which reads the clock once
unfoldable pub expire_at : String → Time → Time → Db → Bool × Db
expire_at key at t db =
    let p = by_key key (unix_milli t) in
    (
      ltb 0 (length (keep p db.keys)),
      update_keys p (λ k. record k { etime = some (unix_milli at) }) db,
    )

-- `Tx.Expire`, which reads the clock for the sum and again in `ExpireAt`
unfoldable pub expire : String → Duration → Time → Time → Db → Bool × Db
expire key ttl t t' db = expire_at key (t +ℤ ttl) t' db

-- `Tx.Persist`
unfoldable pub persist : String → Time → Db → Bool × Db
persist key t db =
    let p = by_key key (unix_milli t) in
    (ltb 0 (length (keep p db.keys)), update_keys p (λ k. record k { etime = none }) db)

-- The statement `sqlRename`: the row takes the new name, and `or replace` deletes another row
-- that has it.
abbrev renamed : String → ℤ → Key → Key
renamed new_key now k = record k { key = new_key; version = k.version + 1; mtime = now }

unfoldable pub sql_rename : String → String → ℤ → Db → Db
sql_rename key new_key now db = elim (first (by_key key now) db.keys) [
  | none ↦ db
  | some old ↦
      update_keys (by_key key now) (renamed new_key now)
        (delete_keys (λ k. str_eq k.key new_key && not (k.id == old.id)) db)
]

-- `Tx.Rename` reads the clock in `Get`, in `Delete` and for the statement.
unfoldable pub rename : String → String → Time → Time → Time → Action Unit
rename key new_key t t' t'' db =
    if not (key_exists (get key t db))
    then (err not_found, db)
    else if str_eq key new_key
    then (ok tt, db)
    else (ok tt, sql_rename key new_key (unix_milli t'') (delete (new_key ∷ []) t' db).1)

-- `Tx.RenameNotExists` reads the clock in `Get`, in `Exists` and for the statement.
unfoldable pub rename_not_exists : String → String → Time → Time → Time → Action Bool
rename_not_exists key new_key t t' t'' db =
    if not (key_exists (get key t db))
    then (err not_found, db)
    else if str_eq key new_key
    then (ok false, db)
    else if exists new_key t' db
    then (ok false, db)
    else (ok true, sql_rename key new_key (unix_milli t'') db)

-- `Tx.DeleteAll`: `delete from rkey`, with the cascade
unfoldable pub delete_all : Db → Db
delete_all db = delete_keys (λ k. true) db

-- the ids of the first `n` expired rows
abbrev first_expired : ℕ → ℤ → List Key → List Key
first_expired zero now ks = []
first_expired (suc n) now [] = []
first_expired (suc n) now (k ∷ ks) =
    let taken = k ∷ first_expired n now ks in
    let skipped = first_expired (suc n) now ks in if expired now k then taken else skipped

-- `deleteExpired`: at most `n` rows, or all of them if `n` is not positive
unfoldable pub delete_expired : ℤ → Time → Db → ℕ × Db
delete_expired (pos (suc n)) t db =
    let rows = first_expired (suc n) (unix_milli t) db.keys in
    let p : Key → Bool = λ k. any (λ r. r.id == k.id) rows in
    (length (keep p db.keys), delete_keys p db)
delete_expired _ t db =
    let p = expired (unix_milli t) in (length (keep p db.keys), delete_keys p db)

-- `Tx.Random`: `choice` is what `order by random()` draws
abbrev nth : ℕ → List Key → Option Key
nth n [] = none
nth zero (k ∷ ks) = some k
nth (suc n) (k ∷ ks) = nth n ks

unfoldable pub random : ℕ → Time → Db → Key
random choice t db =
    let rows = keep (live (unix_milli t)) db.keys in or_no_key (nth (choice % length rows) rows)

abbrev pub scan_page_size : ℤ
scan_page_size = pos 10

abbrev pub default_page : ℤ → ℤ
default_page (pos zero) = scan_page_size
default_page n = n

pub record ScanResult : Type 0 where
  pub cursor : ℕ
  pub keys : List Key

-- the loop over the rows for the largest id
unfoldable pub largest_id : ℕ → List Key → ℕ
largest_id acc [] = acc
largest_id acc (k ∷ ks) = largest_id (if ltb acc k.id then k.id else acc) ks

module _ (d : Driver) where
  -- `Tx.Keys`
  unfoldable pub keys : String → Time → Db → List Key
  keys pattern t db = keep (λ k. d.glob pattern k.key && live (unix_milli t) k) db.keys

  -- the rows that `sqlScan` ranges over, before its limit
  abbrev pub after : ℤ → String → ℤ → Key → Bool
  after cursor pattern now k = ltb_ℤ cursor (pos k.id) && (d.glob pattern k.key && live now k)

  -- `Tx.Scan`
  unfoldable pub scan : ℤ → String → ℤ → Time → Db → ScanResult
  unfolding largest_id
  scan cursor pattern page_size t db =
      let rows =
        limit (default_page page_size) (keep (after cursor pattern (unix_milli t)) db.keys) in
      record { cursor = largest_id 0 rows; keys = rows }
