-- ===== src/Rstring.antt =====
-- internal/rstring/tx.go: the string repository. Readings of the clock are arguments, in the order
-- in which the function reads it; a loop over a map takes the map in its order of iteration.
pub mod Get
mod Write
pub mod Set
pub mod Incr
pub mod Invariant
pub mod Database
mod Tests
use redka.Base.{
  ℕ, zero, suc, ℤ, pos, ◌+ℤ◌, wrap, String, Bool, true, false, ◌&&◌, not, Option, none, some, List,
  [], ◌∷◌, ◌++◌, ltb_ℤ, ◌==◌, str_eq, map_if, any, head?, if◌then◌else◌, lookup, put, put_all,
  names,
}
use redka.Core.{
  Key, key_exists, Error, value_type, Result, ok, err, Time, Duration, unix_milli, type_string,
  initial_version, Value, AnyValue, int, float, is_value_type, to_int, to_float, Float64, Driver,
}
use redka.Schema.{Db, StringRow, live, find_key, upsert_key, not_null}
use redka.Sqlx.{Action, ◌>>=◌, ◌>>◌, pure, raise, gets, exec, typed}
use redka.Rkey
use redka.Rkey.{by_key, among}

-- the rows of `rstring` with the key's id, as `select key, value` gives them
abbrev rows_of : Key → List StringRow → List (String × Value)
rows_of k [] = []
rows_of k (s ∷ ss) =
    let rest = rows_of k ss in if s.key_id == k.id then (k.key, s.value) ∷ rest else rest

-- `select key, value from rstring join rkey on key_id = rkey.id where …`
unfoldable pub joined : (Key → Bool) → List Key → List StringRow → List (String × Value)
joined p [] ss = []
joined p (k ∷ ks) ss = let rest = joined p ks ss in if p k then rows_of k ss ++ rest else rest

-- `scanValue`: no row is the nil value
abbrev scan_value : Option (String × Value) → Value
scan_value none = ""
scan_value (some (key, value)) = value

-- `Tx.Get`
unfoldable pub get : String → Time → Db → Value
get key t db = scan_value (head? (joined (by_key key (unix_milli t)) db.keys db.strings))

-- the map with a nil value for each requested key
abbrev nil_values : List String → List (String × Value)
nil_values [] = []
nil_values (k ∷ ks) = put k "" (nil_values ks)

-- `Tx.GetMany`
unfoldable pub get_many : List String → Time → Db → List (String × Value)
get_many keys t db =
    put_all (joined (among keys (unix_milli t)) db.keys db.strings) (nil_values keys)

abbrev put_row : ℕ → Value → List StringRow → List StringRow
put_row i v ss =
    if any (λ s. s.key_id == i) ss
    then map_if (λ s. s.key_id == i) (λ s. record s { value = v }) ss
    else ss ++ record { key_id = i; value = v } ∷ []

-- the second statement of `sqlSet` and of `sqlUpdate`, where `none` is a null, which the column `value` refuses
unfoldable pub sql_put : String → Option Value → Db → Result Db
sql_put key none db = not_null
sql_put key (some v) db = elim (find_key key db.keys) [
  | none ↦ not_null
  | some k ↦ ok (record db { strings = put_row k.id v db.strings })
]

abbrev pub etime_of : Time → Duration → Option ℤ
etime_of t ttl = if ltb_ℤ (pos 0) ttl then some (unix_milli (t +ℤ ttl)) else none

abbrev string_key : String → Option ℤ → Time → Key
string_key key etime t = record {
  id = 0;
  key = key;
  type_id = type_string;
  version = initial_version;
  etime = etime;
  mtime = unix_milli t;
}

-- `on conflict (key) do update` of `sqlSet[0]`
abbrev set_change : Option ℤ → Time → Key → Key
set_change etime t k = record k {
  version = suc k.version;
  type_id = type_string;
  etime = etime;
  mtime = unix_milli t;
}

-- of `sqlUpdate[0]`, which does not change the expiration time
abbrev update_change : Time → Key → Key
update_change t k = record k {
  version = suc k.version;
  type_id = type_string;
  mtime = unix_milli t;
}

-- `Tx.set`, with the value as it is stored
unfoldable pub set_value : String → Option Value → Duration → Time → Action Unit
set_value key v ttl t =
    typed (exec (upsert_key (string_key key (etime_of t ttl) t) (set_change (etime_of t ttl) t)))
    >> exec (sql_put key v)

-- `Tx.update`
unfoldable pub update : String → Option Value → Time → Action Unit
update key v t =
    typed (exec (upsert_key (string_key key none t) (update_change t))) >> exec (sql_put key v)

-- the loop that checks the types of the values
abbrev pub all_values : List (String × AnyValue) → Bool
all_values [] = true
all_values ((k, v) ∷ items) = if is_value_type v then all_values items else false

module _ (d : Driver) where
  -- `Tx.SetExpires`; `Tx.Set` is the call with a zero ttl
  unfoldable pub set_expires : String → AnyValue → Duration → Time → Action Unit
  set_expires key v ttl t =
      if not (is_value_type v) then raise value_type else set_value key (d.stored v) ttl t

  unfoldable pub set : String → AnyValue → Time → Action Unit
  set key v t = set_expires key v (pos 0) t

  -- `Tx.SetNotExists`, which reads the clock for the check and for the write
  unfoldable pub set_not_exists : String → AnyValue → Duration → Time → Time → Action Bool
  set_not_exists key v ttl t t' db =
      if not (is_value_type v)
      then raise value_type db
      else if key_exists (Rkey.get key t db)
      then (ok false, db)
      else (set_value key (d.stored v) ttl t' >> pure true) db

  -- `Tx.SetExists`
  unfoldable pub set_exists : String → AnyValue → Duration → Time → Time → Action Bool
  set_exists key v ttl t t' db =
      if not (is_value_type v)
      then raise value_type db
      else if not (key_exists (Rkey.get key t db))
      then (ok false, db)
      else (set_value key (d.stored v) ttl t' >> pure true) db

  -- `Tx.GetSet`
  unfoldable pub get_set : String → AnyValue → Duration → Time → Time → Action Value
  get_set key v ttl t t' db =
      if not (is_value_type v)
      then raise value_type db
      else (set_value key (d.stored v) ttl t' >> pure (get key t db)) db

  -- the loop that writes the items; the i-th round reads the clock as `times i`
  unfoldable pub set_all : List (String × AnyValue) → (ℕ → Time) → Action Unit
  set_all [] times = pure tt
  set_all ((key, v) ∷ items) times =
      set_value key (d.stored v) (pos 0) (times 0) >> set_all items (λ i. times (suc i))

  -- `Tx.SetMany`
  unfoldable pub set_many : List (String × AnyValue) → (ℕ → Time) → Action Unit
  set_many items times = if not (all_values items) then raise value_type else set_all items times

  -- `Tx.SetManyNX`
  unfoldable pub set_many_nx : List (String × AnyValue) → Time → (ℕ → Time) → Action Bool
  set_many_nx items t times db =
      if not (all_values items)
      then raise value_type db
      else if not (Rkey.count (names items) t db == 0)
      then (ok false, db)
      else (set_all items times >> pure true) db

  -- `Tx.Incr`: the sum is a Go `int`
  unfoldable pub incr : String → ℤ → Time → Time → Action ℤ
  incr key delta t t' db = elim (to_int (get key t db)) [
    | none ↦ raise value_type db
    | some n ↦ (update key (d.stored (int (wrap (n +ℤ delta)))) t' >> pure (wrap (n +ℤ delta))) db
  ]

  -- `Tx.IncrFloat`
  unfoldable pub incr_float : String → Float64 → Time → Time → Action Float64
  incr_float key delta t t' db = elim (to_float d (get key t db)) [
    | none ↦ raise value_type db
    | some x ↦
        (update key (d.stored (float (d.add_float x delta))) t' >> pure (d.add_float x delta)) db
  ]
