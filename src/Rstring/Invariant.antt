-- ===== src/Rstring/Invariant.antt =====
-- The operations of the string repository keep the tables valid.
use redka.Base.{
  ℕ, suc, ℤ, ◌+ℤ◌, wrap, String, Bool, true, false, not, Option, none, some, List, [], ◌∷◌, ◌==◌,
  if◌then◌else◌, names,
}
use redka.Core.{
  Result, Value, AnyValue, int, float, Driver, Float64, Time, Duration, value_type, is_value_type,
  to_int, to_float, key_exists,
}
use redka.Schema.Valid.{LeavesValid}
use redka.Sqlx.{pure, raise, ◌>>◌}
use redka.Sqlx.Keeps.{Keeps, pure-Keeps, then-Keeps, if-IsValid}
use redka.Rkey
use redka.Rstring.{
  get, set_value, update, set_expires, set_not_exists, set_exists, get_set, set_all, set_many,
  set_many_nx, incr, incr_float, all_values,
}
use redka.Rstring.Set.{set_value-IsValid}
use redka.Rstring.Incr.{update-IsValid}

set_value-Keeps :
    (key : String) (v : Option Value) (ttl : Duration) (t : Time) → Keeps (set_value key v ttl t)
set_value-Keeps key v ttl t db w = set_value-IsValid key v ttl t db w

update-Keeps : (key : String) (v : Option Value) (t : Time) → Keeps (update key v t)
update-Keeps key v t db w = update-IsValid key v t db w

module _ (d : Driver) where
  pub set_expires-Keeps :
      (key : String) (v : AnyValue) (ttl : Duration) (t : Time) → Keeps (set_expires d key v ttl t)
  unfolding set_expires
  set_expires-Keeps key v ttl t db w = rejected (is_value_type v)
    where
      rejected :
          (b : Bool)
          → LeavesValid ((if not b then raise value_type else set_value key (d.stored v) ttl t) db)
      rejected true = set_value-IsValid key (d.stored v) ttl t db w
      rejected false = w

  pub set_not_exists-Keeps :
      (key : String) (v : AnyValue) (ttl : Duration) (t t' : Time)
      → Keeps (set_not_exists d key v ttl t t')
  unfolding set_not_exists
  set_not_exists-Keeps key v ttl t t' db w = if-IsValid (not (is_value_type v)) _ _ w (
      if-IsValid (key_exists (Rkey.get key t db)) _ _ w (
        then-Keeps (set_value key (d.stored v) ttl t') (pure true)
          (set_value-Keeps key (d.stored v) ttl t') (pure-Keeps true) db w))

  pub set_exists-Keeps :
      (key : String) (v : AnyValue) (ttl : Duration) (t t' : Time)
      → Keeps (set_exists d key v ttl t t')
  unfolding set_exists
  set_exists-Keeps key v ttl t t' db w = if-IsValid (not (is_value_type v)) _ _ w (
      if-IsValid (not (key_exists (Rkey.get key t db))) _ _ w (
        then-Keeps (set_value key (d.stored v) ttl t') (pure true)
          (set_value-Keeps key (d.stored v) ttl t') (pure-Keeps true) db w))

  pub get_set-Keeps :
      (key : String) (v : AnyValue) (ttl : Duration) (t t' : Time)
      → Keeps (get_set d key v ttl t t')
  unfolding get_set
  get_set-Keeps key v ttl t t' db w = if-IsValid (not (is_value_type v)) _ _ w (
      then-Keeps (set_value key (d.stored v) ttl t') (pure (get key t db))
        (set_value-Keeps key (d.stored v) ttl t') (pure-Keeps (get key t db)) db w)

  set_all-Keeps :
      (items : List (String × AnyValue)) (times : ℕ → Time) → Keeps (set_all d items times)
  unfolding set_all
  set_all-Keeps [] times = pure-Keeps tt
  set_all-Keeps ((key, v) ∷ items) times =
      then-Keeps (set_value key _ _ _) _ (set_value-Keeps key _ _ _)
        (set_all-Keeps items (λ i. times (suc i)))

  pub set_many-Keeps :
      (items : List (String × AnyValue)) (times : ℕ → Time) → Keeps (set_many d items times)
  unfolding set_many
  set_many-Keeps items times db w = checked (all_values items)
    where
      checked :
          (b : Bool) → LeavesValid ((if not b then raise value_type else set_all d items times) db)
      checked true = set_all-Keeps items times db w
      checked false = w

  pub set_many_nx-Keeps :
      (items : List (String × AnyValue)) (t : Time) (times : ℕ → Time)
      → Keeps (set_many_nx d items t times)
  unfolding set_many_nx
  set_many_nx-Keeps items t times db w = if-IsValid (not (all_values items)) _ _ w (
      if-IsValid (not (Rkey.count (names items) t db == 0)) _ _ w (
        then-Keeps (set_all d items times) (pure true) (set_all-Keeps items times) (pure-Keeps true)
          db w))

  pub incr-Keeps : (key : String) (delta : ℤ) (t t' : Time) → Keeps (incr d key delta t t')
  unfolding incr
  incr-Keeps key delta t t' db w = read (to_int (get key t db))
    where
      read :
          (o : Option ℤ)
          → LeavesValid {A = Result ℤ} (elim o [
            | none ↦ raise value_type db
            | some n ↦
                (update key (d.stored (int (wrap (n +ℤ delta)))) t' >> pure (wrap (n +ℤ delta))) db
          ])
      read none = w
      read (some n) =
          then-Keeps (update key _ t') (pure (wrap (n +ℤ delta))) (update-Keeps key _ t')
            (pure-Keeps (wrap (n +ℤ delta))) db w

  pub incr_float-Keeps :
      (key : String) (delta : Float64) (t t' : Time) → Keeps (incr_float d key delta t t')
  unfolding incr_float
  incr_float-Keeps key delta t t' db w = read (to_float d (get key t db))
    where
      read :
          (o : Option Float64)
          → LeavesValid {A = Result Float64} (elim o [
            | none ↦ raise value_type db
            | some x ↦
                (update key (d.stored (float (d.add_float x delta))) t'
                    >> pure (d.add_float x delta))
                  db
          ])
      read none = w
      read (some x) =
          then-Keeps (update key _ t') (pure (d.add_float x delta)) (update-Keeps key _ t')
            (pure-Keeps (d.add_float x delta)) db w
