-- ===== src/Rhash/Invariant.antt =====
-- The operations of the hash repository keep the tables valid.
use redka.Base.{
  ℕ, suc, ◌-◌, ℤ, ◌+ℤ◌, wrap, String, true, not, Option, none, some, List, [], ◌∷◌, ◌==◌, length,
  names,
}
use redka.Core.{
  Result, Value, AnyValue, int, float, Driver, Float64, Time, is_value_type, to_int, to_float,
  value_type,
}
use redka.Schema.Valid.{LeavesValid}
use redka.Sqlx.{pure, raise, ◌>>◌}
use redka.Sqlx.Keeps.{Keeps, pure-Keeps, then-Keeps, if-IsValid}
use redka.Rstring.{all_values}
use redka.Rhash.{
  get, count, exists, set_value, set, set_not_exists, set_all, set_many, incr, incr_float, or_nil,
}
use redka.Rhash.Write.{set_value-IsValid}

set_value-Keeps : (key f : String) (v : Option Value) (t : Time) → Keeps (set_value key f v t)
set_value-Keeps key f v t db w = set_value-IsValid key f v t db w

module _ (d : Driver) where
  pub set-Keeps : (key f : String) (v : AnyValue) (t t' : Time) → Keeps (set d key f v t t')
  unfolding set
  set-Keeps key f v t t' db w = if-IsValid (not (is_value_type v)) _ _ w (
      then-Keeps (set_value key f (d.stored v) t') (pure (count key (f ∷ []) t db == 0))
        (set_value-Keeps key f (d.stored v) t') (pure-Keeps (count key (f ∷ []) t db == 0)) db w)

  pub set_not_exists-Keeps :
      (key f : String) (v : AnyValue) (t t' : Time) → Keeps (set_not_exists d key f v t t')
  unfolding set_not_exists
  set_not_exists-Keeps key f v t t' db w = if-IsValid (not (is_value_type v)) _ _ w (
      if-IsValid (exists key f t db) _ _ w (
        then-Keeps (set_value key f (d.stored v) t') (pure true)
          (set_value-Keeps key f (d.stored v) t') (pure-Keeps true) db w))

  set_all-Keeps :
      (key : String) (items : List (String × AnyValue)) (times : ℕ → Time)
      → Keeps (set_all d key items times)
  unfolding set_all
  set_all-Keeps key [] times = pure-Keeps tt
  set_all-Keeps key ((f, v) ∷ items) times =
      then-Keeps (set_value key f _ _) _ (set_value-Keeps key f _ _)
        (set_all-Keeps key items (λ i. times (suc i)))

  pub set_many-Keeps :
      (key : String) (items : List (String × AnyValue)) (t : Time) (times : ℕ → Time)
      → Keeps (set_many d key items t times)
  unfolding set_many
  set_many-Keeps key items t times db w =
      let made = length items - count key (names items) t db in
      if-IsValid (not (all_values items)) _ _ w (
        then-Keeps (set_all d key items times) (pure made) (set_all-Keeps key items times)
          (pure-Keeps made) db w)

  pub incr-Keeps : (key f : String) (delta : ℤ) (t t' : Time) → Keeps (incr d key f delta t t')
  unfolding incr
  incr-Keeps key f delta t t' db w = read (to_int (or_nil (get key f t db)))
    where
      read :
          (o : Option ℤ)
          → LeavesValid {A = Result ℤ} (elim o [
            | none ↦ raise value_type db
            | some n ↦
                (set_value key f (d.stored (int (wrap (n +ℤ delta)))) t'
                    >> pure (wrap (n +ℤ delta)))
                  db
          ])
      read none = w
      read (some n) =
          then-Keeps (set_value key f _ t') (pure (wrap (n +ℤ delta))) (set_value-Keeps key f _ t')
            (pure-Keeps (wrap (n +ℤ delta))) db w

  pub incr_float-Keeps :
      (key f : String) (delta : Float64) (t t' : Time) → Keeps (incr_float d key f delta t t')
  unfolding incr_float
  incr_float-Keeps key f delta t t' db w = read (to_float d (or_nil (get key f t db)))
    where
      read :
          (o : Option Float64)
          → LeavesValid {A = Result Float64} (elim o [
            | none ↦ raise value_type db
            | some x ↦
                (set_value key f (d.stored (float (d.add_float x delta))) t'
                    >> pure (d.add_float x delta))
                  db
          ])
      read none = w
      read (some x) =
          then-Keeps (set_value key f _ t') (pure (d.add_float x delta))
            (set_value-Keeps key f _ t') (pure-Keeps (d.add_float x delta)) db w
