-- ===== src/Rzset/Driver.antt =====
-- What the sorted set repository relies on outside the repository: SQLite's values and its order.
use redka.Base.{String, Bool, true, ◌||◌, Option, List, ◌≡◌}
use redka.Core.{Value, AnyValue, Float64}

-- `sqlx.Sum`, `sqlx.Min` and `sqlx.Max`
pub data Aggregate : Type 0 where
  sum min max : Aggregate

-- A value in the column `elem` is a text that stands for it: two values have the same text if and
-- only if SQLite takes them for equal. `none` is SQLite's null, which it makes of a NaN and of a nil
-- byte slice.
pub record SetDriver : Type 0 where
  pub elem_code : AnyValue → Option String
  -- the bytes that a query reads back
  pub elem_bytes : String → Value
  pub elem_glob : String → String → Bool
  pub score_of : Float64 → Option Float64
  pub add_score : Float64 → Float64 → Option Float64
  pub aggregate : Aggregate → List Float64 → Option Float64
  -- the order of elements and of scores, and the laws of an order
  pub elem_le : String → String → Bool
  pub score_le : Float64 → Float64 → Bool
  pub elem_total : (a b : String) → (elem_le a b || elem_le b a) ≡ true
  pub elem_trans : (a b c : String) → elem_le a b ≡ true → elem_le b c ≡ true → elem_le a c ≡ true
  pub elem_antisym : (a b : String) → elem_le a b ≡ true → elem_le b a ≡ true → a ≡ b
  pub score_total : (x y : Float64) → (score_le x y || score_le y x) ≡ true
  pub score_trans :
      (x y z : Float64) → score_le x y ≡ true → score_le y z ≡ true → score_le x z ≡ true
