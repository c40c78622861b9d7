-- ===== src/Rzset/Order.antt =====
-- `order by score, elem`: the rows of a set in their order.
use redka.Base.{
  ℕ, suc, String, Bool, true, ◌&&◌, Option, none, some, List, [], ◌∷◌, str_eq, if◌then◌else◌,
}
use redka.Schema.{ZsetRow}
use redka.Rzset.Driver.{SetDriver}

-- the order of a query, ascending or descending in both columns
pub data SortDir : Type 0 where
  asc desc : SortDir

-- insertion of a row before the first row that it is not behind
unfoldable pub insert_row : (ZsetRow → ZsetRow → Bool) → ZsetRow → List ZsetRow → List ZsetRow
insert_row le z [] = z ∷ []
insert_row le z (y ∷ ys) = let rest = insert_row le z ys in if le z y then z ∷ y ∷ ys else y ∷ rest

unfoldable pub sort_rows : (ZsetRow → ZsetRow → Bool) → List ZsetRow → List ZsetRow
unfolding insert_row
sort_rows le [] = []
sort_rows le (z ∷ zs) = insert_row le z (sort_rows le zs)

module _ (d : SetDriver) where
  -- `score asc, elem asc`
  unfoldable pub row_le : ZsetRow → ZsetRow → Bool
  row_le a b =
      d.score_le a.score b.score
      && (if d.score_le b.score a.score then d.elem_le a.elem b.elem else true)

  -- the order with its direction
  unfoldable pub dir_le : SortDir → ZsetRow → ZsetRow → Bool
  unfolding row_le
  dir_le asc a b = row_le a b
  dir_le desc a b = row_le b a

-- The number of rows before the first row of the element, with that row: `row_number() over w - 1`.
unfoldable pub ranked : ℕ → String → List ZsetRow → Option (ℕ × ZsetRow)
ranked n e [] = none
ranked n e (z ∷ zs) =
    let rest = ranked (suc n) e zs in if str_eq z.elem e then some (n, z) else rest
