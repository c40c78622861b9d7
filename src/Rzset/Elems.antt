-- ===== src/Rzset/Elems.antt =====
-- The table `rzset` after `sqlAdd2`, through its unique index.
use redka.Base.{ℕ, suc, String, false, some, List, ◌≡◌, refl, All}
use mathlib.Core.Option
use redka.Table
use redka.Table.Put.{find-put, find_other-put, IsUnique-put, All-put}
use redka.Core.{Float64}
use redka.Schema.{ZsetRow, find_elem, same_pair, zset_column}
use redka.Schema.Valid.{same_pair_iff}
use redka.Rzset.{put_elem, max_rowid}

module _ (i : ℕ) (e : String) (x : Float64) (rows : List ZsetRow) where
  -- the row that is added if there is none
  abbrev added : ZsetRow
  added = record { rowid = suc (max_rowid rows); key_id = i; elem = e; score = x }

  abbrev changed : ZsetRow → ZsetRow
  changed r = record r { score = x }

  pub elem-put_elem :
      Option.map (λ (r : ZsetRow). r.score) (find_elem i e (put_elem i e x rows)) ≡ some x
  elem-put_elem =
      find-put same_pair same_pair_iff zset_column changed (λ r. refl) (i, e) added (λ r. r.score) x
        rows refl refl (λ r. refl)

  pub elem_other-put_elem :
      (j : ℕ) (g : String)
      → same_pair (i, e) (j, g) ≡ false
      → find_elem j g (put_elem i e x rows) ≡ find_elem j g rows
  elem_other-put_elem j g ne =
      find_other-put same_pair same_pair_iff zset_column changed (λ r. refl) (i, e) added (j, g)
        rows refl ne

  pub IsUnique-put_elem :
      Table.IsUnique same_pair zset_column rows
      → Table.IsUnique same_pair zset_column (put_elem i e x rows)
  IsUnique-put_elem u =
      IsUnique-put same_pair same_pair_iff zset_column changed (λ r. refl) (i, e) added rows refl u

  pub All-put_elem :
      (P : ℕ → Type 0)
      → All (λ r. P r.key_id) rows
      → P i
      → All (λ r. P r.key_id) (put_elem i e x rows)
  All-put_elem P o h =
      All-put same_pair same_pair_iff zset_column changed (λ r. refl) (i, e) added (λ r. P r.key_id)
        rows o (λ r p. p) h
