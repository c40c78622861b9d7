-- ===== src/Rhash/Fields.antt =====
-- The table `rhash` after `sqlSet2`, through its unique index.
use redka.Base.{ℕ, suc, String, false, some, List, ◌≡◌, refl, All}
use mathlib.Core.Option
use redka.Table
use redka.Table.Put.{find-put, find_other-put, IsUnique-put, All-put}
use redka.Core.{Value}
use redka.Schema.{HashRow, find_field, same_pair, hash_column}
use redka.Schema.Valid.{same_pair_iff}
use redka.Rhash.{put_field, max_rowid}

module _ (i : ℕ) (f : String) (v : Value) (rows : List HashRow) where
  -- the row that is added if there is none
  abbrev added : HashRow
  added = record { rowid = suc (max_rowid rows); key_id = i; field = f; value = v }

  abbrev changed : HashRow → HashRow
  changed r = record r { value = v }

  pub field-put_field :
      Option.map (λ (r : HashRow). r.value) (find_field i f (put_field i f v rows)) ≡ some v
  field-put_field =
      find-put same_pair same_pair_iff hash_column changed (λ r. refl) (i, f) added (λ r. r.value) v
        rows refl refl (λ r. refl)

  pub field_other-put_field :
      (j : ℕ) (g : String)
      → same_pair (i, f) (j, g) ≡ false
      → find_field j g (put_field i f v rows) ≡ find_field j g rows
  field_other-put_field j g ne =
      find_other-put same_pair same_pair_iff hash_column changed (λ r. refl) (i, f) added (j, g)
        rows refl ne

  pub IsUnique-put_field :
      Table.IsUnique same_pair hash_column rows
      → Table.IsUnique same_pair hash_column (put_field i f v rows)
  IsUnique-put_field u =
      IsUnique-put same_pair same_pair_iff hash_column changed (λ r. refl) (i, f) added rows refl u

  pub All-put_field :
      (P : ℕ → Type 0)
      → All (λ r. P r.key_id) rows
      → P i
      → All (λ r. P r.key_id) (put_field i f v rows)
  All-put_field P o h =
      All-put same_pair same_pair_iff hash_column changed (λ r. refl) (i, f) added (λ r. P r.key_id)
        rows o (λ r p. p) h
