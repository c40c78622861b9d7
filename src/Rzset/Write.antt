-- ===== src/Rzset/Write.antt =====
-- The writes of the sorted set repository: what `add` and `Incr` leave in the tables.
use redka.Base.{
  ℕ, String, true, false, some, ◌≡◌, ◌≢◌, refl, arith, ==_iff, inl, inr, ap, ◌∙◌, Option-cases, sym,
}
use mathlib.Core.Option
use redka.Core.{Key, Float64, ok, err, key_type, Time, type_sorted_set, error_text}
use redka.Schema.{Db, ZsetRow, find_key, find_id, find_elem, same_pair, upsert_key}
use redka.Schema.Valid.{IsValid, owner, of_type}
use redka.Schema.View.{find_id-find_key}
use redka.Schema.Upsert.{
  IsUpserted, upserted, upsert_key-IsUpserted, upsert_key-mismatch, upsert_key-succeeds,
}
use redka.Sqlx.{typed_error}
use redka.Rzset.Elems.{elem-put_elem, elem_other-put_elem, IsUnique-put_elem, All-put_elem}
use redka.Rzset.{put_elem, set_key, set_change, put_key}

-- A row of an element for a key of the sorted set type keeps the tables valid.
put_elem-IsValid :
    (k : Key) (e : String) (x : Float64) (db : Db)
    → IsValid db
    → find_id k.id db.keys ≡ some k
    → k.type_id ≡ type_sorted_set
    → IsValid (record db { zsets = put_elem k.id e x db.zsets })
put_elem-IsValid k e x db w at typed = record {
  keys_unique = w.keys_unique;
  ids_unique = w.ids_unique;
  strings_unique = w.strings_unique;
  hashes_unique = w.hashes_unique;
  zsets_unique = IsUnique-put_elem k.id e x db.zsets w.zsets_unique;
  strings_owned = w.strings_owned;
  hashes_owned = w.hashes_owned;
  zsets_owned =
      All-put_elem k.id e x db.zsets (λ i. owner type_sorted_set db.keys i ≡ true) w.zsets_owned
        (ap (of_type type_sorted_set) at ∙ (==_iff k.type_id type_sorted_set).1 typed);
}

-- What a write of an element leaves: the name has the row `k`, which has the element with the
-- score; the other names keep their rows, and every row its other elements.
pub record IsStored (key : String) (k : Key) (e : String) (x : Float64) (db db' : Db) : Type 0 where
  pub valid : IsValid db'
  pub found : find_key key db'.keys ≡ some k
  pub score : Option.map (λ (z : ZsetRow). z.score) (find_elem k.id e db'.zsets) ≡ some x
  pub others : (j : String) → key ≢ j → find_key j db'.keys ≡ find_key j db.keys
  pub other_elems :
      (i : ℕ) (g : String)
      → same_pair (k.id, e) (i, g) ≡ false
      → find_elem i g db'.zsets ≡ find_elem i g db.zsets

-- the row of `rkey` that a write leaves under the name
abbrev pub stored_row : String → Time → Db → Key
stored_row key t db = upserted (set_key key t) (set_change t) db

-- the tables after the row of `rkey` is written and the element
abbrev pub with_elem : String → Time → String → Float64 → Db → Db → Db
with_elem key t e x db mid = record mid { zsets = put_elem (stored_row key t db).id e x mid.zsets }

module _ (key : String) (t : Time) (db : Db) (w : IsValid db) where
  row_type : (stored_row key t db).type_id ≡ type_sorted_set
  row_type = elim (Option-cases (find_key key db.keys)) [
    | inl free ↦ ground (arith, free)
    | inr (old, e) ↦ ground (arith, e)
  ]

  upserts :
      (mid : Db)
      → upsert_key (set_key key t) (set_change t) db ≡ ok mid
      → IsUpserted (set_key key t) (set_change t) db mid
  upserts mid h =
      upsert_key-IsUpserted (set_key key t) (set_change t) (λ k. refl) (λ k. refl) db w mid h

  pub with_elem-IsStored :
      (mid : Db) (e : String) (x : Float64)
      → upsert_key (set_key key t) (set_change t) db ≡ ok mid
      → IsStored key (stored_row key t db) e x db (with_elem key t e x db mid)
  with_elem-IsStored mid e x h =
      let u = upserts mid h in
      record {
        valid =
            put_elem-IsValid (stored_row key t db) e x mid u.valid
              (find_id-find_key key mid.keys (stored_row key t db) u.valid.ids_unique u.found)
              row_type;
        found = u.found;
        score = elem-put_elem (stored_row key t db).id e x mid.zsets;
        others = u.others;
        other_elems = λ i g ne.
            elem_other-put_elem (stored_row key t db).id e x mid.zsets i g ne
            ∙ ap (find_elem i g) u.zsets_same;
      }

  -- The first statement fails with `ErrKeyType` and changes nothing where the name has a row, live or
  -- expired, of another type.
  pub put_key-mismatch :
      (old : Key)
      → find_key key db.keys ≡ some old
      → old.type_id ≢ type_sorted_set
      → put_key key t db ≡ (err key_type, db)
  unfolding put_key typed_error error_text
  put_key-mismatch old e ne =
      let failed =
        upsert_key-mismatch (set_key key t) (set_change t) (λ k. refl) (λ k. refl) db w old e
          (λ p. ne (sym p)) in
      rw failed

  -- Elsewhere it leaves the row of the name, and the rows of the values as they are.
  pub put_key-fits :
      ((old : Key) → find_key key db.keys ≡ some old → old.type_id ≡ type_sorted_set)
      → (mid : Db) × (upsert_key (set_key key t) (set_change t) db ≡ ok mid)
        × (put_key key t db ≡ (ok tt, mid))
        × IsUpserted (set_key key t) (set_change t) db mid
  unfolding put_key
  put_key-fits fits =
      let (mid, h) =
        upsert_key-succeeds (set_key key t) (set_change t) (λ k. refl) (λ k. refl) db w
          (λ old e. sym (fits old e)) in
      (mid, h, rw h, upserts mid h)
