-- ===== src/Rzset/Stored.antt =====
-- `store` of internal/rzset/inter.go and union.go keeps the tables valid, and fails on a name that is
-- not free.
use redka.Base.{
  ℕ, suc, String, Bool, true, false, ◌&&◌, Option, none, some, List, [], ◌∷◌, ◌++◌, ◌≡◌, refl,
  arith, ◌==◌, ==_iff, All, length, Bool-cases, Option-cases, inl, inr, ap, ◌∙◌, sym, subst,
}
use redka.Table
use redka.Table.{find-append, find-keep}
use redka.Core.{Key, key_type, error_text, err, Time, unix_milli, type_sorted_set}
use redka.Schema.{
  Db, ZsetRow, live, find_key, find_id, find_elem, next_id, same_pair, zset_column, delete_keys,
}
use redka.Schema.Valid.{
  IsValid, LeavesValid, owner, of_type, find_id-next_id, insert_key-IsValid, same_pair_iff,
}
use redka.Schema.View.{find_key-delete_keys}
use redka.Sqlx.{exec, typed, typed_error, ◌>>◌}
use redka.Sqlx.Keeps.{Keeps}
use redka.Rkey.{among, delete_type}
use redka.Rkey.Invariant.{delete_type-IsValid}
use redka.Rzset.Driver.{SetDriver}
use redka.Rzset.Order.{asc, sort_rows, dir_le}
use redka.Rzset.{set_key}
use redka.Rzset.Combine.{
  Operation, CombineCmd, elems_in, scored, combined, sources, stored_rows, sql_insert_key,
  sql_store, insert_rows, store,
}
use redka.Rzset.Sorted.{ElemsUnique, find_row, sort-ElemsUnique}
use redka.Rzset.Rank.{dir_total, dir_trans, dir_antisym}
use redka.Rzset.Store.{scored-ElemsUnique, elems_in-Distinct, some_eq, none_ne}

-- the rows of the result have different elements
pub combined-ElemsUnique :
    (d : SetDriver) (op : Operation) (c : CombineCmd) (t : Time) (db : Db) (zs : List ZsetRow)
    → combined d op c t db ≡ some zs
    → ElemsUnique zs
unfolding combined
combined-ElemsUnique d op c t db zs h =
    let rows = sources c.keys (unix_milli t) db in
    let es = elems_in op (length c.keys) rows in
    elim (Option-cases (scored d c.aggregate es rows)) [
      | inl null ↦ absurd (none_ne (sym (rw null) ∙ h))
      | inr (ws, e) ↦
          let q : some (sort_rows (dir_le d asc) ws) ≡ some zs = sym (rw e) ∙ h in
          subst ElemsUnique (some_eq q) (
            sort-ElemsUnique (dir_le d asc) (dir_total d asc) (dir_trans d asc) (dir_antisym d asc)
              ws
              (scored-ElemsUnique d c.aggregate rows es ws e
                (elems_in-Distinct op (length c.keys) rows)))
    ]

module _ (d : SetDriver) (i : ℕ) where
  stored : ℕ → List ZsetRow → List ZsetRow
  stored r zs = stored_rows d r i zs

  find-stored_own :
      (r : ℕ) (e : String) (zs : List ZsetRow)
      → find_row e zs ≡ none
      → find_elem i e (stored_rows d r i zs) ≡ none
  unfolding stored_rows
  find-stored_own r e [] h = refl
  find-stored_own r e (z ∷ zs) h = ground (arith, find-stored_own (suc r) e zs)

  find-stored_other :
      (r j : ℕ) (e : String) (zs : List ZsetRow)
      → (j == i) ≡ false
      → find_elem j e (stored_rows d r i zs) ≡ none
  unfolding stored_rows
  find-stored_other r j e [] h = refl
  find-stored_other r j e (z ∷ zs) h = ground (arith, find-stored_other (suc r) j e zs)

  stored-IsUnique :
      (r : ℕ) (zs : List ZsetRow)
      → ElemsUnique zs
      → Table.IsUnique same_pair zset_column (stored_rows d r i zs)
  unfolding stored_rows
  stored-IsUnique r [] u = tt
  stored-IsUnique r (z ∷ zs) u =
      (find-stored_own (suc r) z.elem zs u.0, stored-IsUnique (suc r) zs u.1)

  append-IsUnique :
      (xs zs : List ZsetRow) (r : ℕ)
      → Table.IsUnique same_pair zset_column xs
      → All (λ x. (x.key_id == i) ≡ false) xs
      → ElemsUnique zs
      → Table.IsUnique same_pair zset_column (xs ++ stored_rows d r i zs)
  append-IsUnique [] zs r u o uz = stored-IsUnique r zs uz
  append-IsUnique (x ∷ xs) zs r u o uz = (
    find-append same_pair same_pair_iff zset_column (zset_column x) xs (stored_rows d r i zs)
        ∙ rw u.0 (find-stored_other r x.key_id x.elem zs o.0),
    append-IsUnique xs zs r u.1 o.1 uz,
  )

  append-owned :
      (P : ℕ → Type 0) (xs zs : List ZsetRow) (r : ℕ)
      → All (λ x. P x.key_id) xs
      → P i
      → All (λ x. P x.key_id) (xs ++ stored_rows d r i zs)
  unfolding stored_rows
  append-owned P [] [] r o h = tt
  append-owned P [] (z ∷ zs) r o h = (h, append-owned P [] zs (suc r) tt h)
  append-owned P (x ∷ xs) zs r o h = (o.0, append-owned P xs zs r o.1 h)

  -- no row belongs to an id that has no key
  unowned :
      (ks : List Key) (xs : List ZsetRow)
      → find_id i ks ≡ none
      → All (λ x. owner type_sorted_set ks x.key_id ≡ true) xs
      → All (λ x. (x.key_id == i) ≡ false) xs
  unowned ks [] h o = tt
  unowned ks (x ∷ xs) h o = (
    elim (Bool-cases (x.key_id == i)) [
      | inr differ ↦ differ
      | inl same ↦
          let e : owner type_sorted_set ks x.key_id ≡ owner type_sorted_set ks i =
            ap (owner type_sorted_set ks) ((==_iff x.key_id i).0 same) in
          cc (o.0, e, ap (of_type type_sorted_set) h)
    ],
    unowned ks xs h o.1,
  )

module _ (d : SetDriver) (dest : String) (t : Time) (db : Db) (w : IsValid db) where
  -- the tables after the first insertion
  abbrev with_key : Db
  with_key = record db { keys = db.keys ++ record (set_key dest t) { id = next_id db.keys } ∷ [] }

  new_owner : owner type_sorted_set with_key.keys (next_id db.keys) ≡ true
  new_owner =
      ap (of_type type_sorted_set)
        (find-append ◌==◌ ==_iff (λ (k : Key). k.id) (next_id db.keys) db.keys _)
      ∙ rw (find_id-next_id db.keys) (ground arith)

  insert_rows-IsValid :
      (o : Option (List ZsetRow))
      → find_key dest db.keys ≡ none
      → ((zs : List ZsetRow) → o ≡ some zs → ElemsUnique zs)
      → LeavesValid (insert_rows d (next_id db.keys) o with_key)
  insert_rows-IsValid none free u = insert_key-IsValid (set_key dest t) db free w
  insert_rows-IsValid (some zs) free u =
      let v = insert_key-IsValid (set_key dest t) db free w in
      record {
        keys_unique = v.keys_unique;
        ids_unique = v.ids_unique;
        strings_unique = v.strings_unique;
        hashes_unique = v.hashes_unique;
        zsets_unique =
            append-IsUnique d (next_id db.keys) db.zsets zs _ w.zsets_unique
              (unowned d (next_id db.keys) db.keys db.zsets (find_id-next_id db.keys) w.zsets_owned)
              (u zs refl);
        strings_owned = v.strings_owned;
        hashes_owned = v.hashes_owned;
        zsets_owned =
            append-owned d (next_id db.keys) (λ i. owner type_sorted_set with_key.keys i ≡ true)
              db.zsets zs _ v.zsets_owned new_owner;
      }

module _ (d : SetDriver) (op : Operation) (c : CombineCmd) (t t' : Time) where
  stores :
      (db : Db)
      → IsValid db
      → LeavesValid
          ((typed (exec (sql_insert_key d c.dest t')) >> sql_store d op c (next_id db.keys) t') db)
  unfolding sql_insert_key sql_store
  stores db w = elim (Option-cases (find_key c.dest db.keys)) [
    | inr (k, taken) ↦ rw (taken, sql_insert_key) w
    | inl free ↦
        rw (free, sql_insert_key)
          (insert_rows-IsValid d c.dest t' db w (combined d op c t' (with_key d c.dest t' db w))
            free (combined-ElemsUnique d op c t' (with_key d c.dest t' db w)))
  ]

  pub store-Keeps : Keeps (store d op c t t')
  unfolding store
  store-Keeps db w = stores _ (delete_type-IsValid db w type_sorted_set (c.dest ∷ []) t)

  taken-err :
      (db : Db) (old : Key)
      → find_key c.dest db.keys ≡ some old
      → ((typed (exec (sql_insert_key d c.dest t')) >> sql_store d op c (next_id db.keys) t') db).0
        ≡ err key_type
  unfolding sql_insert_key typed_error error_text
  taken-err db old e = rw (e, sql_insert_key)

  -- `InterStore` and `UnionStore` return `ErrKeyType` where, on valid tables, the destination has a row
  -- that is not a live sorted set, also where that row is a sorted set that has expired and has not
  -- been purged: the deletion before the insertion spares it.
  pub store-taken :
      (db : Db) (old : Key)
      → IsValid db
      → find_key c.dest db.keys ≡ some old
      → (live (unix_milli t) old && (old.type_id == type_sorted_set)) ≡ false
      → (store d op c t t' db).0 ≡ err key_type
  unfolding store delete_type
  store-taken db old w e spared =
      let p : Key → Bool =
        λ k. among (c.dest ∷ []) (unix_milli t) k && (k.type_id == type_sorted_set) in
      let kept : p old ≡ false = ground (arith, spared) in
      taken-err (delete_keys p db) old (find_key-delete_keys p db w c.dest ∙ rw e (rw kept))
