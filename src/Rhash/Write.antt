-- ===== src/Rhash/Write.antt =====
-- The write of the hash repository: what `set` leaves in the tables.
use redka.Base.{
  ℕ, String, true, false, Option, none, some, ◌≡◌, ◌≢◌, refl, arith, ◌==◌, ==_iff, Bool-cases, inl,
  inr, ap, ◌∙◌, Option-cases, sym, subst,
}
use mathlib.Core.Option
use redka.Core.{Key, Value, Result, ok, err, key_type, Time, type_hash, error_text}
use redka.Schema.{Db, HashRow, find_key, find_id, find_field, same_pair, upsert_key, null_error}
use redka.Schema.Valid.{IsValid, LeavesValid, owner, of_type}
use redka.Schema.View.{find_id-find_key}
use redka.Schema.Upsert.{
  IsUpserted, upserted, upsert_key-IsUpserted, upsert_key-mismatch, upsert_key-succeeds,
}
use redka.Sqlx.{typed_error}
use redka.Rhash.Fields.{field-put_field, field_other-put_field, IsUnique-put_field, All-put_field}
use redka.Rhash.{put_field, sql_put, hash_key, hash_change, set_value}

-- A hash row for a key of the hash type keeps the tables valid.
put_field-IsValid :
    (k : Key) (f : String) (v : Value) (db : Db)
    → IsValid db
    → find_id k.id db.keys ≡ some k
    → k.type_id ≡ type_hash
    → IsValid (record db { hashes = put_field k.id f v db.hashes })
put_field-IsValid k f v db w at typed = record {
  keys_unique = w.keys_unique;
  ids_unique = w.ids_unique;
  strings_unique = w.strings_unique;
  hashes_unique = IsUnique-put_field k.id f v db.hashes w.hashes_unique;
  zsets_unique = w.zsets_unique;
  strings_owned = w.strings_owned;
  hashes_owned =
      All-put_field k.id f v db.hashes (λ i. owner type_hash db.keys i ≡ true) w.hashes_owned
        (ap (of_type type_hash) at ∙ (==_iff k.type_id type_hash).1 typed);
  zsets_owned = w.zsets_owned;
}

-- What a write of a field leaves: the name has the row `k`, which has the field with the value;
-- the other names keep their rows, and every row its other fields; the strings are the same.
pub record IsStored (key : String) (k : Key) (f : String) (v : Value) (db db' : Db) : Type 0 where
  pub valid : IsValid db'
  pub found : find_key key db'.keys ≡ some k
  pub value : Option.map (λ (h : HashRow). h.value) (find_field k.id f db'.hashes) ≡ some v
  pub others : (j : String) → key ≢ j → find_key j db'.keys ≡ find_key j db.keys
  pub other_fields :
      (i : ℕ) (g : String)
      → same_pair (k.id, f) (i, g) ≡ false
      → find_field i g db'.hashes ≡ find_field i g db.hashes
  pub strings_same : db'.strings ≡ db.strings

-- the row of `rkey` that a write leaves under the name
abbrev pub stored_row : String → Time → Db → Key
stored_row key t db = upserted (hash_key key t) (hash_change t) db

module _ (key : String) (f : String) (o : Option Value) (t : Time) (db : Db) (w : IsValid db) where
  row_type : (stored_row key t db).type_id ≡ type_hash
  row_type = elim (Option-cases (find_key key db.keys)) [
    | inl free ↦ ground (arith, free)
    | inr (old, e) ↦ ground (arith, e)
  ]

  upserts :
      (mid : Db)
      → upsert_key (hash_key key t) (hash_change t) db ≡ ok mid
      → IsUpserted (hash_key key t) (hash_change t) db mid
  upserts mid h =
      upsert_key-IsUpserted (hash_key key t) (hash_change t) (λ k. refl) (λ k. refl) db w mid h

  stored :
      (v : Value) (mid : Db)
      → upsert_key (hash_key key t) (hash_change t) db ≡ ok mid
      → IsStored key
          (stored_row key t db)
          f
          v
          db
          (record mid { hashes = put_field (stored_row key t db).id f v mid.hashes })
  stored v mid h =
      let u = upserts mid h in
      record {
        valid =
            put_field-IsValid (stored_row key t db) f v mid u.valid
              (find_id-find_key key mid.keys (stored_row key t db) u.valid.ids_unique u.found)
              row_type;
        found = u.found;
        value = field-put_field (stored_row key t db).id f v mid.hashes;
        others = u.others;
        other_fields = λ i g ne.
            field_other-put_field (stored_row key t db).id f v mid.hashes i g ne
            ∙ ap (find_field i g) u.hashes_same;
        strings_same = u.strings_same;
      }

  -- The write returns `ErrKeyType` and changes nothing where the name has a row, live or expired, of
  -- another type.
  pub set_value-mismatch :
      (old : Key)
      → find_key key db.keys ≡ some old
      → old.type_id ≢ type_hash
      → set_value key f o t db ≡ (err key_type, db)
  unfolding set_value typed_error error_text
  set_value-mismatch old e ne =
      let failed =
        upsert_key-mismatch (hash_key key t) (hash_change t) (λ k. refl) (λ k. refl) db w old e
          (λ p. ne (sym p)) in
      rw failed

  -- the null is refused after the first statement
  set_value_null :
      (mid : Db)
      → upsert_key (hash_key key t) (hash_change t) db ≡ ok mid
      → o ≡ none
      → set_value key f o t db ≡ (err null_error, mid)
  unfolding set_value sql_put
  set_value_null mid h bound = rw bound (rw h)

  set_value-eq :
      (v : Value) (mid : Db)
      → upsert_key (hash_key key t) (hash_change t) db ≡ ok mid
      → o ≡ some v
      → set_value key f o t db
        ≡ (ok tt, record mid { hashes = put_field (stored_row key t db).id f v mid.hashes })
  unfolding set_value sql_put
  set_value-eq v mid h bound = let u = upserts mid h in rw bound (rw h (rw (u.found, sql_put)))

  -- Elsewhere it stores the field.
  pub set_value-IsStored :
      (v : Value)
      → o ≡ some v
      → ((old : Key) → find_key key db.keys ≡ some old → old.type_id ≡ type_hash)
      → ((set_value key f o t db).0 ≡ ok tt)
        × IsStored key (stored_row key t db) f v db (set_value key f o t db).1
  set_value-IsStored v bound fits =
      let (mid, h) =
        upsert_key-succeeds (hash_key key t) (hash_change t) (λ k. refl) (λ k. refl) db w
          (λ old e. sym (fits old e)) in
      let e = set_value-eq v mid h bound in
      (
        ap (λ (r : Result Unit × Db). r.0) e,
        subst (λ (r : Result Unit × Db). IsStored key (stored_row key t db) f v db r.1) (sym e)
            (stored v mid h),
      )

  valid_fits :
      ((old : Key) → find_key key db.keys ≡ some old → old.type_id ≡ type_hash)
      → LeavesValid (set_value key f o t db)
  valid_fits fits = elim (Option-cases o) [
    | inl null ↦
        let (mid, h) =
          upsert_key-succeeds (hash_key key t) (hash_change t) (λ k. refl) (λ k. refl) db w
            (λ old e. sym (fits old e)) in
        rw (set_value_null mid h null) (upserts mid h).valid
    | inr (v, bound) ↦ (set_value-IsStored v bound fits).1.valid
  ]

  -- A null is refused there.
  pub set_value-null :
      o ≡ none
      → ((old : Key) → find_key key db.keys ≡ some old → old.type_id ≡ type_hash)
      → (set_value key f o t db).0 ≡ err null_error
  set_value-null null fits =
      let (mid, h) =
        upsert_key-succeeds (hash_key key t) (hash_change t) (λ k. refl) (λ k. refl) db w
          (λ old e. sym (fits old e)) in
      ap (λ (r : Result Unit × Db). r.0) (set_value_null mid h null)

  -- Whatever it returns, the tables stay valid.
  pub set_value-IsValid : LeavesValid (set_value key f o t db)
  set_value-IsValid = elim (Option-cases (find_key key db.keys)) [
    | inl free ↦ valid_fits (λ old e. cc (free, e))
    | inr (old, e) ↦ elim (Bool-cases (old.type_id == type_hash)) [
      | inl same ↦ valid_fits (λ old' e'. ground (arith, e, e', same))
      | inr differ ↦
          rw (set_value-mismatch old e (λ p. cc (differ, (==_iff old.type_id type_hash).1 p))) w
    ]
  ]
