-- ===== src/Rstring/Write.antt =====
-- The writes of the string repository: what `set` and `update` leave in the tables.
use redka.Base.{
  All-map_if, All-append_one, ℕ, String, true, false, Option, none, some, List, [], ◌∷◌, ◌≡◌, ◌≢◌,
  refl, arith, ◌==◌, ==_iff, map_if, any, All, Bool-cases, inl, inr, ap, ◌∙◌, Option-cases, sym,
  subst,
}
use mathlib.Core.Option
use redka.Table
use redka.Table.{IsUnique-map_if, find-map_if, find-append, IsUnique-append_one}
use redka.Core.{Key, Value, Result, ok, err, key_type, type_string}
use redka.Schema.{Db, StringRow, find_key, find_id, find_string, upsert_key, null_error}
use redka.Schema.Valid.{IsValid, LeavesValid, owner, of_type}
use redka.Schema.View.{find_id-find_key}
use redka.Schema.Upsert.{
  IsUpserted, upserted, upsert_key-IsUpserted, upsert_key-mismatch, upsert_key-succeeds,
}
use redka.Sqlx.{Action, exec, typed, ◌>>◌, typed_error}
use redka.Rstring.{put_row, sql_put}

find_string-any :
    (i : ℕ) (ss : List StringRow) → any (λ s. s.key_id == i) ss ≡ false → find_string i ss ≡ none
find_string-any i [] h = refl
find_string-any i (s ∷ ss) h = ground (arith, find_string-any i ss)

find_string_hit :
    (i : ℕ) (v : Value) (ss : List StringRow)
    → any (λ s. s.key_id == i) ss ≡ true
    → Option.map
        (λ (s : StringRow). s.value)
        (find_string i (map_if (λ s. s.key_id == i) (λ s. record s { value = v }) ss))
      ≡ some v
find_string_hit i v [] h = cc
find_string_hit i v (s ∷ ss) h = ground (arith, find_string_hit i v ss)

find_string_miss :
    (i j : ℕ) (v : Value) (ss : List StringRow)
    → i ≢ j
    → find_string j (map_if (λ s. s.key_id == i) (λ s. record s { value = v }) ss)
      ≡ find_string j ss
find_string_miss i j v [] h = refl
find_string_miss i j v (s ∷ ss) h = ground (arith, find_string_miss i j v ss)

module _ (i : ℕ) (v : Value) (ss : List StringRow) where
  string-put_row : Option.map (λ (s : StringRow). s.value) (find_string i (put_row i v ss)) ≡ some v
  string-put_row = elim (Bool-cases (any (λ s. s.key_id == i) ss)) [
    | inl there ↦ rw there (find_string_hit i v ss there)
    | inr absent ↦ rw absent (
        rw (find-append ◌==◌ ==_iff (λ (s : StringRow). s.key_id) i ss)
          (rw (find_string-any i ss absent) (ground arith)))
  ]

  string_other-put_row : (j : ℕ) → i ≢ j → find_string j (put_row i v ss) ≡ find_string j ss
  string_other-put_row j ne = elim (Bool-cases (any (λ s. s.key_id == i) ss)) [
    | inl there ↦ rw there (find_string_miss i j v ss ne)
    | inr absent ↦
        rw absent (find-append ◌==◌ ==_iff (λ (s : StringRow). s.key_id) j ss _ ∙ ground arith)
  ]

  IsUnique-put_row :
      Table.IsUnique ◌==◌ (λ (s : StringRow). s.key_id) ss
      → Table.IsUnique ◌==◌ (λ (s : StringRow). s.key_id) (put_row i v ss)
  IsUnique-put_row u = elim (Bool-cases (any (λ s. s.key_id == i) ss)) [
    | inl there ↦
        rw there (IsUnique-map_if ◌==◌ ==_iff (λ (s : StringRow). s.key_id) _ _ (λ s. refl) ss u)
    | inr absent ↦ rw absent (
        IsUnique-append_one ◌==◌ ==_iff (λ (s : StringRow). s.key_id) ss _ u
          (find_string-any i ss absent))
  ]

All-put_row :
    (P : ℕ → Type 0) (i : ℕ) (v : Value) (ss : List StringRow)
    → All (λ s. P s.key_id) ss
    → P i
    → All (λ s. P s.key_id) (put_row i v ss)
All-put_row P i v ss o h = elim (Bool-cases (any (λ s. s.key_id == i) ss)) [
  | inl there ↦ rw there (
      All-map_if (λ (s : StringRow). P s.key_id) (λ s. s.key_id == i) (λ s. record s { value = v })
        ss (λ x y. y) o)
  | inr absent ↦ rw absent (All-append_one (λ (s : StringRow). P s.key_id) ss _ o h)
]

-- A string row for a key of the string type keeps the tables valid.
put_row-IsValid :
    (k : Key) (v : Value) (db : Db)
    → IsValid db
    → find_id k.id db.keys ≡ some k
    → k.type_id ≡ type_string
    → IsValid (record db { strings = put_row k.id v db.strings })
put_row-IsValid k v db w at typed = record {
  keys_unique = w.keys_unique;
  ids_unique = w.ids_unique;
  strings_unique = IsUnique-put_row k.id v db.strings w.strings_unique;
  hashes_unique = w.hashes_unique;
  zsets_unique = w.zsets_unique;
  strings_owned =
      All-put_row (λ i. owner type_string db.keys i ≡ true) k.id v db.strings w.strings_owned
        (ap (of_type type_string) at ∙ (==_iff k.type_id type_string).1 typed);
  hashes_owned = w.hashes_owned;
  zsets_owned = w.zsets_owned;
}

-- What a write of a string leaves: the name has the row `k`, with the value; the other names keep
-- their rows, and the rows their strings; the hashes are the same.
pub record IsStored (key : String) (k : Key) (v : Value) (db db' : Db) : Type 0 where
  pub valid : IsValid db'
  pub found : find_key key db'.keys ≡ some k
  pub value : Option.map (λ (s : StringRow). s.value) (find_string k.id db'.strings) ≡ some v
  pub others : (j : String) → key ≢ j → find_key j db'.keys ≡ find_key j db.keys
  pub other_strings : (i : ℕ) → k.id ≢ i → find_string i db'.strings ≡ find_string i db.strings
  pub hashes_same : db'.hashes ≡ db.hashes

-- The two statements of a write, for the row to insert and the change on conflict.
abbrev pub write : Key → (Key → Key) → Option Value → Action Unit
write new change o = typed (exec (upsert_key new change)) >> exec (sql_put new.key o)

module _ (new : Key) (change : Key → Key) (o : Option Value) (db : Db) (w : IsValid db)
    (ids : (k : Key) → (change k).id ≡ k.id) (named : (k : Key) → (change k).key ≡ k.key)
    (is_string : new.type_id ≡ type_string)
    (to_string : (k : Key) → (change k).type_id ≡ type_string) where
  upserted_type : (upserted new change db).type_id ≡ type_string
  upserted_type = elim (Option-cases (find_key new.key db.keys)) [
    | inl free ↦ ground (arith, free, is_string)
    | inr (old, f) ↦ ground (arith, f, to_string old)
  ]

  stored :
      (v : Value) (mid : Db)
      → upsert_key new change db ≡ ok mid
      → IsStored new.key
          (upserted new change db)
          v
          db
          (record mid { strings = put_row (upserted new change db).id v mid.strings })
  stored v mid h =
      let u : IsUpserted new change db mid =
        upsert_key-IsUpserted new change ids named db w mid h in
      let k = upserted new change db in
      record {
        valid =
            put_row-IsValid k v mid u.valid
              (find_id-find_key new.key mid.keys k u.valid.ids_unique u.found) (upserted_type);
        found = u.found;
        value = string-put_row k.id v mid.strings;
        others = u.others;
        other_strings = λ i ne.
            string_other-put_row k.id v mid.strings i ne ∙ ap (find_string i) u.strings_same;
        hashes_same = u.hashes_same;
      }

  -- A write succeeds unless the name has a row, live or expired, of another type; then it returns
  -- `ErrKeyType` and leaves the tables alone.
  pub write_mismatch :
      (old : Key)
      → find_key new.key db.keys ≡ some old
      → old.type_id ≢ type_string
      → write new change o db ≡ (err key_type, db)
  unfolding typed_error
  write_mismatch old f ne =
      let e =
        upsert_key-mismatch new change ids named db w old f (λ p. ne (sym p ∙ to_string old)) in
      rw e

  -- the null is refused after the first statement
  write_null :
      (mid : Db)
      → upsert_key new change db ≡ ok mid
      → o ≡ none
      → write new change o db ≡ (err null_error, mid)
  unfolding sql_put
  write_null mid h bound = rw bound (rw h)

  write_ok :
      (v : Value) (mid : Db)
      → upsert_key new change db ≡ ok mid
      → o ≡ some v
      → write new change o db
        ≡ (ok tt, record mid { strings = put_row (upserted new change db).id v mid.strings })
  unfolding sql_put
  write_ok v mid h bound =
      let u : IsUpserted new change db mid =
        upsert_key-IsUpserted new change ids named db w mid h in
      rw bound (rw h (rw (u.found, sql_put)))

  -- What a write does where the name has no row of another type.
  pub write-IsStored :
      (v : Value)
      → o ≡ some v
      → ((old : Key) → find_key new.key db.keys ≡ some old → old.type_id ≡ type_string)
      → ((write new change o db).0 ≡ ok tt)
        × IsStored new.key (upserted new change db) v db (write new change o db).1
  write-IsStored v bound fits =
      let (mid, h) =
        upsert_key-succeeds new change ids named db w (λ old f. to_string old ∙ sym (fits old f)) in
      let e = write_ok v mid h bound in
      (
        ap (λ (r : Result Unit × Db). r.0) e,
        subst (λ (r : Result Unit × Db). IsStored new.key (upserted new change db) v db r.1) (sym e)
            (stored v mid h),
      )

  valid_fits :
      ((old : Key) → find_key new.key db.keys ≡ some old → old.type_id ≡ type_string)
      → LeavesValid (write new change o db)
  valid_fits fits = elim (Option-cases o) [
    | inl null ↦
        let (mid, h) =
          upsert_key-succeeds new change ids named db w
            (λ old f. to_string old ∙ sym (fits old f)) in
        rw (write_null mid h null) (upsert_key-IsUpserted new change ids named db w mid h).valid
    | inr (v, bound) ↦ (write-IsStored v bound fits).1.valid
  ]

  -- A null is refused where the name has no row of another type.
  pub write-null :
      o ≡ none
      → ((old : Key) → find_key new.key db.keys ≡ some old → old.type_id ≡ type_string)
      → (write new change o db).0 ≡ err null_error
  write-null null fits =
      let (mid, h) =
        upsert_key-succeeds new change ids named db w (λ old f. to_string old ∙ sym (fits old f)) in
      ap (λ (r : Result Unit × Db). r.0) (write_null mid h null)

  -- Whatever a write does, it keeps the tables valid.
  pub write-IsValid : LeavesValid (write new change o db)
  write-IsValid = elim (Option-cases (find_key new.key db.keys)) [
    | inl free ↦ valid_fits (λ old f. cc (free, f))
    | inr (old, f) ↦ elim (Bool-cases (old.type_id == type_string)) [
      | inl same ↦ valid_fits (λ old' f'. ground (arith, f, f', same))
      | inr differ ↦
          rw (write_mismatch old f (λ p. cc (differ, (==_iff old.type_id type_string).1 p))) w
    ]
  ]
