-- ===== src/Schema/Upsert.antt =====
-- The statement `insert into rkey … on conflict (key) do update …` through the indexes.
use redka.Base.{
  String, true, false, none, some, [], ◌∷◌, ◌++◌, ◌≡◌, ◌≢◌, refl, arith, ◌==◌, str_eq, eq_iff,
  ==_iff, Bool-cases, inl, inr, ◌∙◌, Option-cases, sym, subst,
}
use redka.Table.{find-append}
use redka.Core.{Key, ok, err, sql, Error}
use redka.Schema.{Db, find_key, next_id, update_keys, upsert_key}
use redka.Schema.Valid.{IsValid, update_keys-IsValid, insert_key-IsValid}
use redka.Schema.View.{find_key-update_keys, key-find_key, find_key-find_id}

-- the row that the statement leaves under the name
abbrev pub upserted : Key → (Key → Key) → Db → Key
upserted new change db = elim (find_key new.key db.keys) [
  | none ↦ record new { id = next_id db.keys }
  | some old ↦ change old
]

pub record IsUpserted (new : Key) (change : Key → Key) (db db' : Db) : Type 0 where
  pub valid : IsValid db'
  pub found : find_key new.key db'.keys ≡ some (upserted new change db)
  pub others : (j : String) → new.key ≢ j → find_key j db'.keys ≡ find_key j db.keys
  pub strings_same : db'.strings ≡ db.strings
  pub hashes_same : db'.hashes ≡ db.hashes
  pub zsets_same : db'.zsets ≡ db.zsets

pub ok_injective : {A : Type 0} {a b : A} → ok a ≡ ok b → a ≡ b
ok_injective h = cc

pub ok_ne_err : {A : Type 0} {a : A} {e : Error} → ok a ≡ err e → ⊥
ok_ne_err h = cc

module _ (new : Key) (change : Key → Key) (ids : (k : Key) → (change k).id ≡ k.id)
    (named : (k : Key) → (change k).key ≡ k.key) (db : Db) (v : IsValid db) where
  -- a new name
  inserted :
      find_key new.key db.keys ≡ none
      → IsUpserted new change db
          (record db { keys = db.keys ++ record new { id = next_id db.keys } ∷ [] })
  inserted free = record {
    valid = insert_key-IsValid new db free v;
    found =
        find-append str_eq eq_iff (λ (k : Key). k.key) new.key db.keys _
        ∙ rw free (ground (arith, eq_iff new.key new.key));
    others = λ j ne.
        find-append str_eq eq_iff (λ (k : Key). k.key) j db.keys _
        ∙ ground (arith, eq_iff new.key j);
    strings_same = refl;
    hashes_same = refl;
    zsets_same = refl;
  }

  updated :
      (old : Key)
      → find_key new.key db.keys ≡ some old
      → (change old).type_id ≡ old.type_id
      → IsUpserted new change db (update_keys (λ k. str_eq k.key new.key) change db)
  unfolding update_keys
  updated old f typed = record {
    valid =
        update_keys-IsValid _ change db ids named
          (λ k at hit.
            let e : some k ≡ some old =
              sym (find_key-find_id k.id db.keys k v.keys_unique at)
              ∙ rw ((eq_iff k.key new.key).0 hit) f in
            ground (arith, e, typed))
          v;
    found =
        find_key-update_keys _ change new.key db named
        ∙ rw f (ground (arith, key-find_key new.key db.keys old f, eq_iff old.key new.key));
    others = λ j ne.
        find_key-update_keys _ change j db named ∙ elim (Option-cases (find_key j db.keys)) [
          | inl free ↦ rw free
          | inr (k, h) ↦ rw h (ground (arith, key-find_key j db.keys k h, eq_iff k.key new.key))
        ];
    strings_same = refl;
    hashes_same = refl;
    zsets_same = refl;
  }

  -- When the statement succeeds it leaves the row that it should, and the other names alone.
  pub upsert_key-IsUpserted :
      (db' : Db) → upsert_key new change db ≡ ok db' → IsUpserted new change db db'
  unfolding upsert_key
  upsert_key-IsUpserted db' h = elim (Option-cases (find_key new.key db.keys)) [
    | inl free ↦
        subst (IsUpserted new change db) (ok_injective (sym (rw (free, upsert_key)) ∙ h))
          (inserted free)
    | inr (old, f) ↦ elim (Bool-cases ((change old).type_id == old.type_id)) [
      | inl same ↦
          subst (IsUpserted new change db) (ok_injective (sym (rw (f, upsert_key) (rw same)) ∙ h))
            (updated old f ((==_iff _ _).0 same))
      | inr differ ↦
          let e : upsert_key new change db ≡ err (sql "key type mismatch") =
            rw (f, upsert_key) (rw differ) in
          absurd (ok_ne_err (sym h ∙ e))
    ]
  ]

  -- It fails exactly when the name has a row, expired or not, of another type.
  pub upsert_key-mismatch :
      (old : Key)
      → find_key new.key db.keys ≡ some old
      → (change old).type_id ≢ old.type_id
      → upsert_key new change db ≡ err (sql "key type mismatch")
  unfolding upsert_key
  upsert_key-mismatch old f ne =
      rw (f, upsert_key)
        (let differ : ((change old).type_id == old.type_id) ≡ false =
            ground (arith, ==_iff (change old).type_id old.type_id) in
          rw differ)

  -- It succeeds where the name has no row of another type.
  pub upsert_key-succeeds :
      ((old : Key) → find_key new.key db.keys ≡ some old → (change old).type_id ≡ old.type_id)
      → (mid : Db) × (upsert_key new change db ≡ ok mid)
  unfolding upsert_key
  upsert_key-succeeds fits = elim (Option-cases (find_key new.key db.keys)) [
    | inl free ↦ (
      record db { keys = db.keys ++ record new { id = next_id db.keys } ∷ [] },
      rw (free, upsert_key),
    )
    | inr (old, f) ↦
        let same : ((change old).type_id == old.type_id) ≡ true = (==_iff _ _).1 (fits old f) in
        (update_keys (λ k. str_eq k.key new.key) change db, rw (f, upsert_key) (rw same))
  ]
