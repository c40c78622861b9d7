-- ===== src/Rhash/Delete.antt =====
-- HDEL as a reader sees it.
use redka.Base.{
  All-keep, ℕ, ℤ, String, Bool, true, false, ◌&&◌, not, Option, none, some, List, [], ◌∷◌, ◌≡◌, ◌≢◌,
  refl, arith, str_eq, eq_iff, keep, guarded, if◌then◌else◌, Bool-cases, inl, inr, ap, ◌∙◌,
  Option-cases, sym,
}
use redka.Table.{find-keep, IsUnique-keep, col-find}
use redka.Core.{type_hash, Key, not_found, err, Time, unix_milli}
use redka.Schema.{Db, HashRow, live, find_key, find_field, same_pair, hash_column}
use redka.Schema.Valid.{owner, IsValid, LeavesValid, same_pair_iff}
use redka.Schema.View.{entry, first-eq-entry, ids_differ}
use redka.Rkey.{is_in}
use redka.Rhash.{get, delete, in_fields, found_value}
use redka.Rhash.View.{get-eq-field_at, field_at, field_of}

pub delete-IsValid :
    (key : String) (fs : List String) (t : Time) (db : Db)
    → IsValid db
    → LeavesValid (delete key fs t db)
unfolding delete
delete-IsValid key fs t db w = record {
  keys_unique = w.keys_unique;
  ids_unique = w.ids_unique;
  strings_unique = w.strings_unique;
  hashes_unique = IsUnique-keep same_pair same_pair_iff hash_column _ db.hashes w.hashes_unique;
  zsets_unique = w.zsets_unique;
  strings_owned = w.strings_owned;
  hashes_owned =
      All-keep (λ (h : HashRow). owner type_hash db.keys h.key_id ≡ true) _ db.hashes
        w.hashes_owned;
  zsets_owned = w.zsets_owned;
}

guarded_same :
    (p : HashRow → Bool) (o : Option HashRow)
    → ((h : HashRow) → o ≡ some h → p h ≡ true)
    → guarded p o ≡ o
guarded_same p none h = refl
guarded_same p (some r) h = rw (h r refl)

guarded-none :
    (p : HashRow → Bool) (o : Option HashRow)
    → ((h : HashRow) → o ≡ some h → p h ≡ false)
    → guarded p o ≡ none
guarded-none p none h = refl
guarded-none p (some r) h = rw (h r refl)

module _ (key : String) (fs : List String) (t : Time) (db : Db) (w : IsValid db) where
  -- the rows that the statement deletes
  abbrev gone : HashRow → Bool
  gone = in_fields (entry key (unix_milli t) db) fs

  delete-field :
      (i : ℕ) (g : String)
      → find_field i g (delete key fs t db).1.hashes
        ≡ guarded (λ h. not (gone h)) (find_field i g db.hashes)
  unfolding delete
  delete-field i g = rw (first-eq-entry key (unix_milli t) db w) (
      find-keep same_pair same_pair_iff hash_column (λ h. not (gone h)) (i, g) db.hashes
        w.hashes_unique)

  delete-keys : (delete key fs t db).1.keys ≡ db.keys
  unfolding delete
  delete-keys = refl

  column :
      (i : ℕ) (g : String) (h : HashRow)
      → find_field i g db.hashes ≡ some h
      → (h.key_id ≡ i) × (h.field ≡ g)
  column i g h e =
      let c = col-find same_pair same_pair_iff hash_column (i, g) db.hashes h e in
      (ap (λ (p : ℕ × String). p.0) c, ap (λ (p : ℕ × String). p.1) c)

  -- the row of a live key loses the given fields
  own_field :
      (k : Key) (g : String)
      → entry key (unix_milli t) db ≡ some k
      → guarded (λ h. not (gone h)) (find_field k.id g db.hashes)
        ≡ (if is_in fs g then none else find_field k.id g db.hashes)
  own_field k g e = elim (Bool-cases (is_in fs g)) [
    | inl given ↦ rw given (
        guarded-none _ (find_field k.id g db.hashes)
          (λ h at. let (i, f) = column k.id g h at in rw e (rw (f, given) (ground (arith, i)))))
    | inr spared ↦ rw spared (
        guarded_same _ (find_field k.id g db.hashes)
          (λ h at. let (i, f) = column k.id g h at in rw e (rw (f, spared) (ground (arith, i)))))
  ]

  own_name :
      (k : Key) (g : String) (now : ℤ)
      → entry key (unix_milli t) db ≡ some k
      → found_value (field_at key g now (delete key fs t db).1)
        ≡ (if is_in fs g then err not_found else found_value (field_at key g now db))
  own_name k g now e =
      let found : find_key key db.keys ≡ some k = ground (arith, e) in
      ap
        (λ ks.
          found_value (field_of g (delete key fs t db).1 (guarded (live now) (find_key key ks))))
        delete-keys
      ∙ rw found (elim (Bool-cases (live now k)) [
        | inl alive ↦
            rw alive (ap found_value (delete-field k.id g ∙ own_field k g e) ∙ ground arith)
        | inr dead ↦ rw dead (ground arith)
      ])

  other_name :
      (k : Key) (j g : String) (now : ℤ)
      → entry key (unix_milli t) db ≡ some k
      → key ≢ j
      → field_at j g now (delete key fs t db).1 ≡ field_at j g now db
  other_name k j g now e ne =
      let found : find_key key db.keys ≡ some k = ground (arith, e) in
      ap (λ ks. field_of g (delete key fs t db).1 (guarded (live now) (find_key j ks))) delete-keys
      ∙ elim (Option-cases (find_key j db.keys)) [
        | inl free ↦ rw free
        | inr (r, at) ↦ rw at (elim (Bool-cases (live now r)) [
          | inl alive ↦ rw alive (
              delete-field r.id g
              ∙ guarded_same _ (find_field r.id g db.hashes) (λ h there.
                let (i, f) = column r.id g h there in
                rw e (ground (arith, i, ids_differ db key j k r w found at ne))))
          | inr dead ↦ rw dead
        ])
      ]

keep_all : (hs : List HashRow) → keep (λ h. true) hs ≡ hs
keep_all [] = refl
keep_all (h ∷ hs) = rw (keep_all hs)

keep_none : (hs : List HashRow) → keep (λ h. false) hs ≡ []
keep_none [] = refl
keep_none (h ∷ hs) = keep_none hs

-- HDEL of a name with a live key, on valid tables: the tables stay valid, and afterwards `Get`
-- finds none of the given fields of the name, and every other field of every name as before.
pub delete_fields :
    (key : String) (fs : List String) (t : Time) (db : Db) (k : Key)
    → IsValid db
    → entry key (unix_milli t) db ≡ some k
    → LeavesValid (delete key fs t db)
      × ((j g : String) (now : Time)
          → get j g now (delete key fs t db).1
            ≡ (if str_eq key j && is_in fs g then err not_found else get j g now db))
delete_fields key fs t db k w e =
    let v = delete-IsValid key fs t db w in
    (
      v,
      λ j g now. get-eq-field_at j g now _ v ∙ elim (Bool-cases (str_eq key j)) [
        | inl same ↦ rw same (
            let q : key ≡ j = (eq_iff key j).0 same in
            ap (λ n. found_value (field_at n g (unix_milli now) (delete key fs t db).1)) (sym q)
            ∙ own_name key fs t db w k g (unix_milli now) e
            ∙ ap (λ r. if is_in fs g then err not_found else r)
                (ap (λ n. found_value (field_at n g (unix_milli now) db)) q
                  ∙ sym (get-eq-field_at j g now db w)))
        | inr other ↦ rw other (
            ap found_value (
              other_name key fs t db w k j g (unix_milli now) e
                (λ p. cc (other, (eq_iff key j).1 p)))
            ∙ sym (get-eq-field_at j g now db w))
      ],
    )

-- HDEL of a name that has no live key, on valid tables, counts and changes nothing.
pub delete_fields_missing :
    (key : String) (fs : List String) (t : Time) (db : Db)
    → IsValid db
    → entry key (unix_milli t) db ≡ none
    → delete key fs t db ≡ (0, db)
unfolding delete
delete_fields_missing key fs t db w e =
    rw (first-eq-entry key (unix_milli t) db w ∙ e) (rw (keep_all db.hashes, keep_none db.hashes))
