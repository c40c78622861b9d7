-- ===== src/Rkey/Rename.antt =====
-- `Tx.Rename` and `Tx.RenameNotExists` on every branch.
use redka.Base.{
  ℤ, String, true, false, none, some, [], ◌∷◌, ◌≡◌, ◌≢◌, refl, arith, str_eq, eq_iff, if◌then◌else◌,
  Bool-cases, inl, inr, ◌∙◌, Option-cases, sym,
}
use redka.Core.{Key, no_key, key_exists, ok, err, not_found, Time, unix_milli}
use redka.Schema.{Db, live, find_key, find_string, find_field, find_elem, update_keys}
use redka.Schema.Valid.{IsValid, LeavesValid, delete_keys-IsValid}
use redka.Schema.View.{
  entry, first-eq-entry, find_key-delete_keys, key-find_key, find_string-delete_keys,
  find_field-delete_keys, find_elem-delete_keys,
}
use redka.Rkey.{renamed, sql_rename, get, exists, delete, rename, rename_not_exists, among}
use redka.Rkey.Naming.{
  in_the_way, find_key_of_entry, sql_rename-eq, sql_rename-IsValid, find_key-sql_rename,
}

-- `Get` returns the live key with the name, or the zero key.
pub get-eq-entry :
    (key : String) (t : Time) (db : Db)
    → IsValid db
    → get key t db ≡ (elim (entry key (unix_milli t) db) [ none ↦ no_key | some k ↦ k ])
unfolding get
get-eq-entry key t db v = rw (first-eq-entry key (unix_milli t) db v) (ground arith)

sql_rename_absent :
    (key new : String) (now : ℤ) (db : Db)
    → IsValid db
    → entry key now db ≡ none
    → sql_rename key new now db ≡ db
unfolding sql_rename
sql_rename_absent key new now db v e = rw (first-eq-entry key now db v ∙ e, sql_rename)

sql_rename_any-IsValid :
    (key new : String) (now : ℤ) (db : Db)
    → key ≢ new
    → IsValid db
    → IsValid (sql_rename key new now db)
sql_rename_any-IsValid key new now db ne v = elim (Option-cases (entry key now db)) [
  | inl gone ↦ rw (sql_rename_absent key new now db v gone) v
  | inr (old, e) ↦ sql_rename-IsValid key new now db v old ne e
]

ne_test : (a b : String) → a ≢ b → str_eq a b ≡ false
ne_test a b ne = ground (arith, eq_iff a b)

ne_of_test : (a b : String) → str_eq a b ≡ false → a ≢ b
ne_of_test a b h p = cc (h, (eq_iff a b).1 p)

-- `Rename` leaves valid tables valid, whatever it returns.
pub rename-IsValid :
    (key new : String) (t t' t'' : Time) (db : Db)
    → IsValid db
    → LeavesValid (rename key new t t' t'' db)
unfolding rename delete
rename-IsValid key new t t' t'' db v = elim (Bool-cases (key_exists (get key t db))) [
  | inr missing ↦ rw missing v
  | inl found ↦ rw found (elim (Bool-cases (str_eq key new)) [
    | inl same ↦ rw same v
    | inr other ↦ rw other (
        sql_rename_any-IsValid key new (unix_milli t'') _ (ne_of_test key new other)
          (delete_keys-IsValid _ db v))
  ])
]

pub rename_not_exists-IsValid :
    (key new : String) (t t' t'' : Time) (db : Db)
    → IsValid db
    → LeavesValid (rename_not_exists key new t t' t'' db)
unfolding rename_not_exists
rename_not_exists-IsValid key new t t' t'' db v = elim (Bool-cases (key_exists (get key t db))) [
  | inr missing ↦ rw missing v
  | inl found ↦ rw found (elim (Bool-cases (str_eq key new)) [
    | inl same ↦ rw same v
    | inr other ↦ rw other (elim (Bool-cases (exists new t' db)) [
      | inl taken ↦ rw taken v
      | inr free ↦
          rw free (sql_rename_any-IsValid key new (unix_milli t'') db (ne_of_test key new other) v)
    ])
  ])
]

-- What the renaming of `old` from `key` to `new` does to the tables: the new name has the row of
-- the old one, with the next version; the old name is free; other names keep their rows; the
-- string, the hash fields and the sorted set elements of the row stay.
pub record IsRenamed (key new : String) (now : ℤ) (old : Key) (db db' : Db) : Type 0 where
  pub valid : IsValid db'
  pub names :
      (j : String)
      → find_key j db'.keys ≡ (
          if str_eq new j
          then some (renamed new now old)
          else if str_eq key j
          then none
          else find_key j db.keys)
  pub string_kept : find_string old.id db'.strings ≡ find_string old.id db.strings
  pub fields_kept : (f : String) → find_field old.id f db'.hashes ≡ find_field old.id f db.hashes
  pub elems_kept : (e : String) → find_elem old.id e db'.zsets ≡ find_elem old.id e db.zsets

sql_rename-IsRenamed :
    (key new : String) (now : ℤ) (db : Db) (old : Key)
    → IsValid db
    → key ≢ new
    → entry key now db ≡ some old
    → IsRenamed key new now old db (sql_rename key new now db)
unfolding update_keys
sql_rename-IsRenamed key new now db old v ne e =
    let (found, alive) = find_key_of_entry key now db old e in
    let spared : in_the_way new old old ≡ false =
      ground (arith, key-find_key key db.keys old found, eq_iff old.key new) in
    record {
      valid = sql_rename-IsValid key new now db v old ne e;
      names = find_key-sql_rename key new now db v old ne e;
      string_kept =
          rw (sql_rename-eq key new now db v old ne e)
            (find_string-delete_keys (in_the_way new old) db v key old found spared);
      fields_kept = λ f.
          rw (sql_rename-eq key new now db v old ne e)
            (find_field-delete_keys (in_the_way new old) db v key old f found spared);
      elems_kept = λ e'.
          rw (sql_rename-eq key new now db v old ne e)
            (find_elem-delete_keys (in_the_way new old) db v key old e' found spared);
    }

-- deleting the new name first leaves the other names as they are
delete_new :
    (new : String) (t : Time) (db : Db)
    → IsValid db
    → (j : String) → new ≢ j
    → find_key j (delete (new ∷ []) t db).1.keys ≡ find_key j db.keys
unfolding delete
delete_new new t db v j nj =
    find_key-delete_keys _ db v j ∙ elim (Option-cases (find_key j db.keys)) [
      | inl free ↦ rw free
      | inr (k, h) ↦
          let named : k.key ≡ j = key-find_key j db.keys k h in
          rw h (ground (arith, eq_iff new k.key, named))
    ]

found_by_get :
    (key : String) (t : Time) (db : Db) (old : Key)
    → IsValid db
    → key ≢ ""
    → entry key (unix_milli t) db ≡ some old
    → key_exists (get key t db) ≡ true
found_by_get key t db old v named e =
    let (found, _) = find_key_of_entry key (unix_milli t) db old e in
    rw (get-eq-entry key t db v)
      (rw e (ground (arith, key-find_key key db.keys old found, eq_iff old.key "")))

spared_by_delete :
    (key new : String) (now : ℤ) (db : Db) (old : Key)
    → find_key key db.keys ≡ some old
    → key ≢ new
    → among (new ∷ []) now old ≡ false
spared_by_delete key new now db old found ne =
    ground (arith, key-find_key key db.keys old found, eq_iff new old.key)

-- `Rename` of a live key to another name, on valid tables and with an old name that is not empty,
-- returns no error and renames it, if the key is still live when the statement runs. The new
-- name's own key, live or expired, is replaced.
pub rename_lem :
    (key new : String) (t t' t'' : Time) (db : Db) (old : Key)
    → IsValid db
    → key ≢ new
    → key ≢ ""
    → entry key (unix_milli t) db ≡ some old
    → live (unix_milli t'') old ≡ true
    → ((rename key new t t' t'' db).0 ≡ ok tt)
      × IsRenamed key new (unix_milli t'') old db (rename key new t t' t'' db).1
unfolding rename
rename_lem key new t t' t'' db old v ne named e alive =
    let (found, alive_t) = find_key_of_entry key (unix_milli t) db old e in
    let db' = (delete (new ∷ []) t' db).1 in
    let found' : find_key key db'.keys ≡ some old =
      delete_new new t' db v key (λ p. ne (sym p)) ∙ found in
    let v' : IsValid db' = unfold delete in delete_keys-IsValid _ db v in
    let r = sql_rename-IsRenamed key new (unix_milli t'') db' old v' ne (rw found' (rw alive)) in
    rw (found_by_get key t db old v named e, (ne_test key new ne))
      (
        refl,
        record {
          valid = r.valid;
          names = λ j. r.names j ∙ ground (arith, delete_new new t' db v j, eq_iff new j);
          string_kept =
              r.string_kept
              ∙ unfold delete in
                find_string-delete_keys (among (new ∷ []) (unix_milli t')) db v key old found
                  (spared_by_delete key new (unix_milli t') db old found ne);
          fields_kept = λ f.
              r.fields_kept f
              ∙ unfold delete in
                find_field-delete_keys (among (new ∷ []) (unix_milli t')) db v key old f found
                  (spared_by_delete key new (unix_milli t') db old found ne);
          elems_kept = λ e'.
              r.elems_kept e'
              ∙ unfold delete in
                find_elem-delete_keys (among (new ∷ []) (unix_milli t')) db v key old e' found
                  (spared_by_delete key new (unix_milli t') db old found ne);
        },
      )

-- `RenameNotExists` of a live key to another name, which has no live key, on valid tables and with
-- an old name that is not empty, returns true and renames it, if the key is still live when the
-- statement runs. An expired row of the new name is replaced.
pub rename_not_exists_lem :
    (key new : String) (t t' t'' : Time) (db : Db) (old : Key)
    → IsValid db
    → key ≢ new
    → key ≢ ""
    → entry key (unix_milli t) db ≡ some old
    → live (unix_milli t'') old ≡ true
    → exists new t' db ≡ false
    → ((rename_not_exists key new t t' t'' db).0 ≡ ok true)
      × IsRenamed key new (unix_milli t'') old db (rename_not_exists key new t t' t'' db).1
unfolding rename_not_exists
rename_not_exists_lem key new t t' t'' db old v ne named e alive free =
    let (found, _) = find_key_of_entry key (unix_milli t) db old e in
    rw (found_by_get key t db old v named e, ne_test key new ne)
      (rw free
        (refl, sql_rename-IsRenamed key new (unix_milli t'') db old v ne (rw found (rw alive))))

-- On valid tables, neither `Rename` nor `RenameNotExists` renames a key that is missing or
-- expired: both return `ErrNotFound` and change nothing.
pub rename_missing :
    (key new : String) (t t' t'' : Time) (db : Db)
    → IsValid db
    → entry key (unix_milli t) db ≡ none
    → (rename key new t t' t'' db ≡ (err not_found, db))
      × (rename_not_exists key new t t' t'' db ≡ (err not_found, db))
unfolding rename rename_not_exists
rename_missing key new t t' t'' db v e =
    let missing : key_exists (get key t db) ≡ false = rw (get-eq-entry key t db v) (rw e) in
    (rw missing, rw missing)
