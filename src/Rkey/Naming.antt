-- ===== src/Rkey/Naming.antt =====
-- `Rename` and `RenameNotExists`: the new name has the key, the old name is free, and no other
-- name is touched.
use redka.Base.{
  ℤ, String, Bool, true, ◌&&◌, not, none, some, List, [], ◌∷◌, ◌≡◌, ◌≢◌, refl, arith, ◌==◌, str_eq,
  eq_iff, ==_iff, map_if, guarded, if◌then◌else◌, Bool-cases, inl, inr, ◌∙◌, Option-cases, sym,
}
use mathlib.Core.Option
use redka.Table.{IsUnique-map_if}
use redka.Core.{Key}
use redka.Schema.{Db, live, find_key, find_id, delete_keys, update_keys}
use redka.Schema.Valid.{IsValid, KeysUnique, delete_keys-IsValid, owner-map_if, with_keys-IsValid}
use redka.Schema.View.{entry, first-eq-entry, find_key-delete_keys, key-find_key, find_id-find_key}
use redka.Rkey.{by_key, renamed, sql_rename}

module _ (key new : String) (now : ℤ) where
  map_if_absent :
      (ks : List Key) → find_key key ks ≡ none → map_if (by_key key now) (renamed new now) ks ≡ ks
  map_if_absent [] h = refl
  map_if_absent (k ∷ ks) h = ground (arith, map_if_absent ks)

  find_key-renamed :
      (j : String) (ks : List Key)
      → KeysUnique ks
      → find_key new ks ≡ none
      → key ≢ new
      → find_key j (map_if (by_key key now) (renamed new now) ks) ≡ (
          if str_eq new j
          then Option.map (renamed new now) (guarded (live now) (find_key key ks))
          else if str_eq key j
          then guarded (λ k. not (live now k)) (find_key key ks)
          else find_key j ks)
  find_key-renamed j [] u h ne = ground arith
  find_key-renamed j (k ∷ ks) u h ne = elim (Bool-cases (str_eq k.key key)) [
    | inl here ↦
        let same : k.key ≡ key = (eq_iff k.key key).0 here in
        let gone : find_key key ks ≡ none = rw (← same) u.0 in
        ground (
          arith,
          map_if_absent ks gone,
          gone,
          eq_iff k.key j,
          eq_iff new j,
          eq_iff key j,
          eq_iff key new,
          eq_iff k.key new,
        )
    | inr there ↦ ground (
      arith,
      there,
      find_key-renamed j ks u.1,
      eq_iff k.key j,
      eq_iff new j,
      eq_iff key j,
      eq_iff key new,
      eq_iff k.key new,
      eq_iff k.key key,
    )
  ]

  KeysUnique-renamed :
      (ks : List Key)
      → KeysUnique ks
      → find_key new ks ≡ none
      → key ≢ new
      → KeysUnique (map_if (by_key key now) (renamed new now) ks)
  KeysUnique-renamed [] u h ne = tt
  KeysUnique-renamed (k ∷ ks) u h ne = elim (Bool-cases (str_eq k.key key)) [
    | inl here ↦
        let same : k.key ≡ key = (eq_iff k.key key).0 here in
        let gone : find_key key ks ≡ none = rw (← same) u.0 in
        ground (arith, map_if_absent ks gone, u, h, same)
    | inr there ↦ ground (
      arith,
      there,
      KeysUnique-renamed ks u.1,
      find_key-renamed k.key ks u.1,
      eq_iff new k.key,
      eq_iff key k.key,
      eq_iff k.key new,
      eq_iff k.key key,
    )
  ]

-- the rows that `or replace` deletes
abbrev pub in_the_way : String → Key → Key → Bool
in_the_way new old k = str_eq k.key new && not (k.id == old.id)

pub find_key_of_entry :
    (key : String) (now : ℤ) (db : Db) (old : Key)
    → entry key now db ≡ some old
    → (find_key key db.keys ≡ some old) × (live now old ≡ true)
find_key_of_entry key now db old e = ground arith

module _ (key new : String) (now : ℤ) (db : Db) (v : IsValid db) (old : Key) (ne : key ≢ new)
    (e : entry key now db ≡ some old) where
  abbrev pub cleared : Db
  cleared = delete_keys (in_the_way new old) db

  pub sql_rename-eq :
      sql_rename key new now db ≡ update_keys (by_key key now) (renamed new now) cleared
  unfolding sql_rename
  sql_rename-eq = rw (first-eq-entry key now db v ∙ e, sql_rename)

  clears : (k : Key) → find_key new db.keys ≡ some k → in_the_way new old k ≡ true
  clears k h =
      let named : k.key ≡ new = key-find_key new db.keys k h in
      let old_named : old.key ≡ key =
        key-find_key key db.keys old (find_key_of_entry key now db old e).0 in
      elim (Bool-cases (k.id == old.id)) [
        | inl same ↦
            let ids : k.id ≡ old.id = (==_iff k.id old.id).0 same in
            let at : find_id k.id db.keys ≡ some k =
              find_id-find_key new db.keys k v.ids_unique h in
            let at_old : find_id old.id db.keys ≡ some old =
              find_id-find_key key db.keys old v.ids_unique
                (find_key_of_entry key now db old e).0 in
            absurd (ne (cc (named, old_named, ids, at, at_old)))
        | inr other ↦ rw other (ground (arith, named, eq_iff k.key new))
      ]

  cleared_new : find_key new cleared.keys ≡ none
  cleared_new =
      find_key-delete_keys (in_the_way new old) db v new
      ∙ elim (Option-cases (find_key new db.keys)) [
        | inl free ↦ rw free
        | inr (k, h) ↦ rw h (rw (clears k h))
      ]

  cleared_other : (j : String) → new ≢ j → find_key j cleared.keys ≡ find_key j db.keys
  cleared_other j nj =
      find_key-delete_keys (in_the_way new old) db v j ∙ elim (Option-cases (find_key j db.keys)) [
        | inl free ↦ rw free
        | inr (k, h) ↦
            let named : k.key ≡ j = key-find_key j db.keys k h in
            rw h (ground (arith, eq_iff k.key new, named))
      ]

  pub sql_rename-IsValid : IsValid (sql_rename key new now db)
  unfolding update_keys
  sql_rename-IsValid =
      let vc : IsValid cleared = delete_keys-IsValid (in_the_way new old) db v in
      rw sql_rename-eq (
        with_keys-IsValid cleared _ vc
          (KeysUnique-renamed key new now cleared.keys vc.keys_unique cleared_new ne)
          (IsUnique-map_if ◌==◌ ==_iff (λ (k : Key). k.id) (by_key key now) (renamed new now)
            (λ k. refl) cleared.keys vc.ids_unique)
          (λ t i h.
            rw
              (owner-map_if t (by_key key now) (renamed new now) cleared.keys i (λ k. refl)
                (λ k _ _. refl))
              h))

  -- what every name stands for after the statement
  pub find_key-sql_rename :
      (j : String)
      → find_key j (sql_rename key new now db).keys ≡ (
          if str_eq new j
          then some (renamed new now old)
          else if str_eq key j
          then none
          else find_key j db.keys)
  unfolding update_keys
  find_key-sql_rename j =
      let vc : IsValid cleared = delete_keys-IsValid (in_the_way new old) db v in
      rw sql_rename-eq (
        find_key-renamed key new now j cleared.keys vc.keys_unique cleared_new ne
        ∙ ground (
          arith,
          cleared_other key (λ p. ne (sym p)),
          cleared_other j,
          find_key_of_entry key now db old e,
          eq_iff new j,
          eq_iff key j,
        ))
