-- ===== src/Rkey/Purge.antt =====
-- The background purge of expired rows, `deleteExpired`: it cannot be seen from its time on.
use redka.Base.{
  ℕ, zero, suc, ℤ, pos, ◌≤ℤ◌, String, Bool, true, false, not, Option, none, some, List, [], ◌∷◌,
  ◌≡◌, refl, arith, ◌==◌, ==_iff, any, guarded, Bool-cases, inl, inr, ap, ◌∙◌, Option-cases, sym,
}
use redka.Core.{Key, Time, unix_milli}
use redka.Schema.{
  Db, live, expired, find_key, find_id, find_string, find_field, find_elem, delete_keys,
}
use redka.Schema.Valid.{IsValid, IdsUnique}
use redka.Schema.View.{
  entry, find_key-delete_keys, find_id-find_key, find_string-delete_keys, find_field-delete_keys,
  find_elem-delete_keys,
}
use redka.Rkey.Expiry.{live-entry, live_before, expired-eq}
use redka.Rkey.{delete_expired, first_expired}

-- a row that the limited purge takes has expired
first_expired_absent :
    (n : ℕ) (now : ℤ) (ks : List Key) (i : ℕ)
    → find_id i ks ≡ none
    → any (λ r. r.id == i) (first_expired n now ks) ≡ false
first_expired_absent zero now ks i h = refl
first_expired_absent (suc n) now [] i h = refl
first_expired_absent (suc n) now (k ∷ ks) i h =
    ground (arith, first_expired_absent n now ks i, first_expired_absent (suc n) now ks i)

first_expired-expired :
    (n : ℕ) (now : ℤ) (ks : List Key) (i : ℕ) (k : Key)
    → IdsUnique ks
    → find_id i ks ≡ some k
    → any (λ r. r.id == i) (first_expired n now ks) ≡ true
    → expired now k ≡ true
first_expired-expired zero now ks i k u f h = cc
first_expired-expired (suc n) now [] i k u f h = cc
first_expired-expired (suc n) now (x ∷ ks) i k u f h = elim (Bool-cases (x.id == i)) [
  | inl here ↦
      let same : x.id ≡ i = (==_iff x.id i).0 here in
      let gone : find_id i ks ≡ none = rw (← same) u.0 in
      ground (
        arith,
        here,
        first_expired_absent n now ks i gone,
        first_expired_absent (suc n) now ks i gone,
      )
  | inr there ↦ ground (
    arith,
    there,
    first_expired-expired n now ks i k u.1,
    first_expired-expired (suc n) now ks i k u.1,
  )
]

-- A deletion of rows that have expired is not seen from that time on: every name stands for what
-- it stood for, with its value.
module _ (p : Key → Bool) (t : ℤ) (db : Db) (v : IsValid db)
    (only_expired : (j : String) (k : Key)
      → find_key j db.keys ≡ some k
      → p k ≡ true
      → expired t k ≡ true) where
  purge-entry : (j : String) (now : ℤ) → t ≤ℤ now → entry j now (delete_keys p db) ≡ entry j now db
  purge-entry j now later =
      ap (guarded (live now)) (find_key-delete_keys p db v j)
      ∙ elim (Option-cases (find_key j db.keys)) [
        | inl free ↦ rw free
        | inr (k, h) ↦
            rw h (ground (arith, only_expired j k h, live_before t now k later, expired-eq t k))
      ]

  purge-kept : (j : String) (now : ℤ) (k : Key) → t ≤ℤ now → entry j now db ≡ some k → p k ≡ false
  purge-kept j now k later e =
      let (found, alive) = live-entry j now db k e in
      elim (Bool-cases (p k)) [
        | inl gone ↦
            ground
              (arith, only_expired j k found gone, live_before t now k later alive, expired-eq t k)
        | inr kept ↦ kept
      ]

-- What a reader can tell of two states of the tables from a time on: the live key of every name,
-- and its string, its fields and its elements.
pub record SameView (t : ℤ) (db db' : Db) : Type 0 where
  pub entries : (j : String) (now : ℤ) → t ≤ℤ now → entry j now db' ≡ entry j now db
  pub strings :
      (j : String) (now : ℤ) (k : Key)
      → t ≤ℤ now
      → entry j now db ≡ some k
      → find_string k.id db'.strings ≡ find_string k.id db.strings
  pub fields :
      (j : String) (now : ℤ) (k : Key) (f : String)
      → t ≤ℤ now
      → entry j now db ≡ some k
      → find_field k.id f db'.hashes ≡ find_field k.id f db.hashes
  pub elems :
      (j : String) (now : ℤ) (k : Key) (e : String)
      → t ≤ℤ now
      → entry j now db ≡ some k
      → find_elem k.id e db'.zsets ≡ find_elem k.id e db.zsets

purge-SameView :
    (p : Key → Bool) (t : ℤ) (db : Db)
    → IsValid db
    → ((j : String) (k : Key) → find_key j db.keys ≡ some k → p k ≡ true → expired t k ≡ true)
    → SameView t db (delete_keys p db)
purge-SameView p t db v only = record {
  entries = purge-entry p t db v only;
  strings = λ j now k later e.
      find_string-delete_keys p db v j k (live-entry j now db k e).0
        (purge-kept p t db v only j now k later e);
  fields = λ j now k f later e.
      find_field-delete_keys p db v j k f (live-entry j now db k e).0
        (purge-kept p t db v only j now k later e);
  elems = λ j now k x later e.
      find_elem-delete_keys p db v j k x (live-entry j now db k e).0
        (purge-kept p t db v only j now k later e);
}

-- On valid tables the background purge, limited to `n` rows or not, cannot be seen from its time
-- on: every name has the live key that it had, with its string, its fields and its elements.
pub delete_expired-SameView :
    (n : ℤ) (t : Time) (db : Db) → IsValid db → SameView (unix_milli t) db (delete_expired n t db).1
unfolding delete_expired
delete_expired-SameView (pos (suc n)) t db v = purge-SameView _ (unix_milli t) db v λ j k h taken.
    first_expired-expired (suc n) (unix_milli t) db.keys k.id k v.ids_unique
      (find_id-find_key j db.keys k v.ids_unique h) taken
delete_expired-SameView _ t db v = purge-SameView _ (unix_milli t) db v (λ j k h gone. gone)

-- On valid tables the purge without a limit leaves no expired row under any name.
pub delete_expired_all :
    (t : Time) (db : Db) (j : String) (k : Key)
    → IsValid db
    → find_key j (delete_expired (pos 0) t db).1.keys ≡ some k
    → live (unix_milli t) k ≡ true
unfolding delete_expired
delete_expired_all t db j k v h =
    let e : guarded (λ k. not (expired (unix_milli t) k)) (find_key j db.keys) ≡ some k =
      sym (find_key-delete_keys (expired (unix_milli t)) db v j) ∙ h in
    left (find_key j db.keys) e
  where
    left :
        (o : Option Key)
        → guarded (λ k. not (expired (unix_milli t) k)) o ≡ some k
        → live (unix_milli t) k ≡ true
    left none e = cc
    left (some x) e = ground (arith, expired-eq (unix_milli t) x)
