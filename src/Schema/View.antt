-- ===== src/Schema/View.antt =====
-- What the program can see of the tables at a time: the key with a name, if it has not expired,
-- and its value. The statements are read through it on valid tables.
use redka.Base.{
  ℕ, ℤ, String, Bool, true, false, ◌&&◌, not, Option, none, some, List, [], ◌∷◌, ◌≡◌, ◌≢◌, refl,
  arith, ◌==◌, str_eq, eq_iff, ==_iff, first, guarded, if◌then◌else◌, Bool-cases, inl, inr, ap, ◌∙◌,
  sym,
}
use mathlib.Core.Option
use redka.Table.{col-find, find-map_if, find-keep, first-eq-guarded, guarded-find}
use redka.Core.{Key, Value}
use redka.Schema.{
  find_elem, zset_column, Db, StringRow, live, find_key, find_id, find_string, find_field,
  same_pair, hash_column, removes, delete_keys, update_keys,
}
use redka.Schema.Valid.{IsValid, KeysUnique, IdsUnique, same_pair_iff}

-- the key with the name, live at the time
abbrev pub entry : String → ℤ → Db → Option Key
entry key now db = guarded (live now) (find_key key db.keys)

abbrev pub string_of : Db → Option Key → Option Value
string_of db none = none
string_of db (some k) = Option.map (λ (s : StringRow). s.value) (find_string k.id db.strings)

-- the string that the name has at the time
abbrev pub string_at : String → ℤ → Db → Option Value
string_at key now db = string_of db (entry key now db)

pub first-eq-entry :
    (key : String) (now : ℤ) (db : Db)
    → IsValid db
    → first (λ k. str_eq k.key key && live now k) db.keys ≡ entry key now db
first-eq-entry key now db v =
    first-eq-guarded str_eq eq_iff (λ (k : Key). k.key) (live now) key db.keys v.keys_unique

pub key-find_key : (key : String) (ks : List Key) (k : Key) → find_key key ks ≡ some k → k.key ≡ key
key-find_key key ks k h = col-find str_eq eq_iff (λ (k : Key). k.key) key ks k h

-- The row found by name is the row found by its id.
pub find_id-find_key :
    (key : String) (ks : List Key) (k : Key)
    → IdsUnique ks
    → find_key key ks ≡ some k
    → find_id k.id ks ≡ some k
find_id-find_key key [] k u h = cc
find_id-find_key key (x ∷ ks) k u h = elim (Bool-cases (str_eq x.key key)) [
  | inl here ↦ ground arith
  | inr there ↦ ground (arith, find_id-find_key key ks k u.1)
]

-- and the other way round
pub find_key-find_id :
    (i : ℕ) (ks : List Key) (k : Key)
    → KeysUnique ks
    → find_id i ks ≡ some k
    → find_key k.key ks ≡ some k
find_key-find_id i [] k u h = cc
find_key-find_id i (x ∷ ks) k u h = elim (Bool-cases (x.id == i)) [
  | inl here ↦ ground (arith, here, eq_iff x.key x.key)
  | inr there ↦ ground (arith, there, find_key-find_id i ks k u.1, eq_iff x.key k.key)
]

pub removes_absent :
    (p : Key → Bool) (i : ℕ) (ks : List Key) → find_id i ks ≡ none → removes p ks i ≡ false
removes_absent p i [] h = refl
removes_absent p i (x ∷ ks) h = ground (arith, removes_absent p i ks)

-- the cascade spares the rows of a key that stays
removes_kept :
    (p : Key → Bool) (i : ℕ) (ks : List Key) (k : Key)
    → IdsUnique ks
    → find_id i ks ≡ some k
    → p k ≡ false
    → removes p ks i ≡ false
removes_kept p i [] k u h e = refl
removes_kept p i (x ∷ ks) k u h e = elim (Bool-cases (x.id == i)) [
  | inl here ↦
      let same : x.id ≡ i = (==_iff x.id i).0 here in
      ground (arith, removes_absent p i ks (rw (← same) u.0))
  | inr there ↦ ground (arith, removes_kept p i ks k u.1)
]

module _ (p : Key → Bool) (db : Db) (v : IsValid db) where
  pub find_key-delete_keys :
      (key : String)
      → find_key key (delete_keys p db).keys ≡ guarded (λ k. not (p k)) (find_key key db.keys)
  unfolding delete_keys
  find_key-delete_keys key =
      find-keep str_eq eq_iff (λ (k : Key). k.key) _ key db.keys v.keys_unique

  pub find_string-delete_keys :
      (key : String) (k : Key)
      → find_key key db.keys ≡ some k
      → p k ≡ false
      → find_string k.id (delete_keys p db).strings ≡ find_string k.id db.strings
  unfolding delete_keys
  find_string-delete_keys key k h e =
      find-keep ◌==◌ ==_iff (λ (s : StringRow). s.key_id) _ k.id db.strings v.strings_unique
      ∙ guarded-find ◌==◌ ==_iff (λ (s : StringRow). s.key_id) (λ i. not (removes p db.keys i)) k.id
          db.strings
          (let kept : removes p db.keys k.id ≡ false =
              removes_kept p k.id db.keys k v.ids_unique
                (find_id-find_key key db.keys k v.ids_unique h) e in
            rw kept)

pub find_key-update_keys :
    (p : Key → Bool) (f : Key → Key) (key : String) (db : Db)
    → ((k : Key) → (f k).key ≡ k.key)
    → find_key key (update_keys p f db).keys
      ≡ Option.map (λ k. if p k then f k else k) (find_key key db.keys)
unfolding update_keys
find_key-update_keys p f key db h = find-map_if str_eq eq_iff (λ (k : Key). k.key) p f h key db.keys

pub find_field-delete_keys :
    (p : Key → Bool) (db : Db)
    → IsValid db
    → (key : String) (k : Key) (f : String) → find_key key db.keys ≡ some k
    → p k ≡ false
    → find_field k.id f (delete_keys p db).hashes ≡ find_field k.id f db.hashes
unfolding delete_keys
find_field-delete_keys p db v key k f h e =
    find-keep same_pair same_pair_iff hash_column _ (k.id, f) db.hashes v.hashes_unique
    ∙ guarded-find same_pair same_pair_iff hash_column (λ c. not (removes p db.keys c.0)) (k.id, f)
        db.hashes
        (let kept : removes p db.keys k.id ≡ false =
            removes_kept p k.id db.keys k v.ids_unique
              (find_id-find_key key db.keys k v.ids_unique h) e in
          rw kept)

pub find_elem-delete_keys :
    (p : Key → Bool) (db : Db)
    → IsValid db
    → (key : String) (k : Key) (e : String) → find_key key db.keys ≡ some k
    → p k ≡ false
    → find_elem k.id e (delete_keys p db).zsets ≡ find_elem k.id e db.zsets
unfolding delete_keys
find_elem-delete_keys p db v key k e h kept_key =
    find-keep same_pair same_pair_iff zset_column _ (k.id, e) db.zsets v.zsets_unique
    ∙ guarded-find same_pair same_pair_iff zset_column (λ c. not (removes p db.keys c.0)) (k.id, e)
        db.zsets
        (let kept : removes p db.keys k.id ≡ false =
            removes_kept p k.id db.keys k v.ids_unique
              (find_id-find_key key db.keys k v.ids_unique h) kept_key in
          rw kept)

-- whether the row of a name, live or expired, is live at a time; a name with no row counts as live
abbrev pub not_ended : String → Db → ℤ → Bool
not_ended key db now = elim (find_key key db.keys) [ none ↦ true | some k ↦ live now k ]

-- rows with different names have different ids
pub ids_differ :
    (db : Db) (key j : String) (k r : Key)
    → IsValid db
    → find_key key db.keys ≡ some k
    → find_key j db.keys ≡ some r
    → key ≢ j
    → k.id ≢ r.id
ids_differ db key j k r v fk fr ne same =
    let e : some k ≡ some r =
      sym (find_id-find_key key db.keys k v.ids_unique fk)
      ∙ ap (λ i. find_id i db.keys) same
      ∙ find_id-find_key j db.keys r v.ids_unique fr in
    ne (cc (e, key-find_key key db.keys k fk, key-find_key j db.keys r fr))
