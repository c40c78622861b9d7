-- ===== src/Schema/Valid.antt =====
-- The invariant of the tables, which the indexes, the foreign keys and the trigger of schema.sql
-- maintain, and its preservation by the common statements.
use redka.Base.{
  ℕ, ◌<◌, String, Bool, true, false, not, Option, none, some, List, [], ◌∷◌, ◌++◌, ◌≡◌, refl, ◌↔◌,
  arith, ◌==◌, str_eq, eq_iff, ==_iff, keep, map_if, All, guarded, or_else, if◌then◌else◌,
  Bool-cases, inl, inr, ap, ◌∙◌,
}
use redka.Table
use mathlib.Core.Option
use redka.Table.{
  find-append, col-find, IsUnique-append_one, find-map_if, IsUnique-map_if, find-keep,
  find-keep-none, IsUnique-keep, first-eq-guarded,
}
use redka.Core.{Key, TypeId, type_string, type_hash, type_sorted_set}
use redka.Schema.{
  Db, StringRow, HashRow, ZsetRow, empty_db, find_key, find_id, same_pair, hash_column, zset_column,
  max_id, next_id, removes, delete_keys, update_keys,
}

pub same_pair_iff : (a b : ℕ × String) → (same_pair a b ≡ true) ↔ (a ≡ b)
same_pair_iff (i, f) (j, g) = ground (arith, eq_iff f g)

abbrev pub of_type : TypeId → Option Key → Bool
of_type t none = false
of_type t (some k) = k.type_id == t

-- The row `i` of `rkey` is there, with the type.
abbrev pub owner : TypeId → List Key → ℕ → Bool
owner t keys i = of_type t (find_id i keys)

abbrev pub KeysUnique : List Key → Type 0
KeysUnique = Table.IsUnique str_eq (λ (k : Key). k.key)

abbrev pub IdsUnique : List Key → Type 0
IdsUnique = Table.IsUnique ◌==◌ (λ (k : Key). k.id)

pub record IsValid (db : Db) : Type 0 where
  pub keys_unique : KeysUnique db.keys
  pub ids_unique : IdsUnique db.keys
  pub strings_unique : Table.IsUnique ◌==◌ (λ (s : StringRow). s.key_id) db.strings
  pub hashes_unique : Table.IsUnique same_pair hash_column db.hashes
  pub zsets_unique : Table.IsUnique same_pair zset_column db.zsets
  -- every value row belongs to a key of its own type
  pub strings_owned : All (λ (s : StringRow). owner type_string db.keys s.key_id ≡ true) db.strings
  pub hashes_owned : All (λ (h : HashRow). owner type_hash db.keys h.key_id ≡ true) db.hashes
  pub zsets_owned : All (λ (z : ZsetRow). owner type_sorted_set db.keys z.key_id ≡ true) db.zsets

-- An operation, whatever it returns, leaves valid tables.
abbrev pub LeavesValid : {A : Type 0} → A × Db → Type 0
LeavesValid r = IsValid r.1

pub IsValid-empty : IsValid empty_db
IsValid-empty = record {
  keys_unique = tt;
  ids_unique = tt;
  strings_unique = tt;
  hashes_unique = tt;
  zsets_unique = tt;
  strings_owned = tt;
  hashes_owned = tt;
  zsets_owned = tt;
}

-- an id above every id is not in the table
find_id_above : (i : ℕ) (ks : List Key) → max_id ks < i → find_id i ks ≡ none
find_id_above i [] h = refl
find_id_above i (k ∷ ks) h = ground (arith, find_id_above i ks)

pub find_id-next_id : (ks : List Key) → find_id (next_id ks) ks ≡ none
find_id-next_id ks = find_id_above (next_id ks) ks (omega arith)

-- A row that the deletion keeps still has its owner.
removes_found :
    (p : Key → Bool) (i : ℕ) (ks : List Key) (k : Key)
    → removes p ks i ≡ false
    → find_id i ks ≡ some k
    → p k ≡ false
removes_found p i [] k h e = ground arith
removes_found p i (x ∷ ks) k h e = ground (arith, removes_found p i ks k)

of_type-guarded :
    (t : TypeId) (p : Key → Bool) (f : Option Key)
    → ((k : Key) → f ≡ some k → p k ≡ false)
    → of_type t (guarded (λ k. not (p k)) f) ≡ of_type t f
of_type-guarded t p none h = refl
of_type-guarded t p (some k) h = rw (h k refl)

owner-keep :
    (t : TypeId) (p : Key → Bool) (ks : List Key) (i : ℕ)
    → IdsUnique ks
    → removes p ks i ≡ false
    → owner t (keep (λ k. not (p k)) ks) i ≡ owner t ks i
owner-keep t p ks i u h =
    ap (of_type t) (find-keep ◌==◌ ==_iff (λ (k : Key). k.id) (λ k. not (p k)) i ks u)
    ∙ of_type-guarded t p (find_id i ks) (λ k e. removes_found p i ks k h e)

module _ {A : Type 0} (col : A → ℕ) (t : TypeId) where
  owned-keep :
      (p : Key → Bool) (ks : List Key) (rows : List A)
      → IdsUnique ks
      → All (λ r. owner t ks (col r) ≡ true) rows
      → All
          (λ r. owner t (keep (λ k. not (p k)) ks) (col r) ≡ true)
          (keep (λ r. not (removes p ks (col r))) rows)
  owned-keep p ks [] u o = tt
  owned-keep p ks (r ∷ rows) u o = elim (Bool-cases (removes p ks (col r))) [
    | inl gone ↦ rw gone (owned-keep p ks rows u o.1)
    | inr kept ↦ rw kept (rw (owner-keep t p ks (col r) u kept) o.0, owned-keep p ks rows u o.1)
  ]

  owned_of_owner :
      (ks ks' : List Key) (rows : List A)
      → ((i : ℕ) → owner t ks i ≡ true → owner t ks' i ≡ true)
      → All (λ r. owner t ks (col r) ≡ true) rows
      → All (λ r. owner t ks' (col r) ≡ true) rows
  owned_of_owner ks ks' [] keeps o = tt
  owned_of_owner ks ks' (r ∷ rows) keeps o =
      (keeps (col r) o.0, owned_of_owner ks ks' rows keeps o.1)

-- A deletion with its cascade keeps the invariant.
pub delete_keys-IsValid : (p : Key → Bool) (db : Db) → IsValid db → IsValid (delete_keys p db)
unfolding delete_keys
delete_keys-IsValid p db v = record {
  keys_unique = IsUnique-keep str_eq eq_iff (λ (k : Key). k.key) _ db.keys v.keys_unique;
  ids_unique = IsUnique-keep ◌==◌ ==_iff (λ (k : Key). k.id) _ db.keys v.ids_unique;
  strings_unique =
      IsUnique-keep ◌==◌ ==_iff (λ (s : StringRow). s.key_id) _ db.strings v.strings_unique;
  hashes_unique = IsUnique-keep same_pair same_pair_iff hash_column _ db.hashes v.hashes_unique;
  zsets_unique = IsUnique-keep same_pair same_pair_iff zset_column _ db.zsets v.zsets_unique;
  strings_owned =
      owned-keep (λ (s : StringRow). s.key_id) type_string p db.keys db.strings v.ids_unique
        v.strings_owned;
  hashes_owned =
      owned-keep (λ (h : HashRow). h.key_id) type_hash p db.keys db.hashes v.ids_unique
        v.hashes_owned;
  zsets_owned =
      owned-keep (λ (z : ZsetRow). z.key_id) type_sorted_set p db.keys db.zsets v.ids_unique
        v.zsets_owned;
}

-- New rows of `rkey` that keep every owner keep the invariant.
pub with_keys-IsValid :
    (db : Db) (ks : List Key)
    → IsValid db
    → KeysUnique ks
    → IdsUnique ks
    → ((t : TypeId) (i : ℕ) → owner t db.keys i ≡ true → owner t ks i ≡ true)
    → IsValid (record db { keys = ks })
with_keys-IsValid db ks v ku iu keeps = record {
  keys_unique = ku;
  ids_unique = iu;
  strings_unique = v.strings_unique;
  hashes_unique = v.hashes_unique;
  zsets_unique = v.zsets_unique;
  strings_owned =
      owned_of_owner (λ (s : StringRow). s.key_id) type_string db.keys ks db.strings
        (keeps type_string) v.strings_owned;
  hashes_owned =
      owned_of_owner (λ (h : HashRow). h.key_id) type_hash db.keys ks db.hashes (keeps type_hash)
        v.hashes_owned;
  zsets_owned =
      owned_of_owner (λ (z : ZsetRow). z.key_id) type_sorted_set db.keys ks db.zsets
        (keeps type_sorted_set) v.zsets_owned;
}

of_type-map :
    (t : TypeId) (p : Key → Bool) (f : Key → Key) (o : Option Key)
    → ((k : Key) → o ≡ some k → p k ≡ true → (f k).type_id ≡ k.type_id)
    → of_type t (Option.map (λ k. if p k then f k else k) o) ≡ of_type t o
of_type-map t p f none h = refl
of_type-map t p f (some k) h = elim (Bool-cases (p k)) [
  | inl hit ↦ rw hit (rw (h k refl hit))
  | inr miss ↦ rw miss
]

-- A change that leaves the ids alone, and the types of the rows that it reaches, keeps the owners.
pub owner-map_if :
    (t : TypeId) (p : Key → Bool) (f : Key → Key) (ks : List Key) (i : ℕ)
    → ((k : Key) → (f k).id ≡ k.id)
    → ((k : Key) → find_id k.id ks ≡ some k → p k ≡ true → (f k).type_id ≡ k.type_id)
    → owner t (map_if p f ks) i ≡ owner t ks i
owner-map_if t p f ks i hi ht =
    ap (of_type t) (find-map_if ◌==◌ ==_iff (λ (k : Key). k.id) p f hi i ks)
    ∙ of_type-map t p f (find_id i ks) (λ k e.
      ht k (ap (λ j. find_id j ks) (col-find ◌==◌ ==_iff (λ (k : Key). k.id) i ks k e) ∙ e))

-- An update that leaves the id, the name and the type alone keeps the invariant.
pub update_keys-IsValid :
    (p : Key → Bool) (f : Key → Key) (db : Db)
    → ((k : Key) → (f k).id ≡ k.id)
    → ((k : Key) → (f k).key ≡ k.key)
    → ((k : Key) → find_id k.id db.keys ≡ some k → p k ≡ true → (f k).type_id ≡ k.type_id)
    → IsValid db
    → IsValid (update_keys p f db)
unfolding update_keys
update_keys-IsValid p f db hi hk ht v =
    with_keys-IsValid db (map_if p f db.keys) v
      (IsUnique-map_if str_eq eq_iff (λ (k : Key). k.key) p f hk db.keys v.keys_unique)
      (IsUnique-map_if ◌==◌ ==_iff (λ (k : Key). k.id) p f hi db.keys v.ids_unique)
      (λ t i h. rw (owner-map_if t p f db.keys i hi ht) h)

of_type-or_else :
    (t : TypeId) (o o' : Option Key) → of_type t o ≡ true → of_type t (or_else o o') ≡ true
of_type-or_else t none o' h = cc
of_type-or_else t (some k) o' h = h

pub owner-append :
    (t : TypeId) (ks ks' : List Key) (i : ℕ) → owner t ks i ≡ true → owner t (ks ++ ks') i ≡ true
owner-append t ks ks' i h =
    rw (ap (of_type t) (find-append ◌==◌ ==_iff (λ (k : Key). k.id) i ks ks'))
      (of_type-or_else t (find_id i ks) (find_id i ks') h)

-- So does a new row with a new name and the next id.
pub insert_key-IsValid :
    (k : Key) (db : Db)
    → find_key k.key db.keys ≡ none
    → IsValid db
    → IsValid (record db { keys = db.keys ++ record k { id = next_id db.keys } ∷ [] })
insert_key-IsValid k db fresh v =
    with_keys-IsValid db _ v
      (IsUnique-append_one str_eq eq_iff (λ (k : Key). k.key) db.keys _ v.keys_unique fresh)
      (IsUnique-append_one ◌==◌ ==_iff (λ (k : Key). k.id) db.keys _ v.ids_unique
        (find_id-next_id db.keys))
      (λ t i h. owner-append t db.keys _ i h)
