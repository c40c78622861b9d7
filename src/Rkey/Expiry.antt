-- ===== src/Rkey/Expiry.antt =====
-- Time to live: `ExpireAt` and `Persist` set it exactly, deletion and the background purge of
-- expired rows are seen as they should be.
use redka.Base.{
  ℤ, ◌≤ℤ◌, String, Bool, true, false, not, none, some, List, [], ◌∷◌, ◌≡◌, ◌≢◌, refl, arith, ltb,
  ltb_ℤ, eq_iff, first, keep, guarded, length, is_some, if◌then◌else◌, inl, inr, ap, ◌∙◌,
  Option-cases,
}
use redka.Core.{Key, Time, unix_milli}
use redka.Schema.{Db, live, expired, find_key, update_keys}
use redka.Schema.Valid.{IsValid}
use redka.Schema.View.{
  entry, first-eq-entry, find_key-delete_keys, find_key-update_keys, key-find_key,
}
use redka.Rkey.{by_key, among, is_in, count, exists, delete, expire_at, persist}

pub count_pos {ℓ} :
    {A : Type ℓ} (p : A → Bool) (xs : List A) → ltb 0 (length (keep p xs)) ≡ is_some (first p xs)
count_pos p [] = refl
count_pos p (x ∷ xs) = ground (arith, count_pos p xs)

among-eq-by_key :
    (key : String) (now : ℤ) (ks : List Key)
    → keep (among (key ∷ []) now) ks ≡ keep (by_key key now) ks
among-eq-by_key key now [] = refl
among-eq-by_key key now (k ∷ ks) =
    ground (arith, among-eq-by_key key now ks, eq_iff k.key key, eq_iff key k.key)

-- On valid tables `Exists` tells whether the name has a live key.
pub exists-eq-is_some :
    (key : String) (t : Time) (db : Db)
    → IsValid db
    → exists key t db ≡ is_some (entry key (unix_milli t) db)
unfolding exists count
exists-eq-is_some key t db v =
    rw among-eq-by_key (count_pos _ db.keys ∙ ap is_some (first-eq-entry key (unix_milli t) db v))

-- The statement `update rkey set … where key = :key and (…)` at a live key.
module _ (key : String) (now : ℤ) (change : Key → Key) (named : (k : Key) → (change k).key ≡ k.key)
    (db : Db) where
  found_touched :
      (old : Key)
      → find_key key db.keys ≡ some old
      → live now old ≡ true
      → find_key key (update_keys (by_key key now) change db).keys ≡ some (change old)
  found_touched old f alive =
      let same : old.key ≡ key = key-find_key key db.keys old f in
      find_key-update_keys (by_key key now) change key db named
      ∙ rw f (ground (arith, alive, eq_iff old.key key))

  found_untouched :
      (j : String)
      → key ≢ j
      → find_key j (update_keys (by_key key now) change db).keys ≡ find_key j db.keys
  found_untouched j ne =
      find_key-update_keys (by_key key now) change j db named
      ∙ elim (Option-cases (find_key j db.keys)) [
        | inl free ↦ rw free
        | inr (k, h) ↦
            let same : k.key ≡ j = key-find_key j db.keys k h in
            rw h (ground (arith, eq_iff k.key key))
      ]

  counted : IsValid db → ltb 0 (length (keep (by_key key now) db.keys)) ≡ is_some (entry key now db)
  counted v = count_pos _ db.keys ∙ ap is_some (first-eq-entry key now db v)

pub live-entry :
    (key : String) (now : ℤ) (db : Db) (old : Key)
    → entry key now db ≡ some old
    → (find_key key db.keys ≡ some old) × (live now old ≡ true)
live-entry key now db old e = ground arith

-- `ExpireAt` of a live key, on valid tables, returns true; afterwards the name has the key, with
-- the given expiration time, exactly before that time; every other name keeps its row.
pub expire_at_lem :
    (key : String) (at t : Time) (db : Db) (old : Key)
    → IsValid db
    → entry key (unix_milli t) db ≡ some old
    → ((expire_at key at t db).0 ≡ true)
      × ((now : ℤ)
          → entry key now (expire_at key at t db).1 ≡ (
              if ltb_ℤ now (unix_milli at)
              then some (record old { etime = some (unix_milli at) })
              else none))
      × ((j : String) → key ≢ j → find_key j (expire_at key at t db).1.keys ≡ find_key j db.keys)
unfolding expire_at
expire_at_lem key at t db old v e =
    let f : Key → Key = λ k. record k { etime = some (unix_milli at) } in
    let (found, alive) = live-entry key (unix_milli t) db old e in
    (
      counted key (unix_milli t) f (λ k. refl) db v ∙ rw e,
      λ now. rw (found_touched key (unix_milli t) f (λ k. refl) db old found alive),
      found_untouched key (unix_milli t) f (λ k. refl) db,
    )

-- `Persist` of a live key, on valid tables, returns true; afterwards the name has the key at every
-- time, with no expiration time; every other name keeps its row.
pub persist_lem :
    (key : String) (t : Time) (db : Db) (old : Key)
    → IsValid db
    → entry key (unix_milli t) db ≡ some old
    → ((persist key t db).0 ≡ true)
      × ((now : ℤ) → entry key now (persist key t db).1 ≡ some (record old { etime = none }))
      × ((j : String) → key ≢ j → find_key j (persist key t db).1.keys ≡ find_key j db.keys)
unfolding persist
persist_lem key t db old v e =
    let f : Key → Key = λ k. record k { etime = none } in
    let (found, alive) = live-entry key (unix_milli t) db old e in
    (
      counted key (unix_milli t) f (λ k. refl) db v ∙ rw e,
      λ now. rw (found_touched key (unix_milli t) f (λ k. refl) db old found alive),
      found_untouched key (unix_milli t) f (λ k. refl) db,
    )

-- what is live later is live now
pub live_before : (now later : ℤ) (k : Key) → now ≤ℤ later → live later k ≡ true → live now k ≡ true
live_before now later k h l = ground arith

pub expired-eq : (now : ℤ) (k : Key) → expired now k ≡ not (live now k)
expired-eq now k = ground arith

-- `DEL` on valid tables: none of the given names has a live key from the time of the deletion on,
-- and every other name keeps its row.
pub delete_lem :
    (keys : List String) (t : Time) (db : Db)
    → IsValid db
    → ((j : String) (now : ℤ)
        → is_in keys j ≡ true
        → unix_milli t ≤ℤ now
        → entry j now (delete keys t db).1 ≡ none)
      × ((j : String)
          → is_in keys j ≡ false
          → find_key j (delete keys t db).1.keys ≡ find_key j db.keys)
unfolding delete
delete_lem keys t db v = (
  λ j now given later.
      ap (guarded (live now)) (find_key-delete_keys _ db v j)
      ∙ elim (Option-cases (find_key j db.keys)) [
        | inl free ↦ rw free
        | inr (k, h) ↦
            let same : k.key ≡ j = key-find_key j db.keys k h in
            rw h (ground (arith, live_before (unix_milli t) now k later, same))
      ],
  λ j spared. find_key-delete_keys _ db v j ∙ elim (Option-cases (find_key j db.keys)) [
    | inl free ↦ rw free
    | inr (k, h) ↦ let same : k.key ≡ j = key-find_key j db.keys k h in rw h (ground (arith, same))
  ],
)
