-- ===== src/Rstring/Set.antt =====
-- SET and its variants as a reader sees them.
use redka.Base.{
  ℤ, pos, ◌+ℤ◌, String, Bool, true, false, Option, none, some, ◌≡◌, ◌≢◌, refl, arith, str_eq,
  eq_iff, ltb_ℤ, is_some, if◌then◌else◌, Bool-cases, inl, inr, ap, ◌∙◌, Option-cases, sym,
}
use redka.Core.{
  Key, key_exists, Value, AnyValue, is_value_type, Driver, key_type, Result, ok, err, Time,
  Duration, unix_milli, type_string,
}
use redka.Schema.{null_error, Db, live, find_key, find_string}
use redka.Schema.Valid.{IsValid, LeavesValid}
use redka.Schema.View.{entry, string_at, key-find_key, ids_differ}
use redka.Schema.Upsert.{upserted}
use redka.Sqlx.{pure, continue, ◌>>◌, TxOutcome, exec_tx, exec_tx-err}
use redka.Rkey
use redka.Rkey.Rename.{get-eq-entry}
use redka.Rstring.{
  get, set_value, string_key, set_change, etime_of, set_expires, set_not_exists, set_exists,
  get_set,
}
use redka.Rstring.Get.{or_nil, get-eq-string_at}
use redka.Rstring.Write.{IsStored, write-IsStored, write-IsValid, write-null, write_mismatch}

-- A write leaves the strings of the other names.
string_at-IsStored :
    (key j : String) (k : Key) (v : Value) (now : ℤ) (db db' : Db)
    → IsStored key k v db db'
    → key ≢ j
    → string_at j now db' ≡ string_at j now db
string_at-IsStored key j k v now db db' s ne = elim (Option-cases (find_key j db.keys)) [
  | inl free ↦ rw (s.others j ne) (rw free)
  | inr (r, f) ↦
      let f' : find_key j db'.keys ≡ some r = s.others j ne ∙ f in
      let kept : find_string r.id db'.strings ≡ find_string r.id db.strings =
        s.other_strings r.id (ids_differ db' key j k r s.valid s.found f' ne) in
      rw (f', f)
        (elim (Bool-cases (live now r)) [ inl alive ↦ rw alive (rw kept) | inr dead ↦ rw dead ])
]

-- What `Get` returns after a write.
pub get-IsStored :
    (key j : String) (k : Key) (v : Value) (t : Time) (db db' : Db)
    → IsValid db
    → IsStored key k v db db'
    → get j t db' ≡ (if str_eq key j then (if live (unix_milli t) k then v else "") else get j t db)
get-IsStored key j k v t db db' w s = elim (Bool-cases (str_eq key j)) [
  | inl same ↦
      get-eq-string_at j t db' s.valid
      ∙ rw same (
          let e : key ≡ j = (eq_iff key j).0 same in
          let found : find_key j db'.keys ≡ some k =
            ap (λ n. find_key n db'.keys) (sym e) ∙ s.found in
          rw found (elim (Bool-cases (live (unix_milli t) k)) [
            | inl alive ↦ rw alive (rw s.value)
            | inr dead ↦ rw dead
          ]))
  | inr other ↦
      get-eq-string_at j t db' s.valid
      ∙ rw other (
          ap or_nil (
            string_at-IsStored key j k v (unix_milli t) db db' s
              (λ p. cc (other, (eq_iff key j).1 p)))
          ∙ sym (get-eq-string_at j t db w))
]

-- the name may hold a string: it has no row, live or expired, of another type
abbrev pub Fits : String → Db → Type 0
Fits key db = (old : Key) → find_key key db.keys ≡ some old → old.type_id ≡ type_string

set_value-IsStored :
    (key : String) (v : Value) (ttl : Duration) (t : Time) (db : Db)
    → IsValid db
    → Fits key db
    → ((set_value key (some v) ttl t db).0 ≡ ok tt)
      × IsStored key
          (upserted (string_key key (etime_of t ttl) t) (set_change (etime_of t ttl) t) db)
          v
          db
          (set_value key (some v) ttl t db).1
unfolding set_value
set_value-IsStored key v ttl t db w fits =
    write-IsStored (string_key key (etime_of t ttl) t) (set_change (etime_of t ttl) t) (some v) db w
      (λ k. refl) (λ k. refl) refl (λ k. refl) v refl fits

pub set_value-IsValid :
    (key : String) (o : Option Value) (ttl : Duration) (t : Time) (db : Db)
    → IsValid db
    → LeavesValid (set_value key o ttl t db)
unfolding set_value
set_value-IsValid key o ttl t db w =
    write-IsValid (string_key key (etime_of t ttl) t) (set_change (etime_of t ttl) t) o db w
      (λ k. refl) (λ k. refl) refl (λ k. refl)

-- whether a key that is set at `t` with the ttl is there at `now`
abbrev pub lasts : Time → Duration → ℤ → Bool
lasts t ttl now = if ltb_ℤ (pos 0) ttl then ltb_ℤ now (unix_milli (t +ℤ ttl)) else true

live-upserted :
    (key : String) (ttl : Duration) (t : Time) (db : Db) (now : ℤ)
    → live now (upserted (string_key key (etime_of t ttl) t) (set_change (etime_of t ttl) t) db)
      ≡ lasts t ttl now
live-upserted key ttl t db now = ground arith

module _ (d : Driver) where
  -- SET of a value of a good type that is not bound as a null, on valid tables where the name has no
  -- row of another type: `SetExpires` succeeds, the tables stay valid, and afterwards `Get` of the
  -- name returns the stored value exactly as long as the ttl says (always, if it is not positive),
  -- while `Get` of every other name returns what it did.
  pub get-set_expires :
      (key : String) (v : AnyValue) (x : Value) (ttl : Duration) (t : Time) (db : Db)
      → IsValid db
      → Fits key db
      → is_value_type v ≡ true
      → d.stored v ≡ some x
      → ((set_expires d key v ttl t db).0 ≡ ok tt)
        × LeavesValid (set_expires d key v ttl t db)
        × ((j : String) (t' : Time)
            → get j t' (set_expires d key v ttl t db).1 ≡ (
                if str_eq key j
                then (if lasts t ttl (unix_milli t') then x else "")
                else get j t' db))
  unfolding set_expires
  get-set_expires key v x ttl t db w fits good bound =
      let (done, s) = set_value-IsStored key x ttl t db w fits in
      rw (good, bound)
        (
          done,
          s.valid,
          λ j t'.
              get-IsStored key j _ x t' db _ w s
              ∙ ap (λ b. if str_eq key j then (if b then x else "") else get j t' db)
                  (live-upserted key ttl t db (unix_milli t')),
        )

  -- SET of a value of a good type that is bound as a null (a NaN, a nil byte slice), on valid tables
  -- where the name has no row of another type, fails with SQLite's error, and in a transaction of its
  -- own that begins it leaves the tables as they were.
  pub set_expires_null :
      (key : String) (v : AnyValue) (ttl : Duration) (t : Time) (o : TxOutcome) (db : Db)
      → IsValid db
      → Fits key db
      → is_value_type v ≡ true
      → d.stored v ≡ none
      → o.begin ≡ none
      → exec_tx o (set_expires d key v ttl t) db ≡ (err null_error, db)
  unfolding set_expires set_value
  set_expires_null key v ttl t o db w fits good null began =
      let failed : (set_expires d key v ttl t db).0 ≡ err null_error =
        rw (good, null)
          (write-null (string_key key (etime_of t ttl) t) (set_change (etime_of t ttl) t) none db w
            (λ k. refl) (λ k. refl) refl (λ k. refl) refl fits) in
      exec_tx-err o (set_expires d key v ttl t) db null_error began failed

  -- SET of a value of a good type, on valid tables where the name has a row of another type,
  -- expired or not, returns `ErrKeyType` and changes nothing.
  pub set_expires_mismatch :
      (key : String) (v : AnyValue) (ttl : Duration) (t : Time) (db : Db) (old : Key)
      → IsValid db
      → find_key key db.keys ≡ some old
      → old.type_id ≢ type_string
      → is_value_type v ≡ true
      → set_expires d key v ttl t db ≡ (err key_type, db)
  unfolding set_expires set_value
  set_expires_mismatch key v ttl t db old w f ne good = rw good (
      write_mismatch (string_key key (etime_of t ttl) t) (set_change (etime_of t ttl) t)
        (d.stored v) db w (λ k. refl) (λ k. refl) refl (λ k. refl) old f ne)

-- `Key.Exists` of the key that `Get` returns: the name has a live key, unless it is the empty name.
pub key_exists-get :
    (key : String) (t : Time) (db : Db)
    → IsValid db
    → key ≢ ""
    → key_exists (Rkey.get key t db) ≡ is_some (entry key (unix_milli t) db)
key_exists-get key t db w named =
    rw (get-eq-entry key t db w) (elim (Option-cases (entry key (unix_milli t) db)) [
      | inl gone ↦ rw gone
      | inr (k, e) ↦ rw e (ground (arith, key-find_key key db.keys k (found k e), eq_iff k.key ""))
    ])
  where
    found : (k : Key) → entry key (unix_milli t) db ≡ some k → find_key key db.keys ≡ some k
    found k e = ground arith

key_exists-get_empty : (t : Time) (db : Db) → IsValid db → key_exists (Rkey.get "" t db) ≡ false
key_exists-get_empty t db w =
    rw (get-eq-entry "" t db w) (elim (Option-cases (entry "" (unix_milli t) db)) [
      | inl gone ↦ rw gone
      | inr (k, e) ↦ rw e (ground (arith, key-find_key "" db.keys k (found k e), eq_iff k.key ""))
    ])
  where
    found : (k : Key) → entry "" (unix_milli t) db ≡ some k → find_key "" db.keys ≡ some k
    found k e = ground arith

module _ (d : Driver) where
  -- SET NX and SET XX of a value of a good type, on valid tables, for a name that is not empty: NX
  -- writes exactly when the name has no live key, XX exactly when it has one; else they return
  -- false and change nothing. The write is that of SET, and is followed by true.
  pub set_if_exists :
      (key : String) (v : AnyValue) (ttl : Duration) (t t' : Time) (db : Db)
      → IsValid db
      → key ≢ ""
      → is_value_type v ≡ true
      → (set_not_exists d key v ttl t t' db ≡ (
          if is_some (entry key (unix_milli t) db)
          then (ok false, db)
          else (set_expires d key v ttl t' >> pure true) db))
        × (set_exists d key v ttl t t' db ≡ (
            if is_some (entry key (unix_milli t) db)
            then (set_expires d key v ttl t' >> pure true) db
            else (ok false, db)))
  unfolding set_not_exists set_exists set_expires
  set_if_exists key v ttl t t' db w named good =
      rw (good, key_exists-get key t db w named)
        (
          refl,
          elim (Bool-cases (is_some (entry key (unix_milli t) db))) [
            | inl there ↦ rw there
            | inr gone ↦ rw gone
          ],
        )

  -- SET NX and SET XX of a value of a good type for the empty name, on valid tables: NX writes as
  -- SET does, also over a live key, and XX returns false and changes nothing.
  pub set_if_exists_empty :
      (v : AnyValue) (ttl : Duration) (t t' : Time) (db : Db)
      → IsValid db
      → is_value_type v ≡ true
      → (set_not_exists d "" v ttl t t' db ≡ (set_expires d "" v ttl t' >> pure true) db)
        × (set_exists d "" v ttl t t' db ≡ (ok false, db))
  unfolding set_not_exists set_exists set_expires
  set_if_exists_empty v ttl t t' db w good = rw (good, key_exists-get_empty t db w) (refl, refl)

  -- GETSET of a value of a good type that is not a null, on valid tables where the name has no row of another type,
  -- returns what `Get` returned before, and leaves the tables that SET leaves.
  pub get_set_lem :
      (key : String) (v : AnyValue) (x : Value) (ttl : Duration) (t t' : Time) (db : Db)
      → IsValid db
      → Fits key db
      → is_value_type v ≡ true
      → d.stored v ≡ some x
      → ((get_set d key v ttl t t' db).0 ≡ ok (get key t db))
        × ((get_set d key v ttl t t' db).1 ≡ (set_expires d key v ttl t' db).1)
  unfolding get_set set_expires
  get_set_lem key v x ttl t t' db w fits good bound =
      let (done, s) = set_value-IsStored key x ttl t' db w fits in
      rw (good, bound) (after (set_value key (some x) ttl t' db) done)
    where
      after :
          (r : Result Unit × Db)
          → r.0 ≡ ok tt
          → ((continue r (λ _. pure (get key t db))).0 ≡ ok (get key t db))
            × ((continue r (λ _. pure (get key t db))).1 ≡ r.1)
      after (ok u, db') h = (refl, refl)
      after (err e, db') h = cc
