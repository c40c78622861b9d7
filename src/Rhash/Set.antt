-- ===== src/Rhash/Set.antt =====
-- HSET and its variants as a reader sees them.
use redka.Base.{
  ℕ, ℤ, String, true, false, ◌&&◌, not, Option, none, some, List, [], ◌∷◌, ◌≡◌, ◌≢◌, refl, arith,
  ◌==◌, ==_iff, str_eq, eq_iff, is_some, All, if◌then◌else◌, Bool-cases, inl, inr, ap, ◌∙◌,
  Option-cases, sym, subst,
}
use mathlib.Core.Option
use redka.Core.{
  Key, Value, AnyValue, is_value_type, Driver, key_type, not_found, ok, err, Time, unix_milli,
  type_hash,
}
use redka.Schema.{null_error, Db, HashRow, live, find_key, find_field, next_id}
use redka.Schema.Valid.{IsValid, LeavesValid, owner, of_type, find_id-next_id}
use redka.Schema.View.{not_ended, ids_differ}
use redka.Sqlx.{continue-pure, continue_err, TxOutcome, exec_tx, exec_tx-err}
use redka.Rhash.{get, set, set_value, set_not_exists, exists, count, found_value}
use redka.Rhash.View.{field_at, get-eq-field_at, exists-eq-is_some_field, count-field_at}
use redka.Rhash.Write.{IsStored, stored_row, set_value-IsStored, set_value-mismatch, set_value-null}

-- the name may hold a hash: it has no row, live or expired, of another type
abbrev pub Fits : String → Db → Type 0
Fits key db = (old : Key) → find_key key db.keys ≡ some old → old.type_id ≡ type_hash

ok_of_value :
    (o : Option HashRow) (v : Value)
    → Option.map (λ (h : HashRow). h.value) o ≡ some v
    → found_value o ≡ ok v
ok_of_value none v e = cc
ok_of_value (some h) v e = cc

-- no field belongs to an id that has no key
unowned :
    (ks : List Key) (hs : List HashRow) (i : ℕ) (g : String)
    → All (λ (h : HashRow). owner type_hash ks h.key_id ≡ true) hs
    → owner type_hash ks i ≡ false
    → find_field i g hs ≡ none
unowned ks [] i g o n = refl
unowned ks (h ∷ hs) i g o n = elim (Bool-cases (h.key_id == i)) [
  | inl same ↦
      let e : h.key_id ≡ i = (==_iff h.key_id i).0 same in cc (o.0, n, ap (owner type_hash ks) e)
  | inr differ ↦ rw differ (unowned ks hs i g o.1 n)
]

module _ (key : String) (f : String) (v : Value) (t : Time) (db db' : Db) (w : IsValid db)
    (s : IsStored key (stored_row key t db) f v db db') where
  live-row : (now : ℤ) → live now (stored_row key t db) ≡ not_ended key db now
  live-row now = ground arith

  -- the other fields of the row
  row_field :
      (now : ℤ) (g : String)
      → not_ended key db now ≡ true
      → find_field (stored_row key t db).id g db.hashes ≡ field_at key g now db
  row_field now g lasting = elim (Option-cases (find_key key db.keys)) [
    | inl free ↦
        let n : owner type_hash db.keys (next_id db.keys) ≡ false =
          ap (of_type type_hash) (find_id-next_id db.keys) in
        let new : (stored_row key t db).id ≡ next_id db.keys = ground (arith, free) in
        ap (λ i. find_field i g db.hashes) new
        ∙ unowned db.keys db.hashes (next_id db.keys) g w.hashes_owned n
        ∙ rw free
    | inr (old, e) ↦
        let alive : live now old ≡ true = ground (arith, e, lasting) in
        let same : (stored_row key t db).id ≡ old.id = ground (arith, e) in
        ap (λ i. find_field i g db.hashes) same ∙ rw e (rw alive)
  ]

  get-same_name :
      (g : String) (t' : Time)
      → found_value (field_at key g (unix_milli t') db') ≡ (
          if str_eq f g
          then (if not_ended key db (unix_milli t') then ok v else err not_found)
          else found_value (field_at key g (unix_milli t') db))
  get-same_name g t' = elim (Bool-cases (not_ended key db (unix_milli t'))) [
    | inl lasting ↦ rw s.found (
        rw (live-row (unix_milli t') ∙ lasting) (elim (Bool-cases (str_eq f g)) [
          | inl same ↦
              rw (same, lasting)
                (ok_of_value _ v (
                  ap
                    (λ h.
                      Option.map (λ (h : HashRow). h.value)
                        (find_field (stored_row key t db).id h db'.hashes))
                    (sym ((eq_iff f g).0 same))
                  ∙ s.value))
          | inr other ↦ rw other (
              ap found_value (
                s.other_fields (stored_row key t db).id g (ground (arith, other))
                ∙ row_field (unix_milli t') g lasting))
        ]))
    | inr over ↦ rw s.found (
        rw (live-row (unix_milli t') ∙ over) (
          rw over (elim (Option-cases (find_key key db.keys)) [
            | inl free ↦ ground (arith, free, over)
            | inr (old, e) ↦
                let dead : live (unix_milli t') old ≡ false = ground (arith, e, over) in
                rw e (rw dead (ground arith))
          ])))
  ]

  get-other_name : (j g : String) (now : ℤ) → key ≢ j → field_at j g now db' ≡ field_at j g now db
  get-other_name j g now ne = elim (Option-cases (find_key j db.keys)) [
    | inl free ↦ rw (s.others j ne) (rw free)
    | inr (r, e) ↦
        let e' : find_key j db'.keys ≡ some r = s.others j ne ∙ e in
        let apart : (stored_row key t db).id ≢ r.id =
          ids_differ db' key j (stored_row key t db) r s.valid s.found e' ne in
        rw (e', e)
          (elim (Bool-cases (live now r)) [
            | inl alive ↦ rw alive (s.other_fields r.id g (ground (arith, apart)))
            | inr dead ↦ rw dead
          ])
  ]

  -- What `Get` returns after a write.
  get-IsStored :
      (j g : String) (t' : Time)
      → get j g t' db' ≡ (
          if str_eq key j && str_eq f g
          then (if not_ended key db (unix_milli t') then ok v else err not_found)
          else get j g t' db)
  get-IsStored j g t' = get-eq-field_at j g t' db' s.valid ∙ elim (Bool-cases (str_eq key j)) [
    | inl same ↦ rw same (
        let e : key ≡ j = (eq_iff key j).0 same in
        ap (λ n. found_value (field_at n g (unix_milli t') db')) (sym e)
        ∙ get-same_name g t'
        ∙ ap
            (λ r.
              if str_eq f g
              then (if not_ended key db (unix_milli t') then ok v else err not_found)
              else r)
            (ap (λ n. found_value (field_at n g (unix_milli t') db)) e
              ∙ sym (get-eq-field_at j g t' db w)))
    | inr other ↦ rw other (
        ap found_value (get-other_name j g (unix_milli t') (λ p. cc (other, (eq_iff key j).1 p)))
        ∙ sym (get-eq-field_at j g t' db w))
  ]

-- what is read after a successful write of a field
abbrev pub Reads : String → String → Value → Db → Db → Type 0
Reads key f v db db' =
    (j g : String) (t' : Time)
    → get j g t' db' ≡ (
        if str_eq key j && str_eq f g
        then (if not_ended key db (unix_milli t') then ok v else err not_found)
        else get j g t' db)

pub set_value-Reads :
    (key f : String) (v : Value) (t : Time) (db : Db)
    → IsValid db
    → Fits key db
    → ((set_value key f (some v) t db).0 ≡ ok tt)
      × IsValid (set_value key f (some v) t db).1
      × Reads key f v db (set_value key f (some v) t db).1
set_value-Reads key f v t db w fits =
    let (done, s) = set_value-IsStored key f (some v) t db w v refl fits in
    (done, s.valid, get-IsStored key f v t db _ w s)

module _ (d : Driver) where
  -- HSET of one field to a value of a good type that is not bound as a null, on valid tables where the
  -- name has no row of another type: `Set` returns whether the hash that the name has lacked the field, the tables
  -- stay valid, and afterwards `Get` of the field returns the stored value for as long as the row
  -- that the name had lasts (always, if it had none), and of every other field of every name what
  -- it did.
  pub get-set :
      (key f : String) (v : AnyValue) (x : Value) (t t' : Time) (db : Db)
      → IsValid db
      → Fits key db
      → is_value_type v ≡ true
      → d.stored v ≡ some x
      → ((set d key f v t t' db).0 ≡ ok (not (is_some (field_at key f (unix_milli t) db))))
        × LeavesValid (set d key f v t t' db)
        × Reads key f x db (set d key f v t t' db).1
  unfolding set
  get-set key f v x t t' db w fits good bound =
      let (done, valid, reads) = set_value-Reads key f x t' db w fits in
      let (result, tables) =
        continue-pure (set_value key f (some x) t' db) (count key (f ∷ []) t db == 0) done in
      let created : (count key (f ∷ []) t db == 0)
          ≡ not (is_some (field_at key f (unix_milli t) db)) =
        ground (arith, count-field_at key f t db w) in
      rw (good, bound)
        (
          result ∙ ap ok created,
          subst IsValid (sym tables) valid,
          subst (Reads key f x db) (sym tables) reads,
        )

  -- HSETNX of a value of a good type that is not bound as a null, on valid tables where the
  -- name has no row of another type: `SetNotExists` returns whether the hash that the name has
  -- lacked the field; if it did, the field is read afterwards as after `Set`; in any case every other field is read as before, and
  -- so is the field that was there.
  pub set_not_exists_lem :
      (key f : String) (v : AnyValue) (x : Value) (t t' : Time) (db : Db)
      → IsValid db
      → Fits key db
      → is_value_type v ≡ true
      → d.stored v ≡ some x
      → ((set_not_exists d key f v t t' db).0
          ≡ ok (not (is_some (field_at key f (unix_milli t) db))))
        × ((j g : String) (now : Time)
            → get j g now (set_not_exists d key f v t t' db).1 ≡ (
                if not (is_some (field_at key f (unix_milli t) db)) && (str_eq key j && str_eq f g)
                then (if not_ended key db (unix_milli now) then ok x else err not_found)
                else get j g now db))
  unfolding set_not_exists
  set_not_exists_lem key f v x t t' db w fits good bound =
      let (done, valid, reads) = set_value-Reads key f x t' db w fits in
      let (result, tables) = continue-pure (set_value key f (some x) t' db) true done in
      let e = exists-eq-is_some_field key f t db w in
      elim (Bool-cases (is_some (field_at key f (unix_milli t) db))) [
        | inl there ↦ rw (good, e ∙ there) (rw there (refl, λ j g now. refl))
        | inr absent ↦
            rw (good, e ∙ absent)
              (rw (absent, bound) (result, λ j g now. ap (get j g now) tables ∙ reads j g now))
      ]

  -- HSET to a value of a good type that is bound as a null (a NaN, a nil byte slice), on valid tables
  -- where the name has no row of another type, fails with SQLite's error, and in a transaction of its
  -- own that begins it leaves the tables as they were.
  pub set_null :
      (key f : String) (v : AnyValue) (t t' : Time) (o : TxOutcome) (db : Db)
      → IsValid db
      → Fits key db
      → is_value_type v ≡ true
      → d.stored v ≡ none
      → o.begin ≡ none
      → exec_tx o (set d key f v t t') db ≡ (err null_error, db)
  unfolding set
  set_null key f v t t' o db w fits good null began =
      let failed : (set_value key f none t' db).0 ≡ err null_error =
        set_value-null key f none t' db w refl fits in
      exec_tx-err o (set d key f v t t') db null_error began
        (rw (good, null) (continue_err (set_value key f none t' db) _ null_error failed))

  -- HSET and HSETNX of a field that is not found, to a value of a good type, on valid tables where
  -- the name has a row of another type, live or expired, return `ErrKeyType` and change nothing.
  pub set_mismatch :
      (key f : String) (v : AnyValue) (t t' : Time) (db : Db) (old : Key)
      → IsValid db
      → find_key key db.keys ≡ some old
      → old.type_id ≢ type_hash
      → is_value_type v ≡ true
      → exists key f t db ≡ false
      → (set d key f v t t' db ≡ (err key_type, db))
        × (set_not_exists d key f v t t' db ≡ (err key_type, db))
  unfolding set set_not_exists
  set_mismatch key f v t t' db old w e ne good absent =
      let failed = set_value-mismatch key f (d.stored v) t' db w old e ne in
      (rw good (rw failed), rw (good, absent) (rw failed))
