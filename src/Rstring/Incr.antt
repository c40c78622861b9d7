-- ===== src/Rstring/Incr.antt =====
-- INCR: the sum is stored as text and read back, and the expiration time stays.
use redka.Base.{
  ℤ, pos, ◌+ℤ◌, wrap, wrap-IsInt, String, true, false, Option, none, some, ◌≡◌, ◌≢◌, refl, arith,
  str_eq, eq_iff, if◌then◌else◌, Bool-cases, inl, inr, ap, ◌∙◌, IsInt,
}
use redka.Core.{Key, Value, to_int, itoa, atoi, Driver, Result, ok, Time, unix_milli, type_string}
use redka.Core.Decimal.Laws.{atoi-itoa}
use redka.Schema.{Db, live, find_key}
use redka.Schema.Valid.{IsValid, LeavesValid}
use redka.Schema.View.{not_ended}
use redka.Schema.Upsert.{upserted}
use redka.Sqlx.{pure, ◌>>◌, continue-pure}
use redka.Rstring.{get, update, string_key, update_change, incr}
use redka.Rstring.Get.{get-eq-string_at}
use redka.Rstring.Set.{Fits, get-IsStored}
use redka.Rstring.Write.{write-IsStored, write-IsValid}

pub update-IsValid :
    (key : String) (o : Option Value) (t : Time) (db : Db)
    → IsValid db
    → LeavesValid (update key o t db)
unfolding update
update-IsValid key o t db w =
    write-IsValid (string_key key none t) (update_change t) o db w (λ k. refl) (λ k. refl) refl
      (λ k. refl)

live-updated :
    (key : String) (t : Time) (db : Db) (now : ℤ)
    → live now (upserted (string_key key none t) (update_change t) db) ≡ not_ended key db now
live-updated key t db now = ground arith

-- `update` stores the value and keeps the expiration time of the row.
update-get :
    (key : String) (v : Value) (t : Time) (db : Db)
    → IsValid db
    → Fits key db
    → ((update key (some v) t db).0 ≡ ok tt)
      × ((j : String) (t' : Time)
          → get j t' (update key (some v) t db).1 ≡ (
              if str_eq key j
              then (if not_ended key db (unix_milli t') then v else "")
              else get j t' db))
unfolding update
update-get key v t db w fits =
    let (done, s) =
      write-IsStored (string_key key none t) (update_change t) (some v) db w (λ k. refl) (λ k. refl)
        refl (λ k. refl) v refl fits in
    (
      done,
      λ j t'.
          get-IsStored key j _ v t' db _ w s
          ∙ ap (λ b. if str_eq key j then (if b then v else "") else get j t' db)
              (live-updated key t db (unix_milli t')),
    )

-- the text of an integer is not empty, and is read back
pub to_int-itoa : (n : ℤ) → IsInt n → to_int (itoa n) ≡ some n
unfolding to_int
to_int-itoa n h = elim (Bool-cases (str_eq (itoa n) "")) [
  | inl blank ↦
      let e : atoi (itoa n) ≡ none =
        ap atoi ((eq_iff (itoa n) "").0 blank) ∙ (unfold atoi in refl) in
      cc (e, atoi-itoa n h)
  | inr text ↦ rw text (atoi-itoa n h)
]

str_refl : (key : String) → str_eq key key ≡ true
str_refl key = (eq_iff key key).1 refl

str_ne : (key j : String) → key ≢ j → str_eq key j ≡ false
str_ne key j ne = ground (arith, eq_iff key j)

module _ (d : Driver) where
  incr-eq :
      (key : String) (delta n : ℤ) (t t' : Time) (db : Db)
      → to_int (get key t db) ≡ some n
      → incr d key delta t t' db
        ≡ (update key (some (itoa (wrap (n +ℤ delta)))) t' >> pure (wrap (n +ℤ delta))) db
  unfolding incr
  incr-eq key delta n t t' db h = rw (h, incr) (rw (d.stored_int (wrap (n +ℤ delta))))

  -- INCR on valid tables, of a name with no row of another type whose string reads as a number (or
  -- that has none, which counts as 0): the result is the sum wrapped to 64 bits; afterwards `Get`
  -- of the name reads as that number for as long as the row that it had lasts (always, if it had
  -- none), while other names keep their strings.
  pub get-incr :
      (key : String) (delta n : ℤ) (t t' : Time) (db : Db)
      → IsValid db
      → Fits key db
      → to_int (get key t db) ≡ some n
      → ((incr d key delta t t' db).0 ≡ ok (wrap (n +ℤ delta)))
        × ((now : Time)
            → not_ended key db (unix_milli now) ≡ true
            → to_int (get key now (incr d key delta t t' db).1) ≡ some (wrap (n +ℤ delta)))
        × ((j : String) (now : Time)
            → key ≢ j
            → get j now (incr d key delta t t' db).1 ≡ get j now db)
  get-incr key delta n t t' db w fits h =
      let (done, reads) = update-get key (itoa (wrap (n +ℤ delta))) t' db w fits in
      let e = incr-eq key delta n t t' db h in
      let (result, tables) =
        continue-pure (update key (some (itoa (wrap (n +ℤ delta)))) t' db) (wrap (n +ℤ delta))
          done in
      (
        ap (λ (r : Result ℤ × Db). r.0) e ∙ result,
        λ now lasting.
            ap (λ (r : Result ℤ × Db). to_int (get key now r.1)) e
            ∙ ap (λ x. to_int (get key now x)) tables
            ∙ ap to_int (reads key now)
            ∙ rw (str_refl key, lasting) (to_int-itoa _ (wrap-IsInt (n +ℤ delta))),
        λ j now ne.
            ap (λ (r : Result ℤ × Db). get j now r.1) e
            ∙ ap (get j now) tables
            ∙ reads j now
            ∙ rw (str_ne key j ne),
      )

  -- INCR on valid tables, of a name whose string has expired and is not yet purged, returns the
  -- increment (wrapped to 64 bits) and loses it: `Get` at a time when the old row has expired
  -- finds nothing.
  pub incr_expired :
      (key : String) (delta : ℤ) (t t' now : Time) (db : Db) (old : Key)
      → IsValid db
      → find_key key db.keys ≡ some old
      → old.type_id ≡ type_string
      → live (unix_milli t) old ≡ false
      → live (unix_milli now) old ≡ false
      → ((incr d key delta t t' db).0 ≡ ok (wrap (pos 0 +ℤ delta)))
        × (get key now (incr d key delta t t' db).1 ≡ "")
  incr_expired key delta t t' now db old w f typed dead still =
      let fits : Fits key db = λ old' f'. ground (arith, f, f', typed) in
      let gone : get key t db ≡ "" = get-eq-string_at key t db w ∙ rw f (rw dead) in
      let ended : not_ended key db (unix_milli now) ≡ false = ground (arith, f, still) in
      let zero_now : to_int (get key t db) ≡ some (pos 0) = rw gone (unfold to_int in refl) in
      let (done, reads) = update-get key (itoa (wrap (pos 0 +ℤ delta))) t' db w fits in
      let e = incr-eq key delta (pos 0) t t' db zero_now in
      let (result, tables) =
        continue-pure (update key (some (itoa (wrap (pos 0 +ℤ delta)))) t' db)
          (wrap (pos 0 +ℤ delta)) done in
      (
        ap (λ (r : Result ℤ × Db). r.0) e ∙ result,
        ap (λ (r : Result ℤ × Db). get key now r.1) e
            ∙ ap (get key now) tables
            ∙ reads key now
            ∙ rw (str_refl key, ended),
      )
