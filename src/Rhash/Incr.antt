-- ===== src/Rhash/Incr.antt =====
-- HINCRBY: the sum is stored as text and read back, and the expiration time stays.
use redka.Base.{
  ℤ, pos, ◌+ℤ◌, wrap, wrap-IsInt, String, true, false, some, ◌≡◌, refl, arith, str_eq, eq_iff, ap,
  ◌∙◌,
}
use redka.Core.{Key, to_int, itoa, Driver, not_found, Result, ok, err, Time, unix_milli, type_hash}
use redka.Schema.{Db, live, find_key}
use redka.Schema.Valid.{IsValid}
use redka.Schema.View.{not_ended}
use redka.Sqlx.{pure, continue-pure, ◌>>◌}
use redka.Rstring.Incr.{to_int-itoa}
use redka.Rhash.{get, set_value, incr, or_nil}
use redka.Rhash.View.{get-eq-field_at}
use redka.Rhash.Set.{Fits, Reads, set_value-Reads}

str_refl : (s : String) → str_eq s s ≡ true
str_refl s = (eq_iff s s).1 refl

module _ (d : Driver) where
  incr-eq :
      (key f : String) (delta n : ℤ) (t t' : Time) (db : Db)
      → to_int (or_nil (get key f t db)) ≡ some n
      → incr d key f delta t t' db
        ≡ (set_value key f (some (itoa (wrap (n +ℤ delta)))) t' >> pure (wrap (n +ℤ delta))) db
  unfolding incr
  incr-eq key f delta n t t' db h = rw (h, incr) (rw (d.stored_int (wrap (n +ℤ delta))))

  -- HINCRBY on valid tables, where the name has no row of another type and the field reads as a
  -- number (or is missing, which counts as 0): the result is the sum wrapped to 64 bits; the field
  -- then has its text for as long as the row that the name had lasts (always, if it had none), and
  -- the text reads as that number; every other field of every name has what it had.
  pub get-incr_field :
      (key f : String) (delta n : ℤ) (t t' : Time) (db : Db)
      → IsValid db
      → Fits key db
      → to_int (or_nil (get key f t db)) ≡ some n
      → ((incr d key f delta t t' db).0 ≡ ok (wrap (n +ℤ delta)))
        × Reads key f (itoa (wrap (n +ℤ delta))) db (incr d key f delta t t' db).1
        × (to_int (itoa (wrap (n +ℤ delta))) ≡ some (wrap (n +ℤ delta)))
  get-incr_field key f delta n t t' db w fits h =
      let (done, valid, reads) = set_value-Reads key f (itoa (wrap (n +ℤ delta))) t' db w fits in
      let e = incr-eq key f delta n t t' db h in
      let (result, tables) =
        continue-pure (set_value key f (some (itoa (wrap (n +ℤ delta)))) t' db) (wrap (n +ℤ delta))
          done in
      (
        ap (λ (r : Result ℤ × Db). r.0) e ∙ result,
        λ j g now.
            ap (λ (r : Result ℤ × Db). get j g now r.1) e ∙ ap (get j g now) tables ∙ reads j g now,
        to_int-itoa _ (wrap-IsInt (n +ℤ delta)),
      )

  -- HINCRBY on valid tables, of a name whose hash has expired and is not yet purged, returns the
  -- increment (wrapped to 64 bits) and loses it: `Get` at a time when the old row has expired
  -- finds nothing.
  pub incr_field_expired :
      (key f : String) (delta : ℤ) (t t' now : Time) (db : Db) (old : Key)
      → IsValid db
      → find_key key db.keys ≡ some old
      → old.type_id ≡ type_hash
      → live (unix_milli t) old ≡ false
      → live (unix_milli now) old ≡ false
      → ((incr d key f delta t t' db).0 ≡ ok (wrap (pos 0 +ℤ delta)))
        × (get key f now (incr d key f delta t t' db).1 ≡ err not_found)
  incr_field_expired key f delta t t' now db old w e typed dead still =
      let fits : Fits key db = λ old' e'. ground (arith, e, e', typed) in
      let gone : get key f t db ≡ err not_found = get-eq-field_at key f t db w ∙ rw e (rw dead) in
      let ended : not_ended key db (unix_milli now) ≡ false = ground (arith, e, still) in
      let zero_now : to_int (or_nil (get key f t db)) ≡ some (pos 0) =
        rw gone (unfold to_int in refl) in
      let (result, reads, text) = get-incr_field key f delta (pos 0) t t' db w fits zero_now in
      (result, reads key f now ∙ rw (str_refl key, str_refl f, ended))
