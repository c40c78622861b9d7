-- ===== src/Rstring/Tests.antt =====
-- Tests and witnesses of the string repository.
use redka.Base.{
  pos, String, ◌≡◌, ◌≢◌, refl, none, some, arith, eq_iff, true, false, if◌then◌else◌, str_eq, wrap,
  ◌+ℤ◌,
}
use redka.Core.{float, str, ok, err, key_type, unix_milli, Time, to_int, atoi, is_value_type}
use redka.Sqlx.{◌>>◌, pure}
use redka.Schema.Valid.{LeavesValid}
use redka.Schema.View.{string_at, not_ended}
use redka.Rstring.{get, set_expires, set_not_exists, set_exists, incr, joined}
use redka.Rstring.Get.{or_nil, get-eq-string_at}
use redka.Rstring.Set.{
  Fits, lasts, get-set_expires, set_expires_mismatch, set_expires_null, set_if_exists,
  set_if_exists_empty,
}
use redka.Rstring.Incr.{get-incr, incr_expired}
use redka.Schema.{null_error}
use redka.Sqlx.{TxOutcome, exec_tx}
use redka.Samples.{nan, sample_driver, shop, shop-IsValid, early, late, cart_key, old_key}

abbrev committed : TxOutcome
committed = record { begin = none; commit = none }

name-Fits : Fits "name" shop
name-Fits = λ old f. ground arith

old-Fits : Fits "old" shop
old-Fits = λ old f. ground arith

ne : ◌≢◌ {A = String} "name" ""
ne = ground (arith, eq_iff "name" "")

get-set_expires_example :
    ((set_expires sample_driver "name" (str "bob") (pos 5000000000) early shop).0 ≡ ok tt)
    × LeavesValid (set_expires sample_driver "name" (str "bob") (pos 5000000000) early shop)
    × ((j : String) (t' : Time)
        → get j t' (set_expires sample_driver "name" (str "bob") (pos 5000000000) early shop).1 ≡ (
            if str_eq "name" j
            then (if lasts early (pos 5000000000) (unix_milli t') then "bob" else "")
            else get j t' shop))
unfolding is_value_type
get-set_expires_example =
    get-set_expires sample_driver "name" (str "bob") "bob" (pos 5000000000) early shop shop-IsValid
      name-Fits refl refl

set_expires_null_example :
    exec_tx committed (set_expires sample_driver "name" (float nan) (pos 0) early) shop
    ≡ (err null_error, shop)
unfolding is_value_type
set_expires_null_example =
    set_expires_null sample_driver "name" (float nan) (pos 0) early committed shop shop-IsValid
      name-Fits refl refl refl

set_expires_mismatch_example :
    set_expires sample_driver "cart" (str "bob") (pos 0) early shop ≡ (err key_type, shop)
unfolding is_value_type
set_expires_mismatch_example =
    set_expires_mismatch sample_driver "cart" (str "bob") (pos 0) early shop cart_key shop-IsValid
      refl (omega arith) refl

set_if_exists_example :
    (set_not_exists sample_driver "name" (str "bob") (pos 0) early early shop ≡ (ok false, shop))
    × (set_exists sample_driver "name" (str "bob") (pos 0) early early shop
        ≡ (set_expires sample_driver "name" (str "bob") (pos 0) early >> pure true) shop)
unfolding is_value_type
set_if_exists_example =
    set_if_exists sample_driver "name" (str "bob") (pos 0) early early shop shop-IsValid ne refl

set_if_exists_empty_example :
    (set_not_exists sample_driver "" (str "bob") (pos 0) early early shop
      ≡ (set_expires sample_driver "" (str "bob") (pos 0) early >> pure true) shop)
    × (set_exists sample_driver "" (str "bob") (pos 0) early early shop ≡ (ok false, shop))
unfolding is_value_type
set_if_exists_empty_example =
    set_if_exists_empty sample_driver (str "bob") (pos 0) early early shop shop-IsValid refl

get_old : get "old" early shop ≡ "7"
unfolding get joined unix_milli
get_old = refl

get-incr_example :
    ((incr sample_driver "old" (pos 5) early early shop).0 ≡ ok (wrap (pos 7 +ℤ pos 5)))
    × ((now : Time)
        → not_ended "old" shop (unix_milli now) ≡ true
        → to_int (get "old" now (incr sample_driver "old" (pos 5) early early shop).1)
          ≡ some (wrap (pos 7 +ℤ pos 5)))
    × ((j : String) (now : Time)
        → "old" ≢ j
        → get j now (incr sample_driver "old" (pos 5) early early shop).1 ≡ get j now shop)
unfolding atoi to_int
get-incr_example =
    get-incr sample_driver "old" (pos 5) (pos 7) early early shop shop-IsValid old-Fits
      (rw get_old refl)

incr_expired_example :
    ((incr sample_driver "old" (pos 5) late late shop).0 ≡ ok (wrap (pos 0 +ℤ pos 5)))
    × (get "old" late (incr sample_driver "old" (pos 5) late late shop).1 ≡ "")
unfolding unix_milli
incr_expired_example =
    incr_expired sample_driver "old" (pos 5) late late late shop old_key shop-IsValid refl refl refl
      refl

get-eq-string_at_example : get "name" early shop ≡ or_nil (string_at "name" (unix_milli early) shop)
get-eq-string_at_example = get-eq-string_at "name" early shop shop-IsValid
