-- ===== src/Rhash/Tests.antt =====
-- Tests and witnesses of the hash repository.
use redka.Base.{
  pos, String, ◌≡◌, refl, some, [], ◌∷◌, ◌&&◌, not, is_some, if◌then◌else◌, str_eq, wrap, ◌+ℤ◌,
  arith,
}
use redka.Core.{str, ok, err, not_found, unix_milli, Time, is_value_type, to_int, itoa, atoi}
use redka.Schema.Valid.{LeavesValid}
use redka.Rkey.{is_in}
use redka.Rhash.{get, set, set_not_exists, incr, delete}
use redka.Rhash.View.{field_at}
use redka.Rhash.Set.{Fits, Reads, get-set, set_not_exists_lem}
use redka.Rhash.Incr.{get-incr_field, incr_field_expired}
use redka.Rhash.Delete.{delete_fields}
use redka.Schema.View.{not_ended}
use redka.Samples.{
  sample_driver, shop, shop-IsValid, early, late, cart_key, stale, stale-IsValid, stale_key,
}

cart-Fits : Fits "cart" shop
cart-Fits = λ old e. ground arith

get-set_example :
    ((set sample_driver "cart" "pear" (str "5") early early shop).0
      ≡ ok (not (is_some (field_at "cart" "pear" (unix_milli early) shop))))
    × LeavesValid (set sample_driver "cart" "pear" (str "5") early early shop)
    × Reads "cart" "pear" "5" shop (set sample_driver "cart" "pear" (str "5") early early shop).1
unfolding is_value_type
get-set_example =
    get-set sample_driver "cart" "pear" (str "5") "5" early early shop shop-IsValid cart-Fits refl
      refl

set_not_exists_lem_example :
    ((set_not_exists sample_driver "cart" "pear" (str "5") early early shop).0
      ≡ ok (not (is_some (field_at "cart" "pear" (unix_milli early) shop))))
    × ((j g : String) (now : Time)
        → get j g now (set_not_exists sample_driver "cart" "pear" (str "5") early early shop).1 ≡ (
            if not (is_some (field_at "cart" "pear" (unix_milli early) shop))
              && (str_eq "cart" j && str_eq "pear" g)
            then (if not_ended "cart" shop (unix_milli now) then ok "5" else err not_found)
            else get j g now shop))
unfolding is_value_type
set_not_exists_lem_example =
    set_not_exists_lem sample_driver "cart" "pear" (str "5") "5" early early shop shop-IsValid
      cart-Fits refl refl

get_apple : get "cart" "apple" early shop ≡ ok "3"
unfolding get unix_milli
get_apple = refl

get-incr_field_example :
    ((incr sample_driver "cart" "apple" (pos 4) early early shop).0 ≡ ok (wrap (pos 3 +ℤ pos 4)))
    × Reads "cart" "apple"
        (itoa (wrap (pos 3 +ℤ pos 4)))
        shop
        (incr sample_driver "cart" "apple" (pos 4) early early shop).1
    × (to_int (itoa (wrap (pos 3 +ℤ pos 4))) ≡ some (wrap (pos 3 +ℤ pos 4)))
unfolding atoi to_int
get-incr_field_example =
    get-incr_field sample_driver "cart" "apple" (pos 4) (pos 3) early early shop shop-IsValid
      cart-Fits (rw get_apple refl)

incr_field_expired_example :
    ((incr sample_driver "stale" "apple" (pos 4) late late stale).0 ≡ ok (wrap (pos 0 +ℤ pos 4)))
    × (get "stale" "apple" late (incr sample_driver "stale" "apple" (pos 4) late late stale).1
        ≡ err not_found)
unfolding unix_milli
incr_field_expired_example =
    incr_field_expired sample_driver "stale" "apple" (pos 4) late late late stale stale_key
      stale-IsValid refl refl refl refl

delete_fields_example :
    LeavesValid (delete "cart" ("apple" ∷ "pear" ∷ []) early shop)
    × ((j g : String) (now : Time)
        → get j g now (delete "cart" ("apple" ∷ "pear" ∷ []) early shop).1 ≡ (
            if str_eq "cart" j && is_in ("apple" ∷ "pear" ∷ []) g
            then err not_found
            else get j g now shop))
delete_fields_example =
    delete_fields "cart" ("apple" ∷ "pear" ∷ []) early shop cart_key shop-IsValid refl
