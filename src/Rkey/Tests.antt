-- ===== src/Rkey/Tests.antt =====
-- Tests and witnesses of the key repository.
use redka.Base.{
  ◌≤ℤ◌, ℤ, pos, String, ◌≡◌, ◌≢◌, refl, none, some, [], ◌∷◌, arith, eq_iff, true, false,
  if◌then◌else◌, ltb_ℤ,
}
use redka.Core.{ok, unix_milli}
use redka.Schema.{find_key}
use redka.Schema.View.{entry}
use redka.Rkey.{expire_at, delete, exists, count, rename, rename_not_exists, delete_expired, is_in}
use redka.Rkey.Expiry.{expire_at_lem, delete_lem}
use redka.Rkey.Purge.{SameView, delete_expired-SameView}
use redka.Rkey.Rename.{IsRenamed, rename_lem, rename_not_exists_lem}
use redka.Base.{length, suc}
use redka.Rkey.{keys}
use redka.Rkey.Scan.{fetch, collect-keys}
use redka.Scanner.{collect, new_scanner}
use redka.Samples.{sample_driver, shop, shop-IsValid, early, late, name_key}

key_ne : ◌≢◌ {A = String} "name" "new"
key_ne = ground (arith, eq_iff "name" "new")

named : ◌≢◌ {A = String} "name" ""
named = ground (arith, eq_iff "name" "")

expire_at_lem_example :
    ((expire_at "name" late early shop).0 ≡ true)
    × ((now : ℤ)
        → entry "name" now (expire_at "name" late early shop).1 ≡ (
            if ltb_ℤ now (unix_milli late)
            then some (record name_key { etime = some (unix_milli late) })
            else none))
    × ((j : String)
        → "name" ≢ j
        → find_key j (expire_at "name" late early shop).1.keys ≡ find_key j shop.keys)
expire_at_lem_example = expire_at_lem "name" late early shop name_key shop-IsValid refl

delete_lem_example :
    ((j : String) (now : ℤ)
      → is_in ("name" ∷ "gone" ∷ []) j ≡ true
      → unix_milli early ≤ℤ now
      → entry j now (delete ("name" ∷ "gone" ∷ []) early shop).1 ≡ none)
    × ((j : String)
        → is_in ("name" ∷ "gone" ∷ []) j ≡ false
        → find_key j (delete ("name" ∷ "gone" ∷ []) early shop).1.keys ≡ find_key j shop.keys)
delete_lem_example = delete_lem ("name" ∷ "gone" ∷ []) early shop shop-IsValid

delete_expired-SameView_example :
    SameView (unix_milli late) shop (delete_expired (pos 2) late shop).1
delete_expired-SameView_example = delete_expired-SameView (pos 2) late shop shop-IsValid

rename_lem_example :
    ((rename "name" "new" early early early shop).0 ≡ ok tt)
    × IsRenamed "name" "new"
        (unix_milli early)
        name_key
        shop
        (rename "name" "new" early early early shop).1
rename_lem_example =
    rename_lem "name" "new" early early early shop name_key shop-IsValid key_ne named refl refl

rename_not_exists_lem_example :
    ((rename_not_exists "name" "new" early early early shop).0 ≡ ok true)
    × IsRenamed "name" "new"
        (unix_milli early)
        name_key
        shop
        (rename_not_exists "name" "new" early early early shop).1
unfolding exists count
rename_not_exists_lem_example =
    rename_not_exists_lem "name" "new" early early early shop name_key shop-IsValid key_ne named
      refl refl refl

collect-keys_example :
    collect
      (suc (length (keys sample_driver "*" early shop)))
      (fetch sample_driver "*" (pos 2) early shop)
      new_scanner
    ≡ some (keys sample_driver "*" early shop)
collect-keys_example = collect-keys sample_driver "*" 2 early shop (omega arith) (omega arith)
