-- ===== src/Rstring/Get.antt =====
-- `Get` through the indexes: the joined query returns the string of the live key with the name.
use redka.Base.{
  ℤ, String, Option, none, some, List, [], ◌∷◌, ◌≡◌, refl, arith, str_eq, eq_iff, head?, guarded,
  Bool-cases, inl, inr, ap, ◌∙◌, sym,
}
use mathlib.Core.Option
use mathlib.Core.List.{append-nil}
use redka.Core.{Key, Value, Time, unix_milli}
use redka.Schema.{Db, StringRow, live, find_key, find_string}
use redka.Schema.Valid.{IsValid, KeysUnique}
use redka.Schema.View.{entry, string_at, string_of}
use redka.Rkey.{by_key}
use redka.Rstring.{rows_of, joined, scan_value, get}

-- the value that the caller gets: nil, an empty byte slice, where there is no string
abbrev pub or_nil : Option Value → Value
or_nil none = ""
or_nil (some v) = v

head-rows_of :
    (k : Key) (ss : List StringRow)
    → scan_value (head? (rows_of k ss))
      ≡ or_nil (Option.map (λ (s : StringRow). s.value) (find_string k.id ss))
head-rows_of k [] = refl
head-rows_of k (s ∷ ss) = ground (arith, head-rows_of k ss)

joined_absent :
    (key : String) (now : ℤ) (ks : List Key) (ss : List StringRow)
    → find_key key ks ≡ none
    → joined (by_key key now) ks ss ≡ []
unfolding joined
joined_absent key now [] ss h = refl
joined_absent key now (k ∷ ks) ss h = ground (arith, joined_absent key now ks ss)

-- at most one key has the name, so the joined rows are the strings of that key
joined-found :
    (key : String) (now : ℤ) (ks : List Key) (ss : List StringRow)
    → KeysUnique ks
    → joined (by_key key now) ks ss
      ≡ (elim (guarded (live now) (find_key key ks)) [ none ↦ [] | some k ↦ rows_of k ss ])
unfolding joined
joined-found key now [] ss u = refl
joined-found key now (k ∷ ks) ss u = elim (Bool-cases (str_eq k.key key)) [
  | inl here ↦
      let same : k.key ≡ key = (eq_iff k.key key).0 here in
      let gone : find_key key ks ≡ none = ap (λ j. find_key j ks) (sym same) ∙ u.0 in
      rw here (ground (arith, joined_absent key now ks ss gone, append-nil (rows_of k ss)))
  | inr there ↦ rw there (joined-found key now ks ss u.1)
]

-- On valid tables `Get` returns the string of the live key with the name, or nil if there is none.
pub get-eq-string_at :
    (key : String) (t : Time) (db : Db)
    → IsValid db
    → get key t db ≡ or_nil (string_at key (unix_milli t) db)
unfolding get
get-eq-string_at key t db v =
    rw (joined-found key (unix_milli t) db.keys db.strings v.keys_unique)
      (split (entry key (unix_milli t) db))
  where
    split :
        (o : Option Key)
        → scan_value (head? (elim o [ none ↦ [] | some k ↦ rows_of k db.strings ]))
          ≡ or_nil (string_of db o)
    split none = refl
    split (some k) = head-rows_of k db.strings
