-- ===== src/Rhash/View.antt =====
-- The hash that a name has at a time, and the queries of one field through the indexes.
use redka.Base.{
  first-congr, length-keep-congr, ℕ, ℤ, String, false, ◌&&◌, Option, none, some, List, [], ◌∷◌, ◌≡◌,
  refl, arith, ◌==◌, str_eq, eq_iff, ltb, first, is_some, ap, ◌∙◌,
}
use redka.Core.{Key, Time, unix_milli}
use redka.Schema.{Db, HashRow, find_field}
use redka.Schema.Valid.{IsValid}
use redka.Schema.View.{entry}
use redka.Rkey.{is_in}
use redka.Rkey.Expiry.{count_pos}
use redka.Rkey.Owner.{has_id, removes-by_key}
use redka.Rhash.{of_key, get, count, exists, found_value}

abbrev pub field_of : String → Db → Option Key → Option HashRow
field_of f db none = none
field_of f db (some k) = find_field k.id f db.hashes

-- the row of the field in the hash that the name has at the time
abbrev pub field_at : String → String → ℤ → Db → Option HashRow
field_at key f now db = field_of f db (entry key now db)

first-none : (f : String) (hs : List HashRow) → first (λ h. false && str_eq h.field f) hs ≡ none
first-none f [] = refl
first-none f (h ∷ hs) = first-none f hs

first-find_field :
    (i : ℕ) (f : String) (hs : List HashRow)
    → first (λ h. (i == h.key_id) && str_eq h.field f) hs ≡ find_field i f hs
first-find_field i f [] = refl
first-find_field i f (h ∷ hs) = ground (arith, first-find_field i f hs)

first-has_id :
    (o : Option Key) (f : String) (db : Db)
    → first (λ h. has_id o h.key_id && str_eq h.field f) db.hashes ≡ field_of f db o
first-has_id none f db = first-none f db.hashes
first-has_id (some k) f db = first-find_field k.id f db.hashes

pub first-field_at :
    (key f : String) (now : ℤ) (db : Db)
    → IsValid db
    → first (λ h. of_key key now db h && str_eq h.field f) db.hashes ≡ field_at key f now db
first-field_at key f now db v =
    first-congr _ _ db.hashes
      (λ h. ap (λ b. b && str_eq h.field f) (removes-by_key key now db.keys h.key_id v.keys_unique))
    ∙ first-has_id (entry key now db) f db

-- `Get` returns the value of the field in the hash that the name has at the time, or `ErrNotFound`.
pub get-eq-field_at :
    (key f : String) (t : Time) (db : Db)
    → IsValid db
    → get key f t db ≡ found_value (field_at key f (unix_milli t) db)
unfolding get
get-eq-field_at key f t db v = ap found_value (first-field_at key f (unix_milli t) db v)

one_field : (f : String) (h : HashRow) → is_in (f ∷ []) h.field ≡ str_eq h.field f
one_field f h = ground (arith, eq_iff f h.field, eq_iff h.field f)

-- Whether the count of one field is positive tells whether the hash has the field.
pub count-field_at :
    (key f : String) (t : Time) (db : Db)
    → IsValid db
    → ltb 0 (count key (f ∷ []) t db) ≡ is_some (field_at key f (unix_milli t) db)
unfolding count
count-field_at key f t db v =
    ap (ltb 0) (
      length-keep-congr _ _ db.hashes
        (λ h. ap (λ b. of_key key (unix_milli t) db h && b) (one_field f h)))
    ∙ count_pos (λ h. of_key key (unix_milli t) db h && str_eq h.field f) db.hashes
    ∙ ap is_some (first-field_at key f (unix_milli t) db v)

-- `Exists` tells whether the hash that the name has at the time has the field.
pub exists-eq-is_some_field :
    (key f : String) (t : Time) (db : Db)
    → IsValid db
    → exists key f t db ≡ is_some (field_at key f (unix_milli t) db)
unfolding exists
exists-eq-is_some_field key f t db v = count-field_at key f t db v
