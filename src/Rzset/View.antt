-- ===== src/Rzset/View.antt =====
-- The sorted set that a name has at a time, and the query of one score through the indexes.
use redka.Base.{
  ℕ, ℤ, String, Bool, true, false, ◌&&◌, Option, none, some, List, [], ◌∷◌, ◌≡◌, refl, arith, ◌==◌,
  str_eq, first, first-congr, ap, ◌∙◌,
}
use redka.Core.{Key, AnyValue, is_value_type, Time, unix_milli}
use redka.Schema.{Db, ZsetRow, find_elem}
use redka.Schema.Valid.{IsValid}
use redka.Schema.View.{entry}
use redka.Rkey.Owner.{has_id, removes-by_key}
use redka.Rzset.Driver.{SetDriver}
use redka.Rzset.{of_key, get_score, found_score, same_elem}

abbrev pub elem_of : String → Db → Option Key → Option ZsetRow
elem_of e db none = none
elem_of e db (some k) = find_elem k.id e db.zsets

-- the row of the element in the sorted set that the name has at the time
abbrev pub elem_at : String → String → ℤ → Db → Option ZsetRow
elem_at key e now db = elem_of e db (entry key now db)

first-none : (e : String) (zs : List ZsetRow) → first (λ z. false && str_eq z.elem e) zs ≡ none
first-none e [] = refl
first-none e (z ∷ zs) = first-none e zs

first-find_elem :
    (i : ℕ) (e : String) (zs : List ZsetRow)
    → first (λ z. (i == z.key_id) && str_eq z.elem e) zs ≡ find_elem i e zs
first-find_elem i e [] = refl
first-find_elem i e (z ∷ zs) = ground (arith, first-find_elem i e zs)

first-has_id :
    (o : Option Key) (e : String) (db : Db)
    → first (λ z. has_id o z.key_id && str_eq z.elem e) db.zsets ≡ elem_of e db o
first-has_id none e db = first-none e db.zsets
first-has_id (some k) e db = first-find_elem k.id e db.zsets

pub first-elem_at :
    (key e : String) (now : ℤ) (db : Db)
    → IsValid db
    → first (λ z. of_key key now db z && str_eq z.elem e) db.zsets ≡ elem_at key e now db
first-elem_at key e now db v =
    first-congr _ _ db.zsets
      (λ z. ap (λ b. b && str_eq z.elem e) (removes-by_key key now db.keys z.key_id v.keys_unique))
    ∙ first-has_id (entry key now db) e db

-- the row of the element that is bound, if it is not a null
abbrev pub bound_at : String → Option String → ℤ → Db → Option ZsetRow
bound_at key none now db = none
bound_at key (some e) now db = elem_at key e now db

first-null :
    (p : ZsetRow → Bool) (zs : List ZsetRow) → first (λ z. p z && same_elem none z.elem) zs ≡ none
first-null p [] = refl
first-null p (z ∷ zs) = ground (arith, first-null p zs)

pub first-bound_at :
    (key : String) (o : Option String) (now : ℤ) (db : Db)
    → IsValid db
    → first (λ z. of_key key now db z && same_elem o z.elem) db.zsets ≡ bound_at key o now db
first-bound_at key none now db v = first-null (of_key key now db) db.zsets
first-bound_at key (some e) now db v = first-elem_at key e now db v

-- `GetScore` of a value of a good type returns the score of the element in the sorted set that the
-- name has at the time, or `ErrNotFound`.
pub get_score-eq-elem_at :
    (d : SetDriver) (key : String) (elem : AnyValue) (t : Time) (db : Db)
    → IsValid db
    → is_value_type elem ≡ true
    → get_score d key elem t db ≡ found_score (bound_at key (d.elem_code elem) (unix_milli t) db)
unfolding get_score
get_score-eq-elem_at d key elem t db v good =
    rw good (ap found_score (first-bound_at key (d.elem_code elem) (unix_milli t) db v))
