-- ===== src/Rkey/Owner.antt =====
-- `join rkey on key_id = rkey.id and … where key = :key`: the id that a row has to have.
use redka.Base.{
  ℕ, ℤ, String, Bool, false, Option, none, some, List, [], ◌∷◌, ◌≡◌, refl, arith, ◌==◌, str_eq,
  eq_iff, guarded, Bool-cases, inl, inr, ap, ◌∙◌, sym,
}
use redka.Core.{Key}
use redka.Schema.{live, find_key, removes}
use redka.Schema.Valid.{KeysUnique}
use redka.Rkey.{by_key}

abbrev pub has_id : Option Key → ℕ → Bool
has_id none i = false
has_id (some k) i = k.id == i

removes_absent_key :
    (key : String) (now : ℤ) (ks : List Key) (i : ℕ)
    → find_key key ks ≡ none
    → removes (by_key key now) ks i ≡ false
removes_absent_key key now [] i h = refl
removes_absent_key key now (k ∷ ks) i h = ground (arith, removes_absent_key key now ks i)

-- At most one key has the name, so the rows of its id are those that a join with it finds.
pub removes-by_key :
    (key : String) (now : ℤ) (ks : List Key) (i : ℕ)
    → KeysUnique ks
    → removes (by_key key now) ks i ≡ has_id (guarded (live now) (find_key key ks)) i
removes-by_key key now [] i u = refl
removes-by_key key now (k ∷ ks) i u = elim (Bool-cases (str_eq k.key key)) [
  | inl here ↦
      let same : k.key ≡ key = (eq_iff k.key key).0 here in
      let gone : find_key key ks ≡ none = ap (λ j. find_key j ks) (sym same) ∙ u.0 in
      rw here (ground (arith, removes_absent_key key now ks i gone))
  | inr there ↦ rw there (removes-by_key key now ks i u.1)
]
