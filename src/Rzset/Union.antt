-- ===== src/Rzset/Union.antt =====
-- The elements of a union of sorted sets.
use redka.Base.{
  ℕ, ℤ, String, Bool, true, false, ◌&&◌, ◌||◌, Option, none, some, List, [], ◌∷◌, ◌≡◌, refl, arith,
  str_eq, eq_iff, any, first, keep, is_some, length, if◌then◌else◌, Bool-cases, inl, inr, ap, ◌∙◌,
  sym, Option-cases,
}
use mathlib.Core.Option
use redka.Core.{Key, Time, unix_milli}
use redka.Schema.{Db, ZsetRow, removes}
use redka.Schema.Valid.{IsValid}
use redka.Rkey.{by_key, among, is_in}
use redka.Rzset.Driver.{SetDriver}
use redka.Rzset.Order.{asc, sort_rows, dir_le}
use redka.Rzset.{of_key}
use redka.Rzset.Combine.{
  Operation, union, CombineCmd, sources, elems_of, elems_in, having, scored, combined,
}
use redka.Rzset.View.{elem_at, first-elem_at}
use redka.Rzset.Sorted.{ElemsUnique, find_row, find-sort}
use redka.Rzset.Rank.{dir_total, dir_trans, dir_antisym}
use redka.Rzset.Stored.{combined-ElemsUnique}
use redka.Rzset.Store.{
  find_text, find-scored, scored-ElemsUnique, elems_in-Distinct, some_eq, none_ne,
}

-- some row passes both tests
abbrev pub has : (ZsetRow → Bool) → (ZsetRow → Bool) → List ZsetRow → Bool
has p q zs = is_some (first (λ z. p z && q z) zs)

is_some-find_text :
    (e : String) (z : ZsetRow) (zs : List ZsetRow)
    → is_some (find_text e (elems_of (z ∷ zs)))
      ≡ (if str_eq z.elem e then true else is_some (find_text e (elems_of zs)))
unfolding elems_of
is_some-find_text e z zs = elim (Bool-cases (is_in (elems_of zs) z.elem)) [
  | inl there ↦ rw there (elim (Bool-cases (str_eq z.elem e)) [
    | inl same ↦ rw same (in_find (elems_of zs) there ((eq_iff z.elem e).0 same))
    | inr differ ↦ rw differ
  ])
  | inr absent ↦ rw absent (ground arith)
]
  where
    in_find :
        (es : List String) → is_in es z.elem ≡ true → z.elem ≡ e → is_some (find_text e es) ≡ true
    in_find [] h q = cc
    in_find (x ∷ es) h q = ground (arith, in_find es, ap (str_eq x) q)

-- the elements of the rows that pass a test
pub elems-has :
    (e : String) (p : ZsetRow → Bool) (zs : List ZsetRow)
    → is_some (find_text e (elems_of (keep p zs))) ≡ has p (λ z. str_eq z.elem e) zs
unfolding elems_of
elems-has e p [] = refl
elems-has e p (z ∷ zs) = elim (Bool-cases (p z)) [
  | inl hit ↦ rw hit (is_some-find_text e z (keep p zs) ∙ ground (arith, elems-has e p zs))
  | inr miss ↦ rw miss (elems-has e p zs)
]

has-or :
    (p p' q : ZsetRow → Bool) (zs : List ZsetRow)
    → has (λ z. p z || p' z) q zs ≡ (has p q zs || has p' q zs)
has-or p p' q [] = refl
has-or p p' q (z ∷ zs) = ground (arith, has-or p p' q zs)

has-congr :
    (p p' q : ZsetRow → Bool) (zs : List ZsetRow)
    → ((z : ZsetRow) → p z ≡ p' z)
    → has p q zs ≡ has p' q zs
has-congr p p' q [] h = refl
has-congr p p' q (z ∷ zs) h = ground (arith, h z, has-congr p p' q zs h)

pub removes-among :
    (k : String) (ks : List String) (now : ℤ) (keys : List Key) (i : ℕ)
    → removes (among (k ∷ ks) now) keys i
      ≡ (removes (by_key k now) keys i || removes (among ks now) keys i)
removes-among k ks now [] i = refl
removes-among k ks now (x ∷ keys) i =
    ground (arith, removes-among k ks now keys i, eq_iff k x.key, eq_iff x.key k)

pub no_source : (now : ℤ) (keys : List Key) (i : ℕ) → removes (among [] now) keys i ≡ false
no_source now [] i = refl
no_source now (x ∷ keys) i = no_source now keys i

none_has : (q : ZsetRow → Bool) (zs : List ZsetRow) → has (λ z. false) q zs ≡ false
none_has q [] = refl
none_has q (z ∷ zs) = none_has q zs

-- some of the sets has the element
abbrev pub any_has : List String → String → ℤ → Db → Bool
any_has keys e now db = any (λ key. is_some (elem_at key e now db)) keys

pub sources-any_has :
    (keys : List String) (e : String) (now : ℤ) (db : Db)
    → IsValid db
    → has (λ z. removes (among keys now) db.keys z.key_id) (λ z. str_eq z.elem e) db.zsets
      ≡ any_has keys e now db
sources-any_has [] e now db w =
    has-congr _ _ _ db.zsets (λ z. no_source now db.keys z.key_id)
    ∙ none_has (λ z. str_eq z.elem e) db.zsets
sources-any_has (k ∷ ks) e now db w =
    has-congr _ _ _ db.zsets (λ z. removes-among k ks now db.keys z.key_id)
    ∙ has-or (λ z. of_key k now db z) (λ z. removes (among ks now) db.keys z.key_id) _ db.zsets
    ∙ ground (arith, ap is_some (first-elem_at k e now db w), sources-any_has ks e now db w)

kept_whole : (es : List String) → keep (λ e. true) es ≡ es
kept_whole [] = refl
kept_whole (e ∷ es) = ap (λ xs. e ∷ xs) (kept_whole es)

is_some-map : (o : Option ZsetRow) → is_some (Option.map (λ (z : ZsetRow). z.elem) o) ≡ is_some o
is_some-map none = refl
is_some-map (some z) = refl

-- the elements of the result of either command
pub combined-elems :
    (d : SetDriver) (op : Operation) (c : CombineCmd) (t : Time) (db : Db) (zs : List ZsetRow)
    (e : String)
    → combined d op c t db ≡ some zs
    → is_some (find_row e zs)
      ≡ is_some (find_text e (elems_in op (length c.keys) (sources c.keys (unix_milli t) db)))
unfolding combined
combined-elems d op c t db zs e h =
    let rows = sources c.keys (unix_milli t) db in
    let es = elems_in op (length c.keys) rows in
    elim (Option-cases (scored d c.aggregate es rows)) [
      | inl null ↦ absurd (none_ne (sym (rw null) ∙ h))
      | inr (ws, s) ↦
          let q : some (sort_rows (dir_le d asc) ws) ≡ some zs = sym (rw s) ∙ h in
          ap (λ (xs : List ZsetRow). is_some (find_row e xs)) (sym (some_eq q))
          ∙ ap is_some (
              find-sort (dir_le d asc) (dir_total d asc) (dir_trans d asc) (dir_antisym d asc) e ws
                (scored-ElemsUnique d c.aggregate rows es ws s
                  (elems_in-Distinct op (length c.keys) rows)))
          ∙ sym (is_some-map (find_row e ws))
          ∙ ap is_some (find-scored d c.aggregate rows e es ws s)
    ]

-- A union that does not fail, on valid tables, has an element exactly when one of the sorted sets that
-- the given names have at the time has it; its elements are all different.
pub union_lem :
    (d : SetDriver) (c : CombineCmd) (t : Time) (db : Db) (zs : List ZsetRow) (e : String)
    → IsValid db
    → combined d union c t db ≡ some zs
    → (is_some (find_row e zs) ≡ any_has c.keys e (unix_milli t) db) × ElemsUnique zs
unfolding elems_in having
union_lem d c t db zs e w h = (
  combined-elems d union c t db zs e h
      ∙ ap (λ es. is_some (find_text e es))
          (kept_whole (elems_of (sources c.keys (unix_milli t) db)))
      ∙ elems-has e (λ z. removes (among c.keys (unix_milli t)) db.keys z.key_id) db.zsets
      ∙ sources-any_has c.keys e (unix_milli t) db w,
  combined-ElemsUnique d union c t db zs h,
)
