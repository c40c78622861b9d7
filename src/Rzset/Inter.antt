-- ===== src/Rzset/Inter.antt =====
-- The elements of an intersection of sorted sets with different names.
use redka.Base.{
  ℕ, suc, ◌+◌, ◌≤◌, ℤ, String, Bool, true, false, ◌&&◌, ◌||◌, Option, none, some, List, [], ◌∷◌,
  ◌≡◌, refl, arith, ◌==◌, ==_iff, str_eq, eq_iff, any, keep, is_some, length, Bool-cases, inl, inr,
  ap, ◌∙◌, sym,
}
use redka.Table
use redka.Core.{Key, Time, unix_milli}
use redka.Schema.{Db, ZsetRow, find_id, find_elem, removes, same_pair, zset_column}
use redka.Schema.Valid.{IsValid, IdsUnique}
use redka.Schema.View.{entry, removes_absent}
use redka.Rkey.{by_key, among, is_in}
use redka.Rkey.Owner.{has_id, removes-by_key}
use redka.Rzset.Driver.{SetDriver}
use redka.Rzset.Combine.{
  inter, CombineCmd, sources, of_elem, distinct_keys, elems_of, elems_in, having, combined,
}
use redka.Rzset.View.{elem_at, elem_of}
use redka.Rzset.Sorted.{ElemsUnique, find_row}
use redka.Rzset.Store.{find_text, Distinct}
use redka.Rzset.Stored.{combined-ElemsUnique}
use redka.Rzset.Union.{
  combined-elems, elems-has, removes-among, no_source, sources-any_has, any_has,
}

-- the number of rows of the element that pass a test
abbrev rows_with : (ZsetRow → Bool) → String → List ZsetRow → ℕ
rows_with p e zs = length (of_elem e (keep p zs))

module _ (e : String) (p : ZsetRow → Bool) where
  -- a key with no row of the element is not among the keys of the rows
  absent_id :
      (i : ℕ) (zs : List ZsetRow)
      → find_elem i e zs ≡ none
      → any (λ j. j == i) (distinct_keys (of_elem e (keep p zs))) ≡ false
  unfolding distinct_keys
  absent_id i [] h = refl
  absent_id i (z ∷ zs) h = ground (arith, absent_id i zs, eq_iff z.elem e)

  -- The rows of one element have different keys.
  distinct-rows :
      (zs : List ZsetRow)
      → Table.IsUnique same_pair zset_column zs
      → length (distinct_keys (of_elem e (keep p zs))) ≡ rows_with p e zs
  unfolding distinct_keys
  distinct-rows [] u = refl
  distinct-rows (z ∷ zs) u = elim (Bool-cases (str_eq z.elem e)) [
    | inl same ↦
        let gone : find_elem z.key_id e zs ≡ none =
          ap (λ g. find_elem z.key_id g zs) (sym ((eq_iff z.elem e).0 same)) ∙ u.0 in
        elim (Bool-cases (p z)) [
          | inl hit ↦
              rw (hit, same)
                (rw (absent_id z.key_id zs gone, distinct_keys) (ap suc (distinct-rows zs u.1)))
          | inr miss ↦ rw miss (distinct-rows zs u.1)
        ]
    | inr differ ↦ elim (Bool-cases (p z)) [
      | inl hit ↦ rw (hit, differ) (distinct-rows zs u.1)
      | inr miss ↦ rw miss (distinct-rows zs u.1)
    ]
  ]

rows_with-congr :
    (p q : ZsetRow → Bool) (e : String) (zs : List ZsetRow)
    → ((z : ZsetRow) → p z ≡ q z)
    → rows_with p e zs ≡ rows_with q e zs
rows_with-congr p q e [] h = refl
rows_with-congr p q e (z ∷ zs) h = ground (arith, h z, rows_with-congr p q e zs h)

-- two tests that no row passes both
rows_with-or :
    (p q : ZsetRow → Bool) (e : String) (zs : List ZsetRow)
    → ((z : ZsetRow) → (p z && q z) ≡ false)
    → rows_with (λ z. p z || q z) e zs ≡ rows_with p e zs + rows_with q e zs
rows_with-or p q e [] h = omega arith
rows_with-or p q e (z ∷ zs) h = ground (arith, h z, rows_with-or p q e zs h)

module _ (k : String) (ks : List String) (now : ℤ) (fresh : is_in ks k ≡ false) where
  -- a row belongs to one name at most
  one_name :
      (keys : List Key) (i : ℕ)
      → IdsUnique keys
      → (removes (by_key k now) keys i && removes (among ks now) keys i) ≡ false
  one_name [] i u = refl
  one_name (x ∷ keys) i u = elim (Bool-cases (x.id == i)) [
    | inl here ↦
        let q : x.id ≡ i = (==_iff x.id i).0 here in
        let gone : find_id i keys ≡ none = ap (λ j. find_id j keys) (sym q) ∙ u.0 in
        let named : str_eq x.key k ≡ true → is_in ks x.key ≡ false =
          λ h. ap (is_in ks) ((eq_iff x.key k).0 h) ∙ fresh in
        elim (Bool-cases (str_eq x.key k)) [
          | inl mine ↦ ground (
            arith,
            here,
            mine,
            named mine,
            removes_absent (by_key k now) i keys gone,
            removes_absent (among ks now) i keys gone,
          )
          | inr other ↦ ground (arith, here, other, removes_absent (by_key k now) i keys gone)
        ]
    | inr there ↦ ground (arith, there, one_name keys i u.1)
  ]

no_row :
    (i : ℕ) (e : String) (zs : List ZsetRow)
    → find_elem i e zs ≡ none
    → rows_with (λ z. i == z.key_id) e zs ≡ 0
no_row i e [] h = refl
no_row i e (z ∷ zs) h = ground (arith, no_row i e zs, eq_iff z.elem e)

abbrev one_if : Bool → ℕ
one_if true = 1
one_if false = 0

one_row :
    (i : ℕ) (e : String) (zs : List ZsetRow)
    → Table.IsUnique same_pair zset_column zs
    → rows_with (λ z. i == z.key_id) e zs ≡ one_if (is_some (find_elem i e zs))
one_row i e [] u = refl
one_row i e (z ∷ zs) u =
    ground (arith, one_row i e zs u.1, no_row i e zs, u.0, ==_iff i z.key_id, eq_iff z.elem e)

no_rows : (e : String) (zs : List ZsetRow) → rows_with (λ z. false) e zs ≡ 0
no_rows e [] = refl
no_rows e (z ∷ zs) = no_rows e zs

-- how many of the sets have the element
abbrev how_many : List String → String → ℤ → Db → ℕ
how_many [] e now db = 0
how_many (k ∷ ks) e now db = one_if (is_some (elem_at k e now db)) + how_many ks e now db

-- all of the sets have the element
abbrev pub all_has : List String → String → ℤ → Db → Bool
all_has [] e now db = true
all_has (k ∷ ks) e now db = is_some (elem_at k e now db) && all_has ks e now db

how_many-bound :
    (ks : List String) (e : String) (now : ℤ) (db : Db) → how_many ks e now db ≤ length ks
how_many-bound [] e now db = omega arith
how_many-bound (k ∷ ks) e now db = elim (Bool-cases (is_some (elem_at k e now db))) [
  | inl there ↦ rw there (ground (arith, how_many-bound ks e now db))
  | inr absent ↦ rw absent (ground (arith, how_many-bound ks e now db))
]

how_many_all :
    (ks : List String) (e : String) (now : ℤ) (db : Db)
    → (how_many ks e now db == length ks) ≡ all_has ks e now db
how_many_all [] e now db = refl
how_many_all (k ∷ ks) e now db = elim (Bool-cases (is_some (elem_at k e now db))) [
  | inl there ↦ rw there (ground (arith, how_many_all ks e now db))
  | inr absent ↦ rw absent (ground (arith, how_many-bound ks e now db))
]

fresh_name : (k : String) (ks : List String) → find_text k ks ≡ none → is_in ks k ≡ false
fresh_name k [] h = refl
fresh_name k (x ∷ ks) h = ground (arith, fresh_name k ks)

module _ (e : String) (now : ℤ) (db : Db) (v : IsValid db) where
  owner_rows :
      (o : Option Key)
      → rows_with (λ z. has_id o z.key_id) e db.zsets ≡ one_if (is_some (elem_of e db o))
  owner_rows none = no_rows e db.zsets
  owner_rows (some k) = one_row k.id e db.zsets v.zsets_unique

  -- the rows of the element in the sets of different names
  sources-rows :
      (ks : List String)
      → Distinct ks
      → rows_with (λ z. removes (among ks now) db.keys z.key_id) e db.zsets ≡ how_many ks e now db
  sources-rows [] u =
      rows_with-congr _ (λ z. false) e db.zsets (λ z. no_source now db.keys z.key_id)
      ∙ no_rows e db.zsets
  sources-rows (k ∷ ks) u =
      rows_with-congr _
        (λ z. removes (by_key k now) db.keys z.key_id || removes (among ks now) db.keys z.key_id) e
        db.zsets (λ z. removes-among k ks now db.keys z.key_id)
      ∙ rows_with-or (λ z. removes (by_key k now) db.keys z.key_id)
          (λ z. removes (among ks now) db.keys z.key_id) e db.zsets
          (λ z. one_name k ks now (fresh_name k ks u.0) db.keys z.key_id v.ids_unique)
      ∙ ap (λ n. n + rows_with (λ z. removes (among ks now) db.keys z.key_id) e db.zsets)
          (rows_with-congr _ (λ z. has_id (entry k now db) z.key_id) e db.zsets
              (λ z. removes-by_key k now db.keys z.key_id v.keys_unique)
            ∙ owner_rows (entry k now db))
      ∙ ap (λ n. one_if (is_some (elem_at k e now db)) + n) (sources-rows ks u.1)

kept_text :
    (p : String → Bool) (e : String) (es : List String)
    → is_some (find_text e (keep p es)) ≡ (is_some (find_text e es) && p e)
kept_text p e [] = refl
kept_text p e (x ∷ es) = elim (Bool-cases (str_eq x e)) [
  | inl same ↦
      let q : p x ≡ p e = ap p ((eq_iff x e).0 same) in
      rw same (ground (arith, kept_text p e es, q, same))
  | inr differ ↦ rw differ (ground (arith, kept_text p e es, differ))
]

-- An intersection of sorted sets with different names that does not fail, on valid tables, has an
-- element exactly when at least one name is given and the sorted sets that the names have at the
-- time all have it; its elements are all different.
pub inter_lem :
    (d : SetDriver) (c : CombineCmd) (t : Time) (db : Db) (zs : List ZsetRow) (e : String)
    → IsValid db
    → Distinct c.keys
    → combined d inter c t db ≡ some zs
    → (is_some (find_row e zs)
        ≡ (any_has c.keys e (unix_milli t) db && all_has c.keys e (unix_milli t) db))
      × ElemsUnique zs
unfolding elems_in having
inter_lem d c t db zs e v u h =
    let now = unix_milli t in
    let p : ZsetRow → Bool = λ z. removes (among c.keys now) db.keys z.key_id in
    let rows = sources c.keys now db in
    (
      combined-elems d inter c t db zs e h
          ∙ kept_text (λ x. length (distinct_keys (of_elem x rows)) == length c.keys) e
              (elems_of rows)
          ∙ ap (λ b. b && (length (distinct_keys (of_elem e rows)) == length c.keys))
              (elems-has e p db.zsets ∙ sources-any_has c.keys e now db v)
          ∙ ap (λ n. any_has c.keys e now db && (n == length c.keys))
              (distinct-rows e p db.zsets v.zsets_unique ∙ sources-rows e now db v c.keys u)
          ∙ ap (λ b. any_has c.keys e now db && b) (how_many_all c.keys e now db),
      combined-ElemsUnique d inter c t db zs h,
    )
