-- ===== src/Rkey/Paging.antt =====
-- `Scan`: a page moves the cursor on.
use redka.Base.{
  ℕ, zero, suc, ◌≤◌, ◌<◌, ℤ, pos, negsuc, ltb, String, Bool, true, List, [], ◌∷◌, ◌≡◌, arith, All,
  keep, take, if◌then◌else◌, Bool-cases, inl, inr,
}
use redka.Core.{Key, Driver, Time, unix_milli}
use redka.Schema.{Db, live}
use redka.Sqlx.{limit}
use redka.Rkey.{scan, after, largest_id, default_page}

module _ (P : Key → Type 0) where
  All-take : (n : ℕ) (ks : List Key) → All P ks → All P (take n ks)
  All-take zero ks o = tt
  All-take (suc n) [] o = tt
  All-take (suc n) (k ∷ ks) o = (o.0, All-take n ks o.1)

  All-limit : (n : ℤ) (ks : List Key) → All P ks → All P (limit n ks)
  All-limit (pos n) ks o = All-take n ks o
  All-limit (negsuc n) ks o = o

kept-pass : (p : Key → Bool) (ks : List Key) → All (λ k. p k ≡ true) (keep p ks)
kept-pass p [] = tt
kept-pass p (k ∷ ks) = elim (Bool-cases (p k)) [
  | inl hit ↦ rw hit (hit, kept-pass p ks)
  | inr miss ↦ rw miss (kept-pass p ks)
]

largest_id-ge : (acc : ℕ) (ks : List Key) → acc ≤ largest_id acc ks
unfolding largest_id
largest_id-ge acc [] = omega arith
largest_id-ge acc (k ∷ ks) = elim (Bool-cases (ltb acc k.id)) [
  | inl above ↦ ground (arith, above, largest_id-ge k.id ks)
  | inr below ↦ ground (arith, below, largest_id-ge acc ks)
]

-- a key of a page: behind the cursor, not beyond the new one, and live
abbrev pub InPage : ℕ → ℕ → ℤ → Key → Type 0
InPage cursor next now k = (cursor < k.id) × (k.id ≤ next) × (live now k ≡ true)

page_keys :
    (d : Driver) (cursor : ℕ) (pattern : String) (now : ℤ) (acc : ℕ) (ks : List Key)
    → All (λ k. after d (pos cursor) pattern now k ≡ true) ks
    → All (InPage cursor (largest_id acc ks) now) ks
unfolding largest_id
page_keys d cursor pattern now acc [] o = tt
page_keys d cursor pattern now acc (k ∷ ks) o =
    let acc' : ℕ = if ltb acc k.id then k.id else acc in
    let reached : k.id ≤ acc' = ground arith in
    let behind : cursor < k.id = ground (arith, o.0) in
    let alive : live now k ≡ true = ground (arith, o.0) in
    (
      (behind, omega (arith, reached, largest_id-ge acc' ks), alive),
      page_keys d cursor pattern now acc' ks o.1,
    )

-- Every key of a page of `Scan` is live, has an id above the cursor that was given, and one that is
-- not above the cursor that is returned.
pub scan-InPage :
    (d : Driver) (cursor : ℕ) (pattern : String) (page_size : ℤ) (t : Time) (db : Db)
    → All
        (InPage cursor (scan d (pos cursor) pattern page_size t db).cursor (unix_milli t))
        (scan d (pos cursor) pattern page_size t db).keys
unfolding scan
scan-InPage d cursor pattern page_size t db = page_keys d cursor pattern (unix_milli t) 0 _ (
    All-limit (λ k. after d (pos cursor) pattern (unix_milli t) k ≡ true) (default_page page_size) _
      (kept-pass (after d (pos cursor) pattern (unix_milli t)) db.keys))
