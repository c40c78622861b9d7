-- ===== src/Rkey/Scan.antt =====
-- internal/rkey/tx.go: the scanner over the keys that match a pattern.
use redka.Base.{
  ℕ, zero, suc, ◌<◌, ltb, ℤ, pos, String, Bool, ◌&&◌, some, List, [], ◌∷◌, ◌≡◌, refl, All, keep,
  keep-congr, take, length, if◌then◌else◌, ap, ◌∙◌,
}
use mathlib.Core.Path.{fun_ext}
use redka.Core.{Key, Driver, Time, unix_milli}
use redka.Schema.{Db, live}
use redka.Sqlx.{limit}
use redka.Scanner.{Scanner, new_scanner, next, collect}
use redka.Scanner.Pages.{
  page, largest, behind, IsAscending, collect-page, keep-and, page_rows, ltb_pos, All-kept,
  keep-IsAscending,
}
use redka.Rkey.{scan, after, keys, largest_id, default_page}

module _ (d : Driver) (pattern : String) where
  -- `Scan` as the scanner calls it: the cursor and the rows that follow a cursor
  unfoldable pub fetch : ℤ → Time → Db → ℕ → ℕ × List Key
  fetch n t db c = let out = scan d (pos c) pattern n t db in (out.cursor, out.keys)

  -- `Scanner.Scan`
  unfoldable pub advance : ℤ → Time → Db → Scanner Key → Bool × Scanner Key
  unfolding fetch
  advance n t db = next (fetch n t db)

  -- the rows that the scanner is to visit
  abbrev pub matching : Time → Db → List Key
  matching t db = keep (λ k. d.glob pattern k.key && live (unix_milli t) k) db.keys

  largest_id-eq-largest :
      (acc : ℕ) (rows : List Key) → largest_id acc rows ≡ largest (λ (r : Key). r.id) acc rows
  unfolding largest_id largest
  largest_id-eq-largest acc [] = refl
  largest_id-eq-largest acc (r ∷ rows) =
      largest_id-eq-largest (if ltb acc r.id then r.id else acc) rows

  after-eq :
      (t : Time) (db : Db) (c : ℕ)
      → keep (after d (pos c) pattern (unix_milli t)) db.keys
        ≡ keep (behind (λ (r : Key). r.id) c) (matching t db)
  after-eq t db c =
      keep-congr _ _ db.keys
        (λ r. ap (λ b. b && (d.glob pattern r.key && live (unix_milli t) r)) (ltb_pos c r.id))
      ∙ keep-and (behind (λ (r : Key). r.id) c) _ db.keys

  limit-eq :
      (n : ℕ) (rows : List Key) → limit (default_page (pos n)) rows ≡ take (suc (page_rows n)) rows
  unfolding page_rows
  limit-eq zero rows = refl
  limit-eq (suc n) rows = refl

  fetch-eq :
      (n : ℕ) (t : Time) (db : Db) (c : ℕ)
      → fetch (pos n) t db c ≡ page (λ (r : Key). r.id) (suc (page_rows n)) (matching t db) c
  unfolding fetch scan
  fetch-eq n t db c =
      let rows : limit (default_page (pos n))
            (keep (after d (pos c) pattern (unix_milli t)) db.keys)
          ≡ take (suc (page_rows n)) (keep (behind (λ (r : Key). r.id) c) (matching t db)) =
        ap (limit (default_page (pos n))) (after-eq t db c) ∙ limit-eq n _ in
      ap (λ (rs : List Key). (largest_id 0 rs, rs)) rows
      ∙ ap
          (λ k. (k, take (suc (page_rows n)) (keep (behind (λ (r : Key). r.id) c) (matching t db))))
          (largest_id-eq-largest 0 _)

  -- A new `Scanner` over the keys that match a pattern, with any page size that is not negative, on
  -- tables that do not change, whose rows stand in the order of their ids, and with one reading of the
  -- clock: repeated `Scan` visits exactly the keys that `Keys` returns for the pattern, each once and
  -- in the order of their ids, and then returns false, after as many rounds as there are keys.
  pub collect-keys :
      (n : ℕ) (t : Time) (db : Db)
      → IsAscending (λ (r : Key). r.id) db.keys
      → All (λ (r : Key). 0 < r.id) db.keys
      → collect (suc (length (keys d pattern t db))) (fetch (pos n) t db) new_scanner
        ≡ some (keys d pattern t db)
  unfolding keys
  collect-keys n t db s o = rw (fun_ext (fetch-eq n t db)) (
      collect-page (λ (r : Key). r.id) (page_rows n) (matching t db)
        (keep-IsAscending (λ (r : Key). r.id) _ db.keys s)
        (All-kept (λ (r : Key). r.id) (λ (r : Key). 0 < r.id) _ db.keys o))
