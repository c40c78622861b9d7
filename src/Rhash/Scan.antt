-- ===== src/Rhash/Scan.antt =====
-- internal/rhash/scanner.go: the scanner over the fields of a hash.
use redka.Base.{
  ℕ, zero, suc, ◌<◌, ltb, ℤ, pos, String, Bool, ◌&&◌, some, List, [], ◌∷◌, ◌≡◌, refl, All, keep,
  keep-congr, take, length, if◌then◌else◌, ap, ◌∙◌,
}
use mathlib.Core.Path.{fun_ext}
use redka.Core.{Driver, Time, unix_milli}
use redka.Schema.{Db, HashRow}
use redka.Sqlx.{limit}
use redka.Scanner.{Scanner, new_scanner, next, collect}
use redka.Scanner.Pages.{
  page, largest, behind, IsAscending, collect-page, keep-and, page_rows, ltb_pos, All-kept,
  swap_tests, keep-IsAscending,
}
use redka.Rhash.{scan, after, of_key, largest_id, default_page}

module _ (d : Driver) (key pattern : String) where
  -- `Scan` as the scanner calls it: the cursor and the rows that follow a cursor
  unfoldable pub fetch : ℤ → Time → Db → ℕ → ℕ × List HashRow
  fetch n t db c = let out = scan d key (pos c) pattern n t db in (out.cursor, out.items)

  -- `Scanner.Scan`
  unfoldable pub advance : ℤ → Time → Db → Scanner HashRow → Bool × Scanner HashRow
  unfolding fetch
  advance n t db = next (fetch n t db)

  -- the rows that the scanner is to visit
  abbrev pub matching : Time → Db → List HashRow
  matching t db = keep (λ h. of_key key (unix_milli t) db h && d.glob pattern h.field) db.hashes

  largest_id-eq-largest :
      (acc : ℕ) (rows : List HashRow)
      → largest_id acc rows ≡ largest (λ (r : HashRow). r.rowid) acc rows
  unfolding largest_id largest
  largest_id-eq-largest acc [] = refl
  largest_id-eq-largest acc (r ∷ rows) =
      largest_id-eq-largest (if ltb acc r.rowid then r.rowid else acc) rows

  after-eq :
      (t : Time) (db : Db) (c : ℕ)
      → keep (after d key (pos c) pattern (unix_milli t) db) db.hashes
        ≡ keep (behind (λ (r : HashRow). r.rowid) c) (matching t db)
  after-eq t db c =
      keep-congr _ _ db.hashes (λ r.
        swap_tests (of_key key (unix_milli t) db r) _ (d.glob pattern r.field) _
          (ltb_pos c r.rowid))
      ∙ keep-and (behind (λ (r : HashRow). r.rowid) c) _ db.hashes

  limit-eq :
      (n : ℕ) (rows : List HashRow)
      → limit (default_page (pos n)) rows ≡ take (suc (page_rows n)) rows
  unfolding page_rows
  limit-eq zero rows = refl
  limit-eq (suc n) rows = refl

  fetch-eq :
      (n : ℕ) (t : Time) (db : Db) (c : ℕ)
      → fetch (pos n) t db c ≡ page (λ (r : HashRow). r.rowid) (suc (page_rows n)) (matching t db) c
  unfolding fetch scan
  fetch-eq n t db c =
      let rows : limit (default_page (pos n))
            (keep (after d key (pos c) pattern (unix_milli t) db) db.hashes)
          ≡ take (suc (page_rows n)) (keep (behind (λ (r : HashRow). r.rowid) c) (matching t db)) =
        ap (limit (default_page (pos n))) (after-eq t db c) ∙ limit-eq n _ in
      ap (λ (rs : List HashRow). (largest_id 0 rs, rs)) rows
      ∙ ap
          (λ k. (
            k,
            take (suc (page_rows n)) (keep (behind (λ (r : HashRow). r.rowid) c) (matching t db)),
          ))
          (largest_id-eq-largest 0 _)

  -- A new `Scanner` over a hash visits every field that matches the pattern once and ends, on tables
  -- that do not change, whose rows stand in the order of their rowids, with one reading of the clock.
  pub collect-fields :
      (n : ℕ) (t : Time) (db : Db)
      → IsAscending (λ (r : HashRow). r.rowid) db.hashes
      → All (λ (r : HashRow). 0 < r.rowid) db.hashes
      → collect (suc (length (matching t db))) (fetch (pos n) t db) new_scanner
        ≡ some (matching t db)
  collect-fields n t db s o = rw (fun_ext (fetch-eq n t db)) (
      collect-page (λ (r : HashRow). r.rowid) (page_rows n) (matching t db)
        (keep-IsAscending (λ (r : HashRow). r.rowid) _ db.hashes s)
        (All-kept (λ (r : HashRow). r.rowid) (λ (r : HashRow). 0 < r.rowid) _ db.hashes o))
