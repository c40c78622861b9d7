-- ===== src/Rzset/Scan.antt =====
-- internal/rzset/scanner.go: the scanner over the elements of a sorted set.
use redka.Base.{
  ℕ, zero, suc, ◌<◌, ltb, ltb_ℤ, ℤ, pos, String, Bool, ◌&&◌, some, List, [], ◌∷◌, ◌≡◌, refl, All,
  keep, keep-congr, take, length, if◌then◌else◌, ap, ◌∙◌,
}
use mathlib.Core.Path.{fun_ext}
use redka.Core.{Time, unix_milli}
use redka.Schema.{Db, ZsetRow}
use redka.Sqlx.{limit}
use redka.Scanner.{Scanner, new_scanner, next, collect}
use redka.Scanner.Pages.{
  page, largest, behind, IsAscending, collect-page, keep-and, page_rows, ltb_pos, All-kept,
  swap_tests, keep-IsAscending,
}
use redka.Rzset.{scan, of_key, largest_id, default_page}
use redka.Rzset.Driver.{SetDriver}

module _ (d : SetDriver) (key pattern : String) where
  -- `Scan` as the scanner calls it: the cursor and the rows that follow a cursor
  unfoldable pub fetch : ℤ → Time → Db → ℕ → ℕ × List ZsetRow
  fetch n t db c = let out = scan d key (pos c) pattern n t db in (out.cursor, out.items)

  -- `Scanner.Scan`
  unfoldable pub advance : ℤ → Time → Db → Scanner ZsetRow → Bool × Scanner ZsetRow
  unfolding fetch
  advance n t db = next (fetch n t db)

  -- the rows that the scanner is to visit
  abbrev pub matching : Time → Db → List ZsetRow
  matching t db = keep (λ z. of_key key (unix_milli t) db z && d.elem_glob pattern z.elem) db.zsets

  largest_id-eq-largest :
      (acc : ℕ) (rows : List ZsetRow)
      → largest_id acc rows ≡ largest (λ (r : ZsetRow). r.rowid) acc rows
  unfolding largest_id largest
  largest_id-eq-largest acc [] = refl
  largest_id-eq-largest acc (r ∷ rows) =
      largest_id-eq-largest (if ltb acc r.rowid then r.rowid else acc) rows

  after-eq :
      (t : Time) (db : Db) (c : ℕ)
      → keep
          (λ z.
            of_key key (unix_milli t) db z
            && (ltb_ℤ (pos c) (pos z.rowid) && d.elem_glob pattern z.elem))
          db.zsets
        ≡ keep (behind (λ (r : ZsetRow). r.rowid) c) (matching t db)
  after-eq t db c =
      keep-congr _ _ db.zsets (λ r.
        swap_tests (of_key key (unix_milli t) db r) _ (d.elem_glob pattern r.elem) _
          (ltb_pos c r.rowid))
      ∙ keep-and (behind (λ (r : ZsetRow). r.rowid) c) _ db.zsets

  limit-eq :
      (n : ℕ) (rows : List ZsetRow)
      → limit (default_page (pos n)) rows ≡ take (suc (page_rows n)) rows
  unfolding page_rows
  limit-eq zero rows = refl
  limit-eq (suc n) rows = refl

  fetch-eq :
      (n : ℕ) (t : Time) (db : Db) (c : ℕ)
      → fetch (pos n) t db c ≡ page (λ (r : ZsetRow). r.rowid) (suc (page_rows n)) (matching t db) c
  unfolding fetch scan
  fetch-eq n t db c =
      let rows : limit (default_page (pos n)) (
            keep
              (λ z.
                of_key key (unix_milli t) db z
                && (ltb_ℤ (pos c) (pos z.rowid) && d.elem_glob pattern z.elem))
              db.zsets)
          ≡ take (suc (page_rows n)) (keep (behind (λ (r : ZsetRow). r.rowid) c) (matching t db)) =
        ap (limit (default_page (pos n))) (after-eq t db c) ∙ limit-eq n _ in
      ap (λ (rs : List ZsetRow). (largest_id 0 rs, rs)) rows
      ∙ ap
          (λ k. (
            k,
            take (suc (page_rows n)) (keep (behind (λ (r : ZsetRow). r.rowid) c) (matching t db)),
          ))
          (largest_id-eq-largest 0 _)

  -- A new `Scanner` over a sorted set visits every element that matches the pattern once and ends, on
  -- tables that do not change, whose rows stand in the order of their rowids, with one reading of the
  -- clock.
  pub collect-elems :
      (n : ℕ) (t : Time) (db : Db)
      → IsAscending (λ (r : ZsetRow). r.rowid) db.zsets
      → All (λ (r : ZsetRow). 0 < r.rowid) db.zsets
      → collect (suc (length (matching t db))) (fetch (pos n) t db) new_scanner
        ≡ some (matching t db)
  collect-elems n t db s o = rw (fun_ext (fetch-eq n t db)) (
      collect-page (λ (r : ZsetRow). r.rowid) (page_rows n) (matching t db)
        (keep-IsAscending (λ (r : ZsetRow). r.rowid) _ db.zsets s)
        (All-kept (λ (r : ZsetRow). r.rowid) (λ (r : ZsetRow). 0 < r.rowid) _ db.zsets o))
