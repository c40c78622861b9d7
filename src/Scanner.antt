-- ===== src/Scanner.antt =====
-- The scanners (`Scanner` of internal/rkey/tx.go, internal/rhash/scanner.go and
-- internal/rzset/scanner.go), which are one program over three kinds of rows: an iterator that
-- fetches a page of rows when it has returned the last one of the page before.
pub mod Pages
use redka.Base.{
  get_elem?, ℕ, zero, suc, ltb, leb, Bool, true, false, Option, none, some, List, [], ◌∷◌, length,
  if◌then◌else◌,
}
use mathlib.Core.Option

-- `Scanner`, less its key, pattern and page size, which the page function has. Before the first row
-- there is no current one. (No query of the model fails, so that there is no `err`.)
pub record Scanner (A : Type 0) : Type 0 where
  pub cursor : ℕ
  pub index : ℕ
  pub cur : Option A
  pub items : List A

-- `newScanner`
abbrev pub new_scanner : {A : Type 0} → Scanner A
new_scanner = record { cursor = 0; index = 0; cur = none; items = [] }

module _ {A : Type 0} where
  -- the end of `Scan`: the next row of the page
  abbrev pub advance : Scanner A → Bool × Scanner A
  advance s = (true, record s { cur = get_elem? s.items s.index; index = suc s.index })

  -- a page that was fetched; an empty one ends the scan
  abbrev pub with_page : Scanner A → ℕ × List A → Bool × Scanner A
  with_page s (cursor, []) = (false, record s { cursor = cursor; items = []; index = 0 })
  with_page s (cursor, x ∷ xs) = advance (record s { cursor = cursor; items = x ∷ xs; index = 0 })

  -- `Scan`, with the page that follows each cursor
  unfoldable pub next : (ℕ → ℕ × List A) → Scanner A → Bool × Scanner A
  next fetch s = if leb (length s.items) s.index then with_page s (fetch s.cursor) else advance s

  abbrev pub add_row : Option A → Option (List A) → Option (List A)
  add_row (some x) (some xs) = some (x ∷ xs)
  add_row _ _ = none

  -- what follows a call of `Scan`: the row, and the rows of the rounds that follow
  abbrev pub after_next : Bool × Scanner A → (Scanner A → Option (List A)) → Option (List A)
  after_next (false, s) rest = some []
  after_next (true, s) rest = add_row s.cur (rest s)

  -- `for sc.Scan() { rows = append(rows, sc.Key()) }` with at most so many rounds; `none` if more
  -- are needed
  unfoldable pub collect : ℕ → (ℕ → ℕ × List A) → Scanner A → Option (List A)
  collect zero fetch s = none
  collect (suc n) fetch s = after_next (next fetch s) (collect n fetch)
