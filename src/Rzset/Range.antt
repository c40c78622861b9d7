-- ===== src/Rzset/Range.antt =====
-- internal/rzset/range.go: ranges of a sorted set by rank and by score.
use redka.Base.{
  drop, ℕ, suc, ℤ, pos, negsuc, String, List, [], ltb_ℤ, map, keep, take, if◌then◌else◌,
}
use mathlib.Core.List.{reverse}
use redka.Core.{Float64, Time, unix_milli}
use redka.Schema.{Db, ZsetRow}
use redka.Sqlx.{limit}
use redka.Rzset.Driver.{SetDriver}
use redka.Rzset.Order.{SortDir, asc, desc, sort_rows, dir_le}
use redka.Rzset.{SetItem, scan_item, members, between}

-- `byRank` and `byScore`, of which a command has at most one
pub data Filter : Type 0 where
  unfiltered : Filter
  by_rank : ℤ → ℤ → Filter
  by_score : Float64 → Float64 → Filter

-- `RangeCmd`
pub record RangeCmd : Type 0 where
  pub key : String
  pub filter : Filter
  pub sort_dir : SortDir
  pub offset : ℤ
  pub count : ℤ

-- `RangeWith`
abbrev pub range_with : String → RangeCmd
range_with key = record {
  key = key;
  filter = unfiltered;
  sort_dir = asc;
  offset = pos 0;
  count = pos 0;
}

-- `ByRank`, `ByScore`, `Asc`, `Desc`, `Offset` and `Count`
abbrev pub with_rank : ℤ → ℤ → RangeCmd → RangeCmd
with_rank start stop c = record c { filter = by_rank start stop }

abbrev pub with_score : Float64 → Float64 → RangeCmd → RangeCmd
with_score start stop c = record c { filter = by_score start stop }

abbrev pub ascending : RangeCmd → RangeCmd
ascending c = record c { sort_dir = asc }

abbrev pub descending : RangeCmd → RangeCmd
descending c = record c { sort_dir = desc }

abbrev pub with_offset : ℤ → RangeCmd → RangeCmd
with_offset n c = record c { offset = n }

abbrev pub with_count : ℤ → RangeCmd → RangeCmd
with_count n c = record c { count = n }

-- `rank between :start and :stop`, for ranks that count from 0
abbrev pub slice {ℓ} : {A : Type ℓ} → ℕ → ℕ → List A → List A
slice start stop rows = drop start (take (suc stop) rows)

-- `order by rank asc`, where `strings.Replace` changes every `asc` of the query
abbrev pub by_rank_dir : SortDir → List ZsetRow → List ZsetRow
by_rank_dir asc rows = rows
by_rank_dir desc rows = reverse rows

-- `limit :offset, :count` in its three forms
unfoldable pub page : ℤ → ℤ → List ZsetRow → List ZsetRow
page (pos n) count rows = if ltb_ℤ (pos 0) count then limit count (drop n rows) else drop n rows
page (negsuc n) count rows = if ltb_ℤ (pos 0) count then limit count rows else rows

module _ (d : SetDriver) where
  -- `rangeRank`, on the members of the set
  unfoldable pub range_rank : SortDir → ℤ → ℤ → List ZsetRow → List ZsetRow
  range_rank dir (pos start) (pos stop) rows =
      by_rank_dir dir (slice start stop (sort_rows (dir_le d dir) rows))
  range_rank dir _ _ rows = []

  -- `rangeScore`, on the members of the set
  unfoldable pub range_score : SortDir → Float64 → Float64 → ℤ → ℤ → List ZsetRow → List ZsetRow
  unfolding page
  range_score dir start stop offset count rows =
      page offset count (sort_rows (dir_le d dir) (keep (between d start stop) rows))

  -- `RangeCmd.Run`, before the rows are read into items
  unfoldable pub range_rows : Filter → RangeCmd → List ZsetRow → List ZsetRow
  unfolding range_rank range_score
  range_rows unfiltered c rows = []
  range_rows (by_rank start stop) c rows = range_rank c.sort_dir start stop rows
  range_rows (by_score start stop) c rows = range_score c.sort_dir start stop c.offset c.count rows

  -- `RangeCmd.Run`
  unfoldable pub run_range : RangeCmd → Time → Db → List SetItem
  unfolding range_rows
  run_range c t db = map (scan_item d) (range_rows c.filter c (members c.key (unix_milli t) db))

  -- `Tx.Range`
  unfoldable pub range : String → ℤ → ℤ → Time → Db → List SetItem
  unfolding run_range
  range key start stop = run_range (with_rank start stop (range_with key))
