-- ===== src/Command/Arguments.antt =====
-- internal/command: what the parse functions have in common. `multi*ttl` and the products with a
-- duration are Go integers of 64 bits.
use redka.Base.{
  ℤ, pos, ◌*ℤ◌, wrap, String, Bool, true, false, Option, none, some, List, [], ◌∷◌, str_eq, put,
  if◌then◌else◌,
}
use redka.Core.{atoi, AnyValue, bytes, Duration}
use redka.Command.{
  CommandError, invalid_arg_num, invalid_cursor, invalid_int, syntax_error, ScanOptions, Op,
}

-- The outcome of a parse function.
pub data Parsing (A : Type 0) : Type 0 where
  accept : A → Parsing A
  reject : CommandError → Parsing A

abbrev pub then_parse : {A B : Type 0} → Parsing A → (A → Parsing B) → Parsing B
then_parse (accept a) f = f a
then_parse (reject e) f = reject e

-- `strconv.Atoi`, with the command's error
unfoldable pub integer : CommandError → String → Parsing ℤ
integer e s = elim (atoi s) [ none ↦ reject e | some n ↦ accept n ]

abbrev pub millisecond : ℤ
millisecond = pos 1000000

abbrev pub second : ℤ
second = pos 1000000000

-- `time.Duration(multi*ttl) * time.Millisecond`
unfoldable pub milliseconds : ℤ → ℤ → Duration
milliseconds unit n = wrap (wrap (unit *ℤ n) *ℤ millisecond)

-- commands without arguments
unfoldable pub parse_none : Op → CommandError → List String → Parsing Op
parse_none op e [] = accept op
parse_none op e (a ∷ more) = reject e

-- commands with one argument or more
unfoldable pub parse_some : (List String → Op) → List String → Parsing Op
parse_some op [] = reject invalid_arg_num
parse_some op (a ∷ more) = accept (op (a ∷ more))

unfoldable pub parse_one : (String → Op) → List String → Parsing Op
parse_one op (a ∷ []) = accept (op a)
parse_one op _ = reject invalid_arg_num

unfoldable pub parse_two : (String → String → Op) → List String → Parsing Op
parse_two op (a ∷ b ∷ []) = accept (op a b)
parse_two op _ = reject invalid_arg_num

-- an option of `parseScan` and `parseHScan`: its word, and its argument if there is one
unfoldable pub parse_scan_option : String → Option String → ScanOptions → Parsing ScanOptions
parse_scan_option word none o = reject syntax_error
parse_scan_option word (some arg) o =
    if str_eq word "match"
    then accept (record o { match_ = arg })
    else if str_eq word "count"
    then then_parse (integer invalid_int arg) (λ n. accept (record o { count = n }))
    else reject syntax_error

-- the options behind the cursor, at most two
unfoldable pub parse_scan_options : List String → ScanOptions → Parsing ScanOptions
parse_scan_options [] o = accept o
parse_scan_options (w ∷ []) o = parse_scan_option w none o
parse_scan_options (w ∷ a ∷ []) o = parse_scan_option w (some a) o
parse_scan_options (w ∷ a ∷ w' ∷ []) o =
    then_parse (parse_scan_option w (some a) o) (parse_scan_option w' none)
parse_scan_options (w ∷ a ∷ w' ∷ a' ∷ []) o =
    then_parse (parse_scan_option w (some a) o) (parse_scan_option w' (some a'))
parse_scan_options _ o = reject invalid_arg_num

-- all keys by default
abbrev default_match : ScanOptions → ScanOptions
default_match o = record o { match_ = if str_eq o.match_ "" then "*" else o.match_ }

abbrev few : List String → Bool
few (w ∷ a ∷ w' ∷ a' ∷ x ∷ rest) = false
few _ = true

-- the arguments from the cursor on: their number is checked first, then the cursor
unfoldable pub parse_cursor : (ScanOptions → Op) → List String → Parsing Op
parse_cursor op [] = reject invalid_arg_num
parse_cursor op (c ∷ rest) =
    if few rest
    then then_parse (integer invalid_cursor c) (λ n.
      then_parse (parse_scan_options rest (record { cursor = n; match_ = ""; count = pos 0 }))
        (λ o. accept (op (default_match o))))
    else reject invalid_arg_num

-- The loop that fills the map of items; an odd number of arguments has been refused before.
unfoldable pub parse_items :
    List (String × AnyValue) → List String → Parsing (List (String × AnyValue))
parse_items items [] = accept items
parse_items items (key ∷ []) = reject invalid_arg_num
parse_items items (key ∷ value ∷ rest) = parse_items (put key (bytes value) items) rest

-- a list of items
unfoldable pub parse_pairs : (List (String × AnyValue) → Op) → List String → Parsing Op
parse_pairs op [] = reject invalid_arg_num
parse_pairs op (a ∷ more) = then_parse (parse_items [] (a ∷ more)) λ items. accept (op items)

-- a key with items
unfoldable pub parse_key_pairs : (String → List (String × AnyValue) → Op) → List String → Parsing Op
parse_key_pairs op (key ∷ a ∷ more) =
    then_parse (parse_items [] (a ∷ more)) λ items. accept (op key items)
parse_key_pairs op _ = reject invalid_arg_num

-- a key with one field or more
unfoldable pub parse_fields : (String → List String → Op) → List String → Parsing Op
parse_fields op (key ∷ a ∷ more) = accept (op key (a ∷ more))
parse_fields op _ = reject invalid_arg_num
