-- ===== src/Core/Decimal.antt =====
-- strconv.Atoi and the decimal text of an integer, as Go's strconv and the SQL driver write it.
pub mod Laws
use Prim.Native.Char.{Char, code}
use Prim.Native.String.{[] as empty, ◌∷◌ as char}
use redka.Base.{
  ℕ, zero, suc, ◌+◌, ◌-◌, ◌*◌, ◌/◌, ◌%◌, ◌^◌, String, Bool, ◌&&◌, Option, none, some, ltb, leb,
  ◌==◌, ℤ, pos, negsuc, if◌then◌else◌, max_int,
}

-- the character of a digit
unfoldable pub digit : ℕ → Char
digit zero = "0"
digit (suc zero) = "1"
digit (suc (suc zero)) = "2"
digit (suc (suc (suc zero))) = "3"
digit (suc (suc (suc (suc zero)))) = "4"
digit (suc (suc (suc (suc (suc zero))))) = "5"
digit (suc (suc (suc (suc (suc (suc zero)))))) = "6"
digit (suc (suc (suc (suc (suc (suc (suc zero))))))) = "7"
digit (suc (suc (suc (suc (suc (suc (suc (suc zero)))))))) = "8"
digit _ = "9"

-- the digits of `n`, put before `out`; each round divides by ten
unfoldable pub digits : ℕ → ℕ → String → String
digits zero n out = out
digits (suc fuel) n out =
    let rest = digits fuel (n / 10) (char (digit (n % 10)) out) in
    if ltb n 10 then char (digit n) out else rest

-- as many rounds as the number has units are more than enough
unfoldable pub itoa_ℕ : ℕ → String
unfolding digits
itoa_ℕ n = digits (suc n) n empty

unfoldable pub itoa : ℤ → String
unfolding itoa_ℕ
itoa (pos n) = itoa_ℕ n
itoa (negsuc n) = char "-" (itoa_ℕ (suc n))

-- the value of a text of digits, above what was read before; `none` at any other character
unfoldable pub scan_digits : ℕ → String → Option ℕ
scan_digits acc empty = some acc
scan_digits acc (char c s) =
    let rest = scan_digits (acc * 10 + (code c - 48)) s in
    if leb 48 (code c) && leb (code c) 57 then rest else none

-- one digit at least
unfoldable pub scan_ℕ : String → Option ℕ
unfolding scan_digits
scan_ℕ empty = none
scan_ℕ (char c s) = scan_digits 0 (char c s)

in_range : ℕ → (ℕ → ℤ) → Option ℕ → Option ℤ
in_range limit sign none = none
in_range limit sign (some n) = if leb n limit then some (sign n) else none

abbrev neg : ℕ → ℤ
neg zero = pos 0
neg (suc n) = negsuc n

-- an optional sign, then digits, within 64 bits; `none` is the error
unfoldable pub atoi : String → Option ℤ
unfolding scan_ℕ in_range
atoi empty = none
atoi (char c s) =
    if code c == 45
    then in_range (2 ^ 63) neg (scan_ℕ s)
    else if code c == 43
    then in_range max_int pos (scan_ℕ s)
    else in_range max_int pos (scan_ℕ (char c s))
