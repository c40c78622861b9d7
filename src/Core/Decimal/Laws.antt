-- ===== src/Core/Decimal/Laws.antt =====
-- Reading a decimal text gives back the integer that was written.
use Prim.Native.Char.{Char, code}
use Prim.Native.String.{[] as empty, ◌∷◌ as char}
use redka.Base.{
  ℕ, zero, suc, ◌+◌, ◌-◌, ◌*◌, ◌/◌, ◌%◌, ◌<◌, true, false, max_int, ◌==◌, ◌^◌, ◌≡◌, refl, String,
  some, ltb, leb, arith, ℤ, pos, negsuc, IsInt, Bool-cases, inl, inr, ◌∙◌,
}
use native.Mathlib.Nat.{zero-add}
use redka.Core.Decimal.{digit, digits, itoa_ℕ, itoa, scan_digits, scan_ℕ, in_range, atoi}

code-digit : (d : ℕ) → d < 10 → code (digit d) ≡ 48 + d
unfolding digit
code-digit zero h = refl
code-digit (suc zero) h = refl
code-digit (suc (suc zero)) h = refl
code-digit (suc (suc (suc zero))) h = refl
code-digit (suc (suc (suc (suc zero)))) h = refl
code-digit (suc (suc (suc (suc (suc zero))))) h = refl
code-digit (suc (suc (suc (suc (suc (suc zero)))))) h = refl
code-digit (suc (suc (suc (suc (suc (suc (suc zero))))))) h = refl
code-digit (suc (suc (suc (suc (suc (suc (suc (suc zero)))))))) h = refl
code-digit (suc (suc (suc (suc (suc (suc (suc (suc (suc zero))))))))) h = refl
code-digit (suc (suc (suc (suc (suc (suc (suc (suc (suc (suc n)))))))))) h = absurd (omega arith)

-- one more digit at the front of what is read
scan-digit :
    (acc d : ℕ) (out : String)
    → d < 10
    → scan_digits acc (char (digit d) out) ≡ scan_digits (acc * 10 + d) out
unfolding scan_digits
scan-digit acc d out h =
    let low : leb 48 (48 + d) ≡ true = ground arith in
    let high : leb (48 + d) 57 ≡ true = ground arith in
    let value : 48 + d - 48 ≡ d = omega arith in rw (code-digit d h) (rw (low, high, value))

scan-digits :
    (fuel n : ℕ) (out : String) → n < fuel → scan_digits 0 (digits fuel n out) ≡ scan_digits n out
unfolding digits
scan-digits zero n out h = elim h [ ]
scan-digits (suc fuel) n out h = elim (Bool-cases (ltb n 10)) [
  | inl small ↦ rw small (scan-digit 0 n out (ground arith) ∙ rw zero-add)
  | inr large ↦ rw large (
      scan-digits fuel (n / 10) _ (ground arith)
      ∙ scan-digit (n / 10) (n % 10) out (omega arith)
      ∙ (let whole : n / 10 * 10 + n % 10 ≡ n = omega arith in rw whole))
]

-- the text of a number starts with a digit
StartsWithDigit : (fuel n : ℕ) (out : String) → Type 0
StartsWithDigit fuel n out =
    (d : ℕ) × (rest : String) × (d < 10) × (digits fuel n out ≡ char (digit d) rest)

digits-start : (fuel n : ℕ) (out : String) → n < fuel → StartsWithDigit fuel n out
unfolding digits StartsWithDigit
digits-start zero n out h = elim h [ ]
digits-start (suc fuel) n out h = elim (Bool-cases (ltb n 10)) [
  | inl small ↦ rw small (n, out, ground arith, refl)
  | inr large ↦ rw large (digits-start fuel (n / 10) _ (ground arith))
]

scan_ℕ_nonempty :
    (s : String) (c : Char) (rest : String) → s ≡ char c rest → scan_ℕ s ≡ scan_digits 0 s
unfolding scan_ℕ
scan_ℕ_nonempty s c rest e = rw e

-- a text that starts with a digit has no sign
atoi-digit :
    (s rest : String) (d : ℕ)
    → d < 10
    → s ≡ char (digit d) rest
    → atoi s ≡ in_range max_int pos (scan_ℕ s)
unfolding atoi
atoi-digit s rest d h e =
    let minus : (48 + d == 45) ≡ false = ground arith in
    let plus : (48 + d == 43) ≡ false = ground arith in
    rw e (rw (code-digit d h) (rw (minus, plus)))

scan_ℕ-itoa : (n : ℕ) → scan_ℕ (itoa_ℕ n) ≡ some n
unfolding itoa_ℕ StartsWithDigit
scan_ℕ-itoa n =
    let (d, rest, lt, e) = digits-start (suc n) n empty (omega arith) in
    scan_ℕ_nonempty _ _ rest e
    ∙ scan-digits (suc n) n empty (omega arith)
    ∙ (unfold scan_digits in refl)

-- Every 64-bit integer is read back from its text.
pub atoi-itoa : (n : ℤ) → IsInt n → atoi (itoa n) ≡ some n
unfolding itoa StartsWithDigit
atoi-itoa (pos n) h =
    let (d, rest, lt, e) = digits-start (suc n) n empty (omega arith) in
    let small : leb n max_int ≡ true = ground arith in
    atoi-digit _ rest d lt e ∙ rw (scan_ℕ-itoa n) (unfold in_range in rw small)
atoi-itoa (negsuc n) h =
    let small : leb (suc n) (2 ^ 63) ≡ true = ground arith in
    unfold atoi in rw (scan_ℕ-itoa (suc n)) (unfold in_range in rw small)
