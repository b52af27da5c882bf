-- ===== src/Reply/Lines.antt =====
-- The lines of src/reply.c, numbers among them, as src/resp.c reads them back.
use pulse_db.Prelude.{
  ℕ, suc, ◌+◌, ◌-◌, ◌*◌, ◌≤◌, ◌<◌, ◌≡◌, ◌≢◌, refl, ℤ, pos, negsuc, [], ◌∷◌, ◌++◌, length, some,
  arith, All,
}
use pulse_db.Prelude.Bytes.{Bytes}
use pulse_db.Prelude.Decimal.{
  decimal, signed_decimal, int64_max, IsDigit, decimal-All, digits_from, digits_from-decimal,
  decimal_nonempty, length-decimal-le,
}
use pulse_db.Resp.{
  ok, after_cr, line_end, find_line_end, number, number_from, number_digits, number_text,
  parse_number, line_number, read_number_line,
}

-- No byte of a line is a carriage return.
abbrev pub NotCr : ℕ → Type 0
NotCr c = c ≢ b'\r'

pub line_end-line :
    (max_line n : ℕ) (line rest : Bytes)
    → All NotCr line
    → n + length line ≤ max_line
    → line_end max_line n (line ++ b'\r' ∷ b'\n' ∷ rest) ≡ ok line rest
unfolding line_end after_cr
line_end-line m n [] rest h l = refl
line_end-line m n (c ∷ line) rest h l = ground (arith, h.0, line_end-line m (n + 1) line rest h.1)

digits_from-le : (v n : ℕ) (s : Bytes) → digits_from v s ≡ some n → v ≤ n
unfolding digits_from
digits_from-le v n [] h = ground arith
digits_from-le v n (c ∷ s) h = ground (arith, digits_from-le (v * 10 + (c - 48)) n s)

number_from-digits :
    (v n : ℕ) (s : Bytes)
    → digits_from v s ≡ some n
    → n ≤ int64_max
    → number_from v s ≡ number (pos n)
unfolding number_from digits_from
number_from-digits v n [] h l = ground arith
number_from-digits v n (c ∷ s) h l =
    ground
      (arith, number_from-digits (v * 10 + (c - 48)) n s, digits_from-le (v * 10 + (c - 48)) n s)

-- The integers that a `long long` can negate.
abbrev pub IsSymmetric : ℤ → Type 0
IsSymmetric (pos n) = n ≤ int64_max
IsSymmetric (negsuc n) = n < int64_max

digits_number :
    (s : Bytes) (n : ℕ)
    → All IsDigit s
    → 0 < length s
    → digits_from 0 s ≡ some n
    → n ≤ int64_max
    → (number_digits s ≡ number (pos n)) × (number_text s ≡ number (pos n))
unfolding number_digits number_text
digits_number [] n d l e b = absurd (omega arith)
digits_number (c ∷ s) n d l e b =
    (number_from-digits 0 n (c ∷ s) e b, ground (arith, number_from-digits 0 n (c ∷ s) e b))

number_text-decimal : (z : ℤ) → IsSymmetric z → number_text (signed_decimal z) ≡ number z
unfolding signed_decimal
number_text-decimal (pos n) h =
    (digits_number (decimal n) n (decimal-All n) (decimal_nonempty n) (digits_from-decimal n) h).1
number_text-decimal (negsuc n) h =
    let t =
      (digits_number (decimal (suc n)) (suc n) (decimal-All (suc n)) (decimal_nonempty (suc n))
        (digits_from-decimal (suc n)) h).0 in
    unfold number_text in rw t

length-signed_decimal-le : (z : ℤ) → IsSymmetric z → length (signed_decimal z) ≤ 20
unfolding signed_decimal
length-signed_decimal-le (pos n) h = omega (arith, length-decimal-le n 18 (omega arith))
length-signed_decimal-le (negsuc n) h = omega (arith, length-decimal-le (suc n) 18 (omega arith))

digits-NotCr : (s : Bytes) → All IsDigit s → All NotCr s
digits-NotCr [] h = tt
digits-NotCr (c ∷ s) h = (omega arith, digits-NotCr s h.1)

signed_decimal-NotCr : (z : ℤ) → All NotCr (signed_decimal z)
unfolding signed_decimal
signed_decimal-NotCr (pos n) = digits-NotCr _ (decimal-All n)
signed_decimal-NotCr (negsuc n) = (omega arith, digits-NotCr _ (decimal-All (suc n)))

parse_number-decimal : (z : ℤ) → IsSymmetric z → parse_number (signed_decimal z) ≡ number z
unfolding parse_number
parse_number-decimal z h = ground (arith, length-signed_decimal-le z h, number_text-decimal z h)

-- A number line is read back.
pub read_number_line-decimal :
    (z : ℤ) (rest : Bytes)
    → IsSymmetric z
    → read_number_line (signed_decimal z ++ b'\r' ∷ b'\n' ∷ rest) ≡ ok z rest
unfolding read_number_line find_line_end line_number
read_number_line-decimal z rest h =
    let short = length-signed_decimal-le z h in
    rw
      (
        line_end-line 32 0 (signed_decimal z) rest (signed_decimal-NotCr z) (omega arith),
        parse_number-decimal z h,
      )
      refl

-- A count is read back.
pub count-RoundTrip :
    (n : ℕ) (rest : Bytes)
    → n ≤ int64_max
    → read_number_line (decimal n ++ b'\r' ∷ b'\n' ∷ rest) ≡ ok (pos n) rest
unfolding signed_decimal
count-RoundTrip n rest h = read_number_line-decimal (pos n) rest h
