-- ===== src/Prelude/Decimal.antt =====
-- Decimal text as the C library reads and prints it: `strtoll` in base 10 on a whole string, and
-- `snprintf` with `PRId64`, `PRIu64`, `%zu` or `%lld`.
use Prim.Native.Nat.{ℕ, zero, suc, ◌+◌, ◌-◌, ◌*◌, ◌/◌, ◌%◌, ◌^◌, ◌≤◌, ◌<◌}
use mathlib.Core.Path.{◌≡◌, ◌∙◌}
use mathlib.Core.Logic.{inl, inr}
use mathlib.Core.Bool.{Bool, ◌&&◌, ◌||◌}
use mathlib.Core.List.{[], ◌∷◌, ◌++◌}
use mathlib.Core.Option.{Option, none, some}
use native.Mathlib.Omega.{arith}
use native.Mathlib.Nat.{pow-suc}
use pulse_db.Prelude.Tests.{ltb, leb, ◌==◌, if◌then◌else◌, Bool-cases}
use pulse_db.Prelude.Lists.{All, All-append, length, length-append}
use pulse_db.Prelude.Int.{ℤ, pos, negsuc}
use pulse_db.Prelude.Bytes.{Bytes}

abbrev pub is_digit : ℕ → Bool
is_digit c = leb b'0' c && leb c b'9'

-- The digits of `n`, with at least as much fuel as digits.
unfoldable pub decimal_fuel : ℕ → ℕ → Bytes
decimal_fuel zero n = []
decimal_fuel (suc f) n =
    let rest = decimal_fuel f (n / 10) in
    if ltb n 10 then (48 + n) ∷ [] else rest ++ (48 + n % 10) ∷ []

-- `%zu`
unfoldable pub decimal : ℕ → Bytes
decimal n = decimal_fuel (suc n) n

-- The value of a text of digits, after the digits that gave `acc`.
unfoldable pub digits_from : ℕ → Bytes → Option ℕ
digits_from acc [] = some acc
digits_from acc (c ∷ s) = if is_digit c then digits_from (acc * 10 + (c - 48)) s else none

digits_from-append :
    (acc d n : ℕ) (s : Bytes)
    → digits_from acc s ≡ some n
    → d < 10
    → digits_from acc (s ++ (48 + d) ∷ []) ≡ some (n * 10 + d)
unfolding digits_from
digits_from-append acc d n [] h l = ground arith
digits_from-append acc d n (c ∷ s) h l =
    ground (arith, digits_from-append (acc * 10 + (c - 48)) d n s)

digits_from-decimal_fuel : (f n : ℕ) → n < f → digits_from 0 (decimal_fuel f n) ≡ some n
unfolding decimal_fuel
digits_from-decimal_fuel zero n h = absurd (omega arith)
digits_from-decimal_fuel (suc f) n h = elim (Bool-cases (ltb n 10)) [
  | inl small ↦ rw small (unfold digits_from in ground arith)
  | inr large ↦ rw large (
      digits_from-append 0 (n % 10) (n / 10) (decimal_fuel f (n / 10))
        (digits_from-decimal_fuel f (n / 10) (ground arith)) (omega arith)
      ∙ ground arith)
]

-- Printing and reading back.
pub digits_from-decimal : (n : ℕ) → digits_from 0 (decimal n) ≡ some n
unfolding decimal
digits_from-decimal n = digits_from-decimal_fuel (suc n) n (omega arith)

abbrev pub IsDigit : ℕ → Type 0
IsDigit c = (48 ≤ c) × (c ≤ 57)

decimal_fuel-All : (f n : ℕ) → All IsDigit (decimal_fuel f n)
unfolding decimal_fuel
decimal_fuel-All zero n = tt
decimal_fuel-All (suc f) n = elim (Bool-cases (ltb n 10)) [
  | inl small ↦ rw small (ground arith)
  | inr large ↦ rw large (All-append IsDigit _ _ (decimal_fuel-All f (n / 10)) (omega arith))
]

pub decimal-All : (n : ℕ) → All IsDigit (decimal n)
unfolding decimal
decimal-All n = decimal_fuel-All (suc n) n

pub decimal_nonempty : (n : ℕ) → 0 < length (decimal n)
unfolding decimal decimal_fuel
decimal_nonempty n = elim (Bool-cases (ltb n 10)) [
  | inl small ↦ rw small (omega arith)
  | inr large ↦ rw (large, length-append) (omega arith)
]

-- `isspace` in the C locale
abbrev pub is_space : ℕ → Bool
is_space c = c == 32 || (leb 9 c && leb c 13)

unfoldable pub skip_spaces : Bytes → Bytes
skip_spaces [] = []
skip_spaces (c ∷ s) = if is_space c then skip_spaces s else c ∷ s

-- The digits after the sign: at least one, and nothing behind them.
unfoldable pub whole_digits : Bytes → Option ℕ
whole_digits [] = none
whole_digits (c ∷ s) = digits_from 0 (c ∷ s)

abbrev pub int64_max : ℕ
int64_max = 2 ^ 63 - 1

-- A magnitude and a sign as an `int64_t`, `none` where `strtoll` sets `ERANGE`.
unfoldable pub positive_int64 : Option ℕ → Option ℤ
positive_int64 none = none
positive_int64 (some n) = if leb n int64_max then some (pos n) else none

unfoldable pub negative_int64 : Option ℕ → Option ℤ
negative_int64 none = none
negative_int64 (some zero) = some (pos 0)
negative_int64 (some (suc n)) = if leb n int64_max then some (negsuc n) else none

unfoldable pub strtoll_signed : Bytes → Option ℤ
strtoll_signed [] = none
strtoll_signed (c ∷ s) =
    if c == b'-'
    then negative_int64 (whole_digits s)
    else if c == b'+'
    then positive_int64 (whole_digits s)
    else positive_int64 (whole_digits (c ∷ s))

-- `strtoll(s, &end, 10)` with `errno == 0` and `*end == 0`
unfoldable pub strtoll_whole : Bytes → Option ℤ
strtoll_whole s = strtoll_signed (skip_spaces s)

-- `PRId64`
unfoldable pub signed_decimal : ℤ → Bytes
signed_decimal (pos n) = decimal n
signed_decimal (negsuc n) = b'-' ∷ decimal (suc n)

abbrev pub IsInt64 : ℤ → Type 0
IsInt64 (pos n) = n ≤ int64_max
IsInt64 (negsuc n) = n ≤ int64_max

positive_text :
    (s : Bytes) (n : ℕ)
    → All IsDigit s
    → 0 < length s
    → digits_from 0 s ≡ some n
    → n ≤ int64_max
    → strtoll_whole s ≡ some (pos n)
unfolding strtoll_whole skip_spaces strtoll_signed whole_digits positive_int64
positive_text [] n d l e b = absurd (omega arith)
positive_text (c ∷ s) n d l e b = ground arith

negative_text :
    (s : Bytes) (n : ℕ)
    → 0 < length s
    → digits_from 0 s ≡ some (suc n)
    → n ≤ int64_max
    → strtoll_whole (b'-' ∷ s) ≡ some (negsuc n)
unfolding strtoll_whole skip_spaces strtoll_signed whole_digits negative_int64
negative_text [] n l e b = absurd (omega arith)
negative_text (c ∷ s) n l e b = ground arith

pub strtoll_whole-signed_decimal : (z : ℤ) → IsInt64 z → strtoll_whole (signed_decimal z) ≡ some z
unfolding signed_decimal
strtoll_whole-signed_decimal (pos n) h =
    positive_text (decimal n) n (decimal-All n) (decimal_nonempty n) (digits_from-decimal n) h
strtoll_whole-signed_decimal (negsuc n) h =
    negative_text (decimal (suc n)) n (decimal_nonempty (suc n)) (digits_from-decimal (suc n)) h

positive_int64-IsInt64 : (o : Option ℕ) (z : ℤ) → positive_int64 o ≡ some z → IsInt64 z
unfolding positive_int64
positive_int64-IsInt64 none z h = absurd (cc)
positive_int64-IsInt64 (some n) (pos m) h = ground arith
positive_int64-IsInt64 (some n) (negsuc m) h = ground arith

negative_int64-IsInt64 : (o : Option ℕ) (z : ℤ) → negative_int64 o ≡ some z → IsInt64 z
unfolding negative_int64
negative_int64-IsInt64 none z h = absurd (cc)
negative_int64-IsInt64 (some zero) (pos m) h = ground arith
negative_int64-IsInt64 (some zero) (negsuc m) h = ground arith
negative_int64-IsInt64 (some (suc n)) (pos m) h = ground arith
negative_int64-IsInt64 (some (suc n)) (negsuc m) h = ground arith

strtoll_signed-IsInt64 : (s : Bytes) (z : ℤ) → strtoll_signed s ≡ some z → IsInt64 z
unfolding strtoll_signed
strtoll_signed-IsInt64 [] z h = absurd (cc)
strtoll_signed-IsInt64 (c ∷ s) z h = elim (Bool-cases (c == b'-')) [
  | inl m ↦ negative_int64-IsInt64 _ z (rw m at h)
  | inr m ↦ elim (Bool-cases (c == b'+')) [
    | inl p ↦ positive_int64-IsInt64 _ z (rw (m, p) at h)
    | inr p ↦ positive_int64-IsInt64 _ z (rw (m, p) at h)
  ]
]

-- Every number that is read fits.
pub strtoll_whole-IsInt64 : (s : Bytes) (z : ℤ) → strtoll_whole s ≡ some z → IsInt64 z
unfolding strtoll_whole
strtoll_whole-IsInt64 s z h = strtoll_signed-IsInt64 (skip_spaces s) z h

tenth : (n k : ℕ) → n < 10 ^ suc (suc k) → n / 10 < 10 ^ suc k
tenth n k h = omega (arith, pow-suc 10 (suc k))

length-decimal_fuel-le : (f n k : ℕ) → n < 10 ^ suc k → length (decimal_fuel f n) ≤ suc k
unfolding decimal_fuel
length-decimal_fuel-le zero n k h = omega arith
length-decimal_fuel-le (suc f) n zero h = ground arith
length-decimal_fuel-le (suc f) n (suc k) h = elim (Bool-cases (ltb n 10)) [
  | inl small ↦ rw small (omega arith)
  | inr large ↦
      rw (large, length-append) (omega (arith, length-decimal_fuel-le f (n / 10) k (tenth n k h)))
]

-- A number below 10 ^ (k + 1) has at most k + 1 digits.
pub length-decimal-le : (n k : ℕ) → n < 10 ^ suc k → length (decimal n) ≤ suc k
unfolding decimal
length-decimal-le n k h = length-decimal_fuel-le (suc n) n k h
