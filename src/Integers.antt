-- ===== src/Integers.antt =====
-- `int` and its conversions.
use cpufb.Base.{
  Option, none, some, ℕ, ◌+◌, ◌-◌, ◌%◌, ◌^◌, ◌∷◌, Bool, true, false, Bytes, ltb, ◌==◌,
  if◌then◌else◌, max_u64, arith, ◌≡◌, refl, ◌<◌,
}
use cpufb.Text.Decimal.{to_string}
use cpufb.Doubles.{Doubles}

-- `negsuc n` is -(n + 1).
pub data ℤ : Type 0 where
  pos : ℕ → ℤ
  negsuc : ℕ → ℤ

-- The cast of a `uint64_t` to `int`, which keeps the low 32 bits.
unfoldable pub to_int : ℕ → ℤ
to_int n = let low = n % 2 ^ 32 in if ltb low (2 ^ 31) then pos low else negsuc (2 ^ 32 - low - 1)

pub to_int-small : (n : ℕ) → n < 2 ^ 31 → to_int n ≡ pos n
unfolding to_int
to_int-small n h =
    let low : n % 4294967296 ≡ n = omega (arith, h) in
    let fits : ltb n 2147483648 ≡ true = ground (arith, h) in rw (low, fits) refl

-- The cast of an `int` to `uint64_t`.
unfoldable pub from_int : ℤ → ℕ
from_int (pos n) = n
from_int (negsuc n) = max_u64 - n

unfoldable pub above_zero : ℤ → Bool
above_zero (pos n) = ltb 0 n
above_zero (negsuc n) = false

unfoldable pub below_zero : ℤ → Bool
below_zero (pos n) = false
below_zero (negsuc n) = true

unfoldable pub int_eq : ℤ → ℤ → Bool
int_eq (pos m) (pos n) = m == n
int_eq (pos m) (negsuc n) = false
int_eq (negsuc m) (pos n) = false
int_eq (negsuc m) (negsuc n) = m == n

unfoldable pub int_lt : ℤ → ℤ → Bool
int_lt (pos m) (pos n) = ltb m n
int_lt (pos m) (negsuc n) = false
int_lt (negsuc m) (pos n) = true
int_lt (negsuc m) (negsuc n) = ltb n m

-- A sum of `int`; `none` is an overflow.
unfoldable pub in_int : ℤ → Option ℤ
in_int (pos n) = if ltb n (2 ^ 31) then some (pos n) else none
in_int (negsuc n) = if ltb n (2 ^ 31) then some (negsuc n) else none

unfoldable pub plus : ℤ → ℤ → ℤ
plus (pos m) (pos n) = pos (m + n)
plus (pos m) (negsuc n) = if ltb n m then pos (m - n - 1) else negsuc (n - m)
plus (negsuc m) (pos n) = if ltb m n then pos (n - m - 1) else negsuc (m - n)
plus (negsuc m) (negsuc n) = negsuc (m + n + 1)

unfoldable pub int_add : ℤ → ℤ → Option ℤ
unfolding in_int plus
int_add m n = in_int (plus m n)

unfoldable pub int_to_string : ℤ → Bytes
int_to_string (pos n) = to_string n
int_to_string (negsuc n) = b'-' ∷ to_string (n + 1)

unfoldable pub to_double {ℓ} : {F : Type ℓ} → Doubles F → ℤ → F
to_double fl (pos n) = fl.literal n
to_double fl (negsuc n) = fl.difference 0 (n + 1)
