-- ===== src/Common/Bits.antt =====
-- `a | b` on machine words, where `b` is a mask of ones.
use Prim.Native.Nat.{ℕ, zero, suc, ◌+◌, ◌*◌, ◌/◌, ◌%◌, ◌≤◌, max, bit_or, digits, bit_or-bitwise}
use mathlib.Core.Path.{◌≡◌, refl}
use native.Mathlib.Omega.{arith}

abbrev or_digits : ℕ → ℕ → ℕ → ℕ
or_digits n a b = digits (λ b. b) max n a b

or_digits_fuel : (n m a b : ℕ) → a ≤ n → a ≤ m → or_digits n a b ≡ or_digits m a b
or_digits_fuel zero zero a b p q = refl
or_digits_fuel zero (suc m) zero b p q = refl
or_digits_fuel zero (suc m) (suc a) b p q = absurd (omega arith)
or_digits_fuel (suc n) zero zero b p q = refl
or_digits_fuel (suc n) zero (suc a) b p q = absurd (omega arith)
or_digits_fuel (suc n) (suc m) zero b p q = refl
or_digits_fuel (suc n) (suc m) (suc a) b p q =
    omega (arith, or_digits_fuel n m (suc a / 2) (b / 2) (omega arith) (omega arith))

zero-bit_or : (b : ℕ) → bit_or 0 b ≡ b
zero-bit_or b = bit_or-bitwise 0 b

pub bit_or_step : (a b : ℕ) → bit_or a b ≡ bit_or (a / 2) (b / 2) * 2 + max (a % 2) (b % 2)
bit_or_step zero b = omega (arith, zero-bit_or b, zero-bit_or (b / 2))
bit_or_step (suc a) b = omega (
  arith,
  bit_or-bitwise (suc a) b,
  bit_or-bitwise (suc a / 2) (b / 2),
  or_digits_fuel a (suc a / 2) (suc a / 2) (b / 2) (omega arith) (omega arith),
)

bit_or-zero_fuel : (n a : ℕ) → a ≤ n → bit_or a 0 ≡ a
bit_or-zero_fuel n zero h = refl
bit_or-zero_fuel zero (suc a) h = absurd (omega arith)
bit_or-zero_fuel (suc n) (suc a) h =
    omega (arith, bit_or_step (suc a) 0, bit_or-zero_fuel n (suc a / 2) (omega arith))

pub bit_or-zero : (a : ℕ) → bit_or a 0 ≡ a
bit_or-zero a = bit_or-zero_fuel a a (omega arith)

-- A mask of ones sets the digits below it.
bit_or_odd : (a b m : ℕ) → b ≡ m * 2 + 1 → bit_or a b ≡ bit_or (a / 2) m * 2 + 1
bit_or_odd a b m e =
    let half : b / 2 ≡ m = omega arith in
    let odd : b % 2 ≡ 1 = omega arith in
    let top : max (a % 2) 1 ≡ 1 = omega arith in rw (bit_or_step a b, half, odd, top)

pub bit_or_127 : (a : ℕ) → bit_or a 127 ≡ a / 128 * 128 + 127
bit_or_127 a = omega (
  arith,
  bit_or_odd (a) 127 63 refl,
  bit_or_odd (a / 2) 63 31 refl,
  bit_or_odd (a / 2 / 2) 31 15 refl,
  bit_or_odd (a / 2 / 2 / 2) 15 7 refl,
  bit_or_odd (a / 2 / 2 / 2 / 2) 7 3 refl,
  bit_or_odd (a / 2 / 2 / 2 / 2 / 2) 3 1 refl,
  bit_or_odd (a / 2 / 2 / 2 / 2 / 2 / 2) 1 0 refl,
  bit_or-zero (a / 2 / 2 / 2 / 2 / 2 / 2 / 2),
)

pub bit_or_8191 : (a : ℕ) → bit_or a 8191 ≡ a / 8192 * 8192 + 8191
bit_or_8191 a = omega (
  arith,
  bit_or_odd (a) 8191 4095 refl,
  bit_or_odd (a / 2) 4095 2047 refl,
  bit_or_odd (a / 2 / 2) 2047 1023 refl,
  bit_or_odd (a / 2 / 2 / 2) 1023 511 refl,
  bit_or_odd (a / 2 / 2 / 2 / 2) 511 255 refl,
  bit_or_odd (a / 2 / 2 / 2 / 2 / 2) 255 127 refl,
  bit_or_127 (a / 2 / 2 / 2 / 2 / 2 / 2),
)
