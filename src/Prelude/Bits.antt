-- ===== src/Prelude/Bits.antt =====
-- Masks and shifts as arithmetic: `x & (2^k - 1)` is a remainder, and `(x << k) | y` with `y`
-- below `2^k` is a sum. The native operations compute at numerals only.
use Prim.Native.Nat.{
  ℕ, zero, suc, ◌+◌, ◌*◌, ◌/◌, ◌%◌, ◌^◌, ◌≤◌, ◌<◌, min, max, bit_and, bit_or, digits,
  bit_and-bitwise, bit_or-bitwise,
}
use mathlib.Core.Path.{◌≡◌, refl, sym, ap}
use mathlib.Core.Bool.{Bool, true, ◌&&◌}
use native.Mathlib.Nat.{pow-suc, mul_assoc}
use native.Mathlib.Omega.{arith}

-- One more round than the first number needs changes nothing.
module _ (z : ℕ → ℕ) (f : ℕ → ℕ → ℕ) where
  pub digits_rounds : (n m a b : ℕ) → a ≤ n → a ≤ m → digits z f n a b ≡ digits z f m a b
  digits_rounds zero zero a b p q = refl
  digits_rounds zero (suc m) zero b p q = refl
  digits_rounds zero (suc m) (suc a) b p q = absurd (omega arith)
  digits_rounds (suc n) zero zero b p q = refl
  digits_rounds (suc n) zero (suc a) b p q = absurd (omega arith)
  digits_rounds (suc n) (suc m) zero b p q = refl
  digits_rounds (suc n) (suc m) (suc a) b p q =
      omega (arith, digits_rounds n m (suc a / 2) (b / 2) (omega arith) (omega arith))

pub bit_and-step : (a b : ℕ) → bit_and a b ≡ bit_and (a / 2) (b / 2) * 2 + min (a % 2) (b % 2)
bit_and-step zero b = omega (arith, bit_and-bitwise 0 b, bit_and-bitwise 0 (b / 2))
bit_and-step (suc a) b = omega (
  arith,
  bit_and-bitwise (suc a) b,
  bit_and-bitwise (suc a / 2) (b / 2),
  digits_rounds (λ b. zero) min a (suc a / 2) (suc a / 2) (b / 2) (omega arith) (omega arith),
)

pub bit_or-step : (a b : ℕ) → bit_or a b ≡ bit_or (a / 2) (b / 2) * 2 + max (a % 2) (b % 2)
bit_or-step zero b = omega (arith, bit_or-bitwise 0 b, bit_or-bitwise 0 (b / 2))
bit_or-step (suc a) b = omega (
  arith,
  bit_or-bitwise (suc a) b,
  bit_or-bitwise (suc a / 2) (b / 2),
  digits_rounds (λ b. b) max a (suc a / 2) (suc a / 2) (b / 2) (omega arith) (omega arith),
)

-- The number of rounds bounds the first number.
bit_and-zero_below : (n a : ℕ) → a ≤ n → bit_and a 0 ≡ 0
bit_and-zero_below n zero h = refl
bit_and-zero_below zero (suc a) h = absurd (omega arith)
bit_and-zero_below (suc n) (suc a) h =
    omega (arith, bit_and-step (suc a) 0, bit_and-zero_below n (suc a / 2) (omega arith))

pub bit_and-zero : (a : ℕ) → bit_and a 0 ≡ 0
bit_and-zero a = bit_and-zero_below a a (omega arith)

pub bit_and-nibble : (a : ℕ) → bit_and a 15 ≡ a % 16
bit_and-nibble a = omega (
  arith,
  bit_and-step a 15,
  bit_and-step (a / 2) 7,
  bit_and-step (a / 2 / 2) 3,
  bit_and-step (a / 2 / 2 / 2) 1,
  bit_and-zero (a / 2 / 2 / 2 / 2),
)

pub bit_and-0x7f : (a : ℕ) → bit_and a 0x7f ≡ a % 128
bit_and-0x7f a = omega (
  arith,
  bit_and-step a 127,
  bit_and-step (a / 2) 63,
  bit_and-step (a / 2 / 2) 31,
  bit_and-nibble (a / 2 / 2 / 2),
)

pub bit_and-byte : (a : ℕ) → bit_and a 0xff ≡ a % 256
bit_and-byte a = omega (arith, bit_and-step a 255, bit_and-0x7f (a / 2))

pub bit_or-zero : (a : ℕ) → bit_or 0 a ≡ a
bit_or-zero a = bit_or-bitwise 0 a

or-zero_below : (n a : ℕ) → a ≤ n → bit_or a 0 ≡ a
or-zero_below n zero h = refl
or-zero_below zero (suc a) h = absurd (omega arith)
or-zero_below (suc n) (suc a) h =
    omega (arith, bit_or-step (suc a) 0, or-zero_below n (suc a / 2) (omega arith))

double_pow : (x k : ℕ) → x * 2 ^ suc k ≡ x * 2 ^ k * 2
double_pow x k = rw pow-suc (sym (mul_assoc x (2 ^ k) 2))

-- `(x << k) | y`, where `y` has `k` digits at most.
pub bit_or-shifted : (k x y : ℕ) → y < 2 ^ k → bit_or (x * 2 ^ k) y ≡ x * 2 ^ k + y
bit_or-shifted zero x zero h = omega (arith, or-zero_below (x * 2 ^ 0) (x * 2 ^ 0) (omega arith))
bit_or-shifted zero x (suc y) h = absurd (omega arith)
bit_or-shifted (suc k) x y h =
    let half : y / 2 < 2 ^ k = omega (arith, h, pow-suc 2 k) in
    let even : x * 2 ^ suc k / 2 ≡ x * 2 ^ k = omega (arith, double_pow x k) in
    omega (
      arith,
      bit_or-step (x * 2 ^ suc k) y,
      ap (λ (t : ℕ). bit_or t (y / 2)) even,
      bit_or-shifted k x (y / 2) half,
      double_pow x k,
    )

-- A test that passes on each number below a bound.
unfoldable pub holds_below : ℕ → (ℕ → Bool) → Bool
holds_below zero test = true
holds_below (suc bound) test = holds_below bound test && test bound

pub holds_below_lem :
    (bound : ℕ) (test : ℕ → Bool) (i : ℕ)
    → holds_below bound test ≡ true
    → i < bound
    → test i ≡ true
unfolding holds_below
holds_below_lem zero test i passed inside = absurd (omega arith)
holds_below_lem (suc bound) test i passed inside = ground (arith, holds_below_lem bound test i)
