-- ===== src/Prelude/Digits.antt =====
-- Laws of masks, digit by digit: a mask put twice is put once, and numbers without a differing digit
-- are equal. Then the mask that clears the low twelve digits of a word.
use Prim.Native.Nat.{
  ℕ, zero, suc, ◌+◌, ◌-◌, ◌*◌, ◌/◌, ◌%◌, ◌^◌, ◌≤◌, ◌<◌, bit_and, bit_xor, differ, bit_xor-bitwise,
  bit_and-bitwise,
}
use mathlib.Core.Path.{◌≡◌, refl, ap}
use native.Mathlib.Omega.{arith}
use rd.Prelude.Bits.{bit_and-step, bit_and-zero, digits_rounds}

pub bit_xor-step : (a b : ℕ) → bit_xor a b ≡ bit_xor (a / 2) (b / 2) * 2 + differ (a % 2) (b % 2)
bit_xor-step zero b = omega (arith, bit_xor-bitwise 0 b, bit_xor-bitwise 0 (b / 2))
bit_xor-step (suc a) b = omega (
  arith,
  bit_xor-bitwise (suc a) b,
  bit_xor-bitwise (suc a / 2) (b / 2),
  digits_rounds (λ b. b) differ a (suc a / 2) (suc a / 2) (b / 2) (omega arith) (omega arith),
)

zero-bit_and : (m : ℕ) → bit_and 0 m ≡ 0
zero-bit_and m = bit_and-bitwise 0 m

absorb_below : (n a m : ℕ) → a ≤ n → bit_and (bit_and a m) m ≡ bit_and a m
absorb_below zero zero m h = rw (zero-bit_and m) (zero-bit_and m)
absorb_below zero (suc a) m h = absurd (omega arith)
absorb_below (suc n) a m h =
    let half : bit_and a m / 2 ≡ bit_and (a / 2) (m / 2) = omega (arith, bit_and-step a m) in
    omega (
      arith,
      bit_and-step a m,
      bit_and-step (bit_and a m) m,
      ap (λ (t : ℕ). bit_and t (m / 2)) half,
      absorb_below n (a / 2) (m / 2) (omega arith),
    )

pub bit_and-absorb : (a m : ℕ) → bit_and (bit_and a m) m ≡ bit_and a m
bit_and-absorb a m = absorb_below a a m (omega arith)

differ_digits : (a b : ℕ) → a < 2 → b < 2 → differ a b ≡ 0 → a ≡ b
differ_digits zero b h k e = omega arith
differ_digits (suc a) zero h k e = omega arith
differ_digits (suc zero) (suc b) h k e = omega arith
differ_digits (suc (suc a)) (suc b) h k e = absurd (omega arith)

equal_below : (n a b : ℕ) → a ≤ n → b ≤ n → bit_xor a b ≡ 0 → a ≡ b
equal_below zero a b h k e = omega arith
equal_below (suc n) a b h k e = omega (
  arith,
  equal_below n (a / 2) (b / 2) (omega arith) (omega arith) (omega (arith, bit_xor-step a b)),
  differ_digits (a % 2) (b % 2) (omega arith) (omega arith) (omega (arith, bit_xor-step a b)),
)

pub eq_of_bit_xor : (a b : ℕ) → bit_xor a b ≡ 0 → a ≡ b
eq_of_bit_xor a b e = equal_below (a + b) a b (omega arith) (omega arith) e

-- Four digits at a time: `n` times four ones.
unfoldable pub ones : ℕ → ℕ
ones zero = 0
ones (suc n) = ones n * 16 + 15

unfoldable pub limit : ℕ → ℕ
limit zero = 1
limit (suc n) = limit n * 16

pub bit_and-one : (a m : ℕ) → bit_and a (m * 2 + 1) ≡ bit_and (a / 2) m * 2 + a % 2
bit_and-one a m =
    let half : (m * 2 + 1) / 2 ≡ m = omega arith in
    omega (arith, bit_and-step a (m * 2 + 1), ap (λ (t : ℕ). bit_and (a / 2) t) half)

pub bit_and-none : (a m : ℕ) → bit_and a (m * 2) ≡ bit_and (a / 2) m * 2
bit_and-none a m =
    let half : m * 2 / 2 ≡ m = omega arith in
    omega (arith, bit_and-step a (m * 2), ap (λ (t : ℕ). bit_and (a / 2) t) half)

bit_and-four : (a m : ℕ) → bit_and a (m * 16 + 15) ≡ bit_and (a / 16) m * 16 + a % 16
bit_and-four a m =
    let mask : m * 16 + 15 ≡ (((m * 2 + 1) * 2 + 1) * 2 + 1) * 2 + 1 = omega arith in
    let rest : a / 2 / 2 / 2 / 2 ≡ a / 16 = omega arith in
    omega (
      arith,
      ap (λ (t : ℕ). bit_and a t) mask,
      bit_and-one a (((m * 2 + 1) * 2 + 1) * 2 + 1),
      bit_and-one (a / 2) ((m * 2 + 1) * 2 + 1),
      bit_and-one (a / 2 / 2) (m * 2 + 1),
      bit_and-one (a / 2 / 2 / 2) m,
      ap (λ (t : ℕ). bit_and t m) rest,
    )

bit_and-no_four : (a m : ℕ) → bit_and a (m * 16) ≡ bit_and (a / 16) m * 16
bit_and-no_four a m =
    let mask : m * 16 ≡ m * 2 * 2 * 2 * 2 = omega arith in
    let rest : a / 2 / 2 / 2 / 2 ≡ a / 16 = omega arith in
    omega (
      arith,
      ap (λ (t : ℕ). bit_and a t) mask,
      bit_and-none a (m * 2 * 2 * 2),
      bit_and-none (a / 2) (m * 2 * 2),
      bit_and-none (a / 2 / 2) (m * 2),
      bit_and-none (a / 2 / 2 / 2) m,
      ap (λ (t : ℕ). bit_and t m) rest,
    )

pub bit_and-ones : (n a : ℕ) → a < limit n → bit_and a (ones n) ≡ a
unfolding ones limit
bit_and-ones zero a h = omega (arith, bit_and-zero a)
bit_and-ones (suc n) a h =
    omega (arith, bit_and-four a (ones n), bit_and-ones n (a / 16) (omega arith))

limit_word : limit 13 ≡ 2 ^ 52
unfolding limit
limit_word = refl

ones_word : ones 13 * 16 * 16 * 16 ≡ 2 ^ 64 - 4096
unfolding ones
ones_word = refl

-- `a & !(4096 - 1)` on 64 bits
pub bit_and-page : (a : ℕ) → a < 2 ^ 64 → bit_and a (2 ^ 64 - 4096) ≡ a / 4096 * 4096
bit_and-page a h =
    let rest : a / 16 / 16 / 16 ≡ a / 4096 = omega arith in
    omega (
      arith,
      ap (λ (t : ℕ). bit_and a t) ones_word,
      bit_and-no_four a (ones 13 * 16 * 16),
      bit_and-no_four (a / 16) (ones 13 * 16),
      bit_and-no_four (a / 16 / 16) (ones 13),
      ap (λ (t : ℕ). bit_and t (ones 13)) rest,
      bit_and-ones 13 (a / 4096) (omega (arith, limit_word)),
    )
