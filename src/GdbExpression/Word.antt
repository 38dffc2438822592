-- ===== src/GdbExpression/Word.antt =====
-- The arithmetic on `i64` that gdb_expression.rs uses. An `i64` is its bit pattern, a number below
-- 2 ^ 64, so that `as u64` and `as i64` do nothing; the negative ones are 2 ^ 63 and more.
use rd.Prelude.{
  ℕ, ◌+◌, ◌-◌, ◌*◌, ◌/◌, ◌%◌, ◌^◌, Bool, not, ◌&&◌, Option, none, some, bit_and, bit_or, ltb, ◌==◌,
  if◌then◌else◌,
}

abbrev pub modulus : ℕ
modulus = 2 ^ 64

abbrev pub minus_one : ℕ
minus_one = 2 ^ 64 - 1

-- i64::MIN
abbrev pub min_i64 : ℕ
min_i64 = 2 ^ 63

abbrev pub is_negative : ℕ → Bool
is_negative a = not (ltb a (2 ^ 63))

-- overflowing_add, overflowing_sub, overflowing_mul
unfoldable pub add : ℕ → ℕ → ℕ
add a b = (a + b) % modulus

unfoldable pub sub : ℕ → ℕ → ℕ
sub a b = (a + modulus - b) % modulus

unfoldable pub mul : ℕ → ℕ → ℕ
mul a b = a * b % modulus

unfoldable pub negate : ℕ → ℕ
negate a = (modulus - a) % modulus

unfoldable pub magnitude : ℕ → ℕ
unfolding negate
magnitude a = if is_negative a then negate a else a

-- overflowing_div by a divisor that is not 0: towards zero, and i64::MIN / -1 wraps to i64::MIN.
unfoldable pub div_signed : ℕ → ℕ → ℕ
unfolding negate magnitude
div_signed a b =
    let q = magnitude a / magnitude b in
    if is_negative a
    then (if is_negative b then q else negate q)
    else if is_negative b
    then negate q
    else q

unfoldable pub div_unsigned : ℕ → ℕ → ℕ
div_unsigned a b = a / b

-- `a % b` by a divisor that is not 0. i64::MIN % -1 panics, in every profile: `none`.
unfoldable pub rem_signed : ℕ → ℕ → Option ℕ
unfolding negate magnitude
rem_signed a b =
    let r = magnitude a % magnitude b in
    if a == min_i64 && b == minus_one
    then none
    else if is_negative a
    then some (negate r)
    else some r

unfoldable pub rem_unsigned : ℕ → ℕ → ℕ
rem_unsigned a b = a % b

-- `b as u32`, of which overflowing_shl and overflowing_shr take the low six bits
unfoldable pub shift_count : ℕ → ℕ
shift_count b = b % 2 ^ 32 % 64

unfoldable pub lsh : ℕ → ℕ → ℕ
unfolding shift_count
lsh a b = a * 2 ^ shift_count b % modulus

unfoldable pub bit_not : ℕ → ℕ
bit_not a = modulus - 1 - a

-- An arithmetic shift by less than 64.
unfoldable pub shr_signed : ℕ → ℕ → ℕ
unfolding bit_not
shr_signed a k = if is_negative a then bit_not (bit_not a / 2 ^ k) else a / 2 ^ k

unfoldable pub rsh_signed : ℕ → ℕ → ℕ
unfolding shift_count shr_signed
rsh_signed a b = shr_signed a (shift_count b)

unfoldable pub rsh_unsigned : ℕ → ℕ → ℕ
unfolding shift_count
rsh_unsigned a b = a / 2 ^ shift_count b

abbrev pub from_bool : Bool → ℕ
from_bool b = if b then 1 else 0

unfoldable pub log_not : ℕ → ℕ
log_not a = if a == 0 then 1 else 0

unfoldable pub equal : ℕ → ℕ → ℕ
equal a b = from_bool (a == b)

unfoldable pub less_unsigned : ℕ → ℕ → ℕ
less_unsigned a b = from_bool (ltb a b)

-- A negative number is below the others; two of one sign compare as their patterns do.
unfoldable pub less_signed : ℕ → ℕ → ℕ
less_signed a b =
    if is_negative a
    then (if is_negative b then from_bool (ltb a b) else 1)
    else if is_negative b
    then 0
    else from_bool (ltb a b)

-- The mask of OP_ext and OP_zero_ext, for n below 64: `(1i64 << n) - 1`. For 63 that is i64::MIN - 1,
-- which overflows: `none`.
unfoldable pub low_mask : ℕ → Option ℕ
low_mask n = if ltb n 63 then some (2 ^ n - 1) else none

-- OP_ext of the low n bits, 0 < n < 64. `sign_bit * !n_mask` is 0 or `!n_mask`.
unfoldable pub sign_extend : ℕ → ℕ → Option ℕ
unfolding low_mask shr_signed bit_not
sign_extend a n = elim (low_mask n) [
  | none ↦ none
  | some n_mask ↦
      let sign_bit = bit_and (shr_signed a (n - 1)) 1 in
      some (bit_or (sign_bit * bit_not n_mask % modulus) (bit_and a n_mask))
]

unfoldable pub zero_extend : ℕ → ℕ → Option ℕ
unfolding low_mask
zero_extend a n = elim (low_mask n) [ none ↦ none | some n_mask ↦ some (bit_and a n_mask) ]
