-- ===== src/Signal.antt =====
-- src/sig.rs: a signal number that has passed a range test.
-- An `i32` is held as its bit pattern, a number below 2 ^ 32; the negative ones are 2 ^ 31 and more.
use rd.Prelude.{ℕ, ◌^◌, ◌≡◌, Bool, ◌&&◌, Option, none, some, arith, ltb, ◌==◌, if◌then◌else◌}

pub record Sig : Type 0 where
  pub raw : ℕ

-- Sig::as_raw
abbrev pub as_raw : Sig → ℕ
as_raw s = s.raw

-- `sig > 0` of a signed number.
abbrev pub positive_i32 : ℕ → Bool
positive_i32 n = ltb 0 n && ltb n (2 ^ 31)

-- TryFrom<i32>
unfoldable pub try_from_i32 : ℕ → Option Sig
try_from_i32 sig = if positive_i32 sig && ltb sig 0x80 then some (record { raw = sig }) else none

-- TryFrom<usize>
unfoldable pub try_from_usize : ℕ → Option Sig
try_from_usize sig = if ltb sig 0x80 then some (record { raw = sig }) else none

-- The conversion from `usize` is the one from `i32`, but that it accepts 0, which the other refuses.
pub try_from_agree :
    (n : ℕ)
    → (try_from_usize n ≡ (if n == 0 then some (record { raw = 0 }) else try_from_i32 n))
      × (try_from_i32 0 ≡ none)
unfolding try_from_i32 try_from_usize
try_from_agree n = ground arith
