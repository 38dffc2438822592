-- ===== src/RemotePtr.antt =====
-- remote_ptr.rs: addresses in a tracee, as 64-bit numbers with arithmetic that wraps. A referent has
-- one byte here (`Void` and `u8`), the type that the ranges and the mappings use.
use rd.Prelude.{ℕ, ◌+◌, ◌-◌, ◌%◌, ◌^◌, ◌≤◌, ◌<◌, ◌==◌, Bool, ◌≡◌, arith}

abbrev pub usize_mod : ℕ
usize_mod = 2 ^ 64

-- Add<usize>
unfoldable pub ptr_add : ℕ → ℕ → ℕ
ptr_add ptr delta = (ptr + delta) % usize_mod

-- Sub<usize>, and Sub<RemotePtr<T>>, which divides by the size of the referent
unfoldable pub ptr_sub : ℕ → ℕ → ℕ
ptr_sub ptr delta = (ptr + usize_mod - delta) % usize_mod

unfoldable pub is_null : ℕ → Bool
is_null ptr = ptr == 0

pub ptr_add_lem : (ptr delta : ℕ) → ptr + delta < 2 ^ 64 → ptr_add ptr delta ≡ ptr + delta
unfolding ptr_add
ptr_add_lem ptr delta h = omega arith

pub ptr_sub_lem : (ptr delta : ℕ) → delta ≤ ptr → ptr < 2 ^ 64 → ptr_sub ptr delta ≡ ptr - delta
unfolding ptr_sub
ptr_sub_lem ptr delta h k = omega arith

-- A distance is found again whatever wraps.
pub ptr_sub-ptr_add :
    (ptr delta : ℕ) → ptr < 2 ^ 64 → delta < 2 ^ 64 → ptr_sub (ptr_add ptr delta) ptr ≡ delta
unfolding ptr_sub ptr_add
ptr_sub-ptr_add ptr delta h k = omega arith
