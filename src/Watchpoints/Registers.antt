-- ===== src/Watchpoints/Registers.antt =====
-- session/address_space.rs: `configure_watch_registers`, for one watched range.
use rd.Prelude.{
  ℕ, ◌+◌, ◌-◌, ◌*◌, ◌/◌, ◌≤◌, ◌<◌, ◌^◌, ◌≡◌, Bool, true, false, ◌&&◌, Option, none, some, List, [],
  ◌∷◌, ◌++◌, ltb, leb, if◌then◌else◌, bit_and, arith, inl, inr, Bool-cases, length, min,
}
use rd.Prelude.Digits.{bit_and-one, bit_and-none, bit_and-ones, ones, limit}
use rd.Prelude.Options.{◌>>=◌, ◌>>◌, assert}
use rd.MemoryRange.{MemoryRange, from_range, new_range, size}
use rd.Watchpoints.Split.{split_range}

pub data WatchType : Type 0 where
  watch_exec : WatchType
  watch_write : WatchType
  watch_read_write : WatchType

pub record WatchConfig : Type 0 where
  pub addr : ℕ
  pub num_bytes : ℕ
  pub type : WatchType

unfoldable pub is_write : WatchType → Bool
is_write watch_write = true
is_write _ = false

-- The end is below the last address, so that nothing wraps.
unfoldable pub range_for_watchpoint : ℕ → ℕ → MemoryRange
unfolding new_range
range_for_watchpoint addr num_bytes =
    let max_len = 2 ^ 64 - 1 - addr in new_range addr (min num_bytes max_len)

unfoldable pub alignment : ℕ → ℕ
alignment bytes = if leb bytes 2 then 2 else if leb bytes 4 then 4 else 8

-- `x & !(align - 1)` in 64 bits
unfoldable pub align_down : ℕ → ℕ → ℕ
align_down x align = bit_and x (2 ^ 64 - 1 - (align - 1))

-- The pieces to watch: those of the range, or of the aligned range around it if they are fewer.
unfoldable pub watched_pieces : MemoryRange → WatchType → Option (List MemoryRange)
unfolding from_range
watched_pieces range watchtype = do
  split_ranges ← split_range range
  let align : ℕ = alignment (size range)
  let widened : Option (List MemoryRange) = (do
    assert (ltb (range.end + (align - 1)) (2 ^ 64))
    aligned ← from_range (align_down range.start align) (align_down (range.end + (align - 1)) align)
    split ← split_range aligned
    some (if ltb (length split) (length split_ranges) then split else split_ranges))
  if is_write watchtype && ltb 1 (size range) then widened else some split_ranges

-- The new configurations, after those that are there.
unfoldable pub config_of : WatchType → MemoryRange → WatchConfig
unfolding size
config_of watchtype r = record { addr = r.start; num_bytes = size r; type = watchtype }

-- `regs.len()` as `u8` for each piece; `none` when it does not fit
unfoldable pub push_configs :
    WatchType → List MemoryRange → List WatchConfig → List ℕ → Option (List WatchConfig × List ℕ)
unfolding config_of
push_configs watchtype [] regs assigned_regs = some (regs, assigned_regs)
push_configs watchtype (r ∷ rs) regs assigned_regs = do
  assert (ltb (length regs) 256)
  push_configs watchtype rs (regs ++ config_of watchtype r ∷ []) (assigned_regs ++ length regs ∷ [])

-- The same without a list of registers to fill.
unfoldable pub push_only : WatchType → List MemoryRange → List WatchConfig → List WatchConfig
unfolding config_of
push_only watchtype [] regs = regs
push_only watchtype (r ∷ rs) regs = push_only watchtype rs (regs ++ config_of watchtype r ∷ [])

unfoldable pub configure_watch_registers :
    List WatchConfig
    → MemoryRange
    → WatchType
    → Option (List ℕ)
    → Option (List WatchConfig × Option (List ℕ))
configure_watch_registers regs range watchtype none = do
  pieces ← watched_pieces range watchtype
  some (push_only watchtype pieces regs, none)
configure_watch_registers regs range watchtype (some assigned_regs) = do
  pieces ← watched_pieces range watchtype
  result ← push_configs watchtype pieces regs assigned_regs
  some (result.0, some result.1)

align_one_digit :
    (x : ℕ) → x < 2 ^ 64 → bit_and x ((((ones 15 * 2 + 1) * 2 + 1) * 2 + 1) * 2) ≡ x / 2 * 2
unfolding limit
align_one_digit x h = omega (
  arith,
  bit_and-none x (((ones 15 * 2 + 1) * 2 + 1) * 2 + 1),
  bit_and-one (x / 2) ((ones 15 * 2 + 1) * 2 + 1),
  bit_and-one (x / 2 / 2) (ones 15 * 2 + 1),
  bit_and-one (x / 2 / 2 / 2) (ones 15),
  bit_and-ones 15 (x / 2 / 2 / 2 / 2) (omega arith),
)

align_two_digits :
    (x : ℕ) → x < 2 ^ 64 → bit_and x (((ones 15 * 2 + 1) * 2 + 1) * 2 * 2) ≡ x / 4 * 4
unfolding limit
align_two_digits x h = omega (
  arith,
  bit_and-none x (((ones 15 * 2 + 1) * 2 + 1) * 2),
  bit_and-none (x / 2) ((ones 15 * 2 + 1) * 2 + 1),
  bit_and-one (x / 2 / 2) (ones 15 * 2 + 1),
  bit_and-one (x / 2 / 2 / 2) (ones 15),
  bit_and-ones 15 (x / 2 / 2 / 2 / 2) (omega arith),
)

align_three_digits : (x : ℕ) → x < 2 ^ 64 → bit_and x ((ones 15 * 2 + 1) * 2 * 2 * 2) ≡ x / 8 * 8
unfolding limit
align_three_digits x h = omega (
  arith,
  bit_and-none x ((ones 15 * 2 + 1) * 2 * 2),
  bit_and-none (x / 2) ((ones 15 * 2 + 1) * 2),
  bit_and-none (x / 2 / 2) (ones 15 * 2 + 1),
  bit_and-one (x / 2 / 2 / 2) (ones 15),
  bit_and-ones 15 (x / 2 / 2 / 2 / 2) (omega arith),
)

-- Rounding down loses less than the alignment.
pub align_down_bounds :
    (x bytes : ℕ)
    → x < 2 ^ 64
    → (align_down x (alignment bytes) ≤ x)
      × (x < align_down x (alignment bytes) + alignment bytes)
      × (alignment bytes ≤ 8)
      × (0 < alignment bytes)
unfolding align_down alignment ones
align_down_bounds x bytes h = elim (Bool-cases (leb bytes 2)) [
  | inl two ↦ rw two (omega (arith, align_one_digit x h))
  | inr more ↦ elim (Bool-cases (leb bytes 4)) [
    | inl four ↦ rw more (rw four (omega (arith, align_two_digits x h)))
    | inr eight ↦ rw more (rw eight (omega (arith, align_three_digits x h)))
  ]
]
