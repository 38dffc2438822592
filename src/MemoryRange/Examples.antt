-- ===== src/MemoryRange/Examples.antt =====
-- session/address_space/memory_range.rs: two ranges that overlap, and one after them.
use rd.RemotePtr.{ptr_add}
use rd.Prelude.{
  ℕ, ◌^◌, ltb, if◌then◌else◌, none, false, ◌+◌, ◌≤◌, true, some, lt, eq, gt, ◌≡◌, ◌↔◌, arith,
}
use rd.MemoryRange.{
  MemoryRange, new_range, from_range, size, contains_ptr, cmp, same_key, cmp_order, size_made,
}

abbrev low : MemoryRange
low = record { start = 0; end = 10 }

abbrev high : MemoryRange
high = record { start = 9; end = 15 }

abbrev last : MemoryRange
last = record { start = 15; end = 20 }

cmp_order_example :
    ((same_key low high ≡ true) ↔ (cmp low high ≡ eq))
    × ((cmp low high ≡ lt) ↔ (cmp high low ≡ gt))
    × ((cmp low high ≡ lt) ↔ (low.end ≤ high.start))
    × (cmp low high ≡ lt → cmp high last ≡ lt → cmp low last ≡ lt)
cmp_order_example = cmp_order low high last (omega arith) (omega arith) (omega arith)

size_made_example :
    (size (new_range 4096 4096) ≡ 4096)
    × (from_range 4096 (ptr_add 4096 4096)
        ≡ (if ltb (4096 + 4096) (2 ^ 64) then some (new_range 4096 4096) else none))
    × (2 ^ 64 ≤ 4096 + 4096 → (p : ℕ) → contains_ptr (new_range 4096 4096) p ≡ false)
size_made_example = size_made 4096 4096 (omega arith) (omega arith)
