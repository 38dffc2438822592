-- ===== src/MemoryRange.antt =====
-- session/address_space/memory_range.rs: ranges of addresses, and their order as keys of a map. An
-- address is a number below 2 ^ 64, and a range ends before its `end`.
mod Examples
use rd.RemotePtr.{ptr_add, ptr_sub, ptr_sub-ptr_add}
use rd.Prelude.{
  ℕ, ◌+◌, ◌-◌, ◌≤◌, ◌<◌, ◌^◌, ltb, leb, ◌==◌, if◌then◌else◌, min, max, Bool, true, false, not, ◌&&◌,
  Option, none, some, Ordering, compare, lt, eq, gt, ◌≡◌, ◌↔◌, refl, arith,
}

pub record MemoryRange : Type 0 where
  pub start : ℕ
  pub end : ℕ

unfoldable pub new_range : ℕ → ℕ → MemoryRange
unfolding ptr_add
new_range addr num_bytes = record { start = addr; end = ptr_add addr num_bytes }

-- `none` when the assertion fails
unfoldable pub from_range : ℕ → ℕ → Option MemoryRange
from_range addr end = if leb addr end then some (record { start = addr; end = end }) else none

unfoldable pub contains : MemoryRange → MemoryRange → Bool
contains a b = leb a.start b.start && leb b.end a.end

unfoldable pub contains_ptr : MemoryRange → ℕ → Bool
contains_ptr a p = leb a.start p && ltb p a.end

unfoldable pub intersect : MemoryRange → MemoryRange → MemoryRange
intersect a b =
    let s = max a.start b.start in let e = min a.end b.end in record { start = s; end = max s e }

unfoldable pub intersects : MemoryRange → MemoryRange → Bool
intersects a b = ltb (max a.start b.start) (min a.end b.end)

unfoldable pub size : MemoryRange → ℕ
unfolding ptr_sub
size a = ptr_sub a.end a.start

-- Ord::cmp of MemoryRangeKey
unfoldable pub cmp : MemoryRange → MemoryRange → Ordering
cmp a b = if not (intersects a b) then compare a.start b.start else eq

-- PartialEq::eq of MemoryRangeKey
unfoldable pub same_key : MemoryRange → MemoryRange → Bool
same_key a b = if not (intersects a b) then a.start == b.start else true

-- The intersection of two ranges holds an address exactly if both hold it, also when they are apart;
-- its end is not before its start.
pub contains_ptr-intersect :
    (a b : MemoryRange)
    → ((p : ℕ) → contains_ptr (intersect a b) p ≡ (contains_ptr a p && contains_ptr b p))
      × ((intersect a b).start ≤ (intersect a b).end)
unfolding contains_ptr intersect
contains_ptr-intersect a b = ((λ p. ground arith), ground arith)

-- Two ranges intersect exactly if some address is in both.
pub intersects_iff :
    (a b : MemoryRange)
    → (intersects a b ≡ true → (p : ℕ) × (contains_ptr a p ≡ true) × (contains_ptr b p ≡ true))
      × ((p : ℕ) → contains_ptr a p ≡ true → contains_ptr b p ≡ true → intersects a b ≡ true)
unfolding contains_ptr intersects
intersects_iff a b =
    ((λ h. (max a.start b.start, ground arith, ground arith)), (λ p h k. ground arith))

-- A range that is not empty is contained in another exactly if each of its addresses is.
pub contains_iff :
    (a b : MemoryRange)
    → b.start < b.end
    → (contains a b ≡ true) ↔ ((p : ℕ) → contains_ptr b p ≡ true → contains_ptr a p ≡ true)
unfolding contains contains_ptr
contains_iff a b h = (
  (λ c p k. ground arith),
  (λ f. (let first = f b.start in let last = f (b.end - 1) in ground (arith, first, last))),
)

-- The order of the keys on ranges that are not empty: equality is cmp's, cmp is less on a and b
-- exactly if it is greater on b and a, less means that a ends where b starts or before, and less is
-- transitive.
pub cmp_order :
    (a b c : MemoryRange)
    → a.start < a.end
    → b.start < b.end
    → c.start < c.end
    → ((same_key a b ≡ true) ↔ (cmp a b ≡ eq))
      × ((cmp a b ≡ lt) ↔ (cmp b a ≡ gt))
      × ((cmp a b ≡ lt) ↔ (a.end ≤ b.start))
      × (cmp a b ≡ lt → cmp b c ≡ lt → cmp a c ≡ lt)
unfolding cmp same_key intersects
cmp_order a b c h k l = (ground arith, ground arith, ground arith, λ e f. ground arith)

-- For an address and a number of bytes of 64 bits, the size of the range that `new_range` makes is the
-- number of bytes, also where the addition wraps, and `from_range` with the same ends makes the same
-- range where it does not wrap; where it wraps, the assertion of `from_range` fails and no address is
-- in the range of `new_range`.
pub size_made :
    (addr num_bytes : ℕ)
    → addr < 2 ^ 64
    → num_bytes < 2 ^ 64
    → (size (new_range addr num_bytes) ≡ num_bytes)
      × (from_range addr (ptr_add addr num_bytes)
          ≡ (if ltb (addr + num_bytes) (2 ^ 64) then some (new_range addr num_bytes) else none))
      × (2 ^ 64 ≤ addr + num_bytes → (p : ℕ) → contains_ptr (new_range addr num_bytes) p ≡ false)
unfolding new_range from_range size contains_ptr
size_made addr num_bytes h k =
    (ptr_sub-ptr_add addr num_bytes h k, ground arith, λ w p. ground arith)
