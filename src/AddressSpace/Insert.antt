-- ===== src/AddressSpace/Insert.antt =====
-- session/address_space.rs: an entry put where there is none.
use rd.Prelude.{ℕ, ◌≤◌, ◌<◌, ◌≡◌, some, [], ◌∷◌, if◌then◌else◌, arith, refl, lt, gt, ◌⊎◌, inl, inr}
use rd.MemoryRange.{MemoryRange, cmp, intersects}
use rd.AddressSpace.MemoryMap.{Mapping, MemoryMap, insert}
use rd.AddressSpace.View.{IsEntry, Sorted, Apart, inside, find_entry}

cmp_before :
    (k j : MemoryRange) → k.start < k.end → k.end ≤ j.start → j.start < j.end → cmp k j ≡ lt
unfolding cmp intersects
cmp_before k j h l g = ground arith

cmp_after : (k j : MemoryRange) → k.start < k.end → k.end ≤ j.start → cmp j k ≡ gt
unfolding cmp intersects
cmp_after k j h l = ground arith

module _ (key : MemoryRange) (m : Mapping) (order : key.start < key.end) where
  pub find_entry-insert :
      (b : ℕ) (mem : MemoryMap) (q : ℕ)
      → Sorted b mem
      → Apart key mem
      → find_entry (insert key m mem) q ≡ (if inside key q then some m else find_entry mem q)
  unfolding find_entry insert
  find_entry-insert b [] q s a = refl
  find_entry-insert b ((k, n) ∷ mem) q s (inl before, a) =
      ground (arith, cmp_after k key s.2 before, find_entry-insert k.end mem q s.3 a)
  find_entry-insert b ((k, n) ∷ mem) q s (inr after, a) =
      ground (arith, cmp_before key k order after s.2)

  pub insert-Sorted :
      (b : ℕ) (mem : MemoryMap)
      → Sorted b mem
      → Apart key mem
      → IsEntry key m
      → b ≤ key.start
      → Sorted b (insert key m mem)
  unfolding insert
  insert-Sorted b [] s a e l = (e, l, order, tt)
  insert-Sorted b ((k, n) ∷ mem) s (inl before, a) e l =
      rw (cmp_after k key s.2 before, insert)
        (s.0, s.1, s.2, insert-Sorted k.end mem s.3 a e before)
  insert-Sorted b ((k, n) ∷ mem) s (inr after, a) e l =
      rw (cmp_before key k order after s.2, insert) (e, l, order, (s.0, after, s.2, s.3))

  pub Apart-insert :
      (b : ℕ) (r : MemoryRange) (mem : MemoryMap)
      → Sorted b mem
      → Apart key mem
      → Apart r mem
      → (key.end ≤ r.start) ⊎ (r.end ≤ key.start)
      → Apart r (insert key m mem)
  unfolding insert
  Apart-insert b r [] s a t o = (o, tt)
  Apart-insert b r ((k, n) ∷ mem) s (inl before, a) t o =
      rw (cmp_after k key s.2 before, insert) (t.0, Apart-insert k.end r mem s.3 a t.1 o)
  Apart-insert b r ((k, n) ∷ mem) s (inr after, a) t o =
      rw (cmp_before key k order after s.2, insert) (o, t)
