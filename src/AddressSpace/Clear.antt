-- ===== src/AddressSpace/Clear.antt =====
-- session/address_space.rs: addresses at which no mapping goes on.
use rd.Prelude.{ℕ, ◌≤◌, [], ◌∷◌, arith, ◌⊎◌, inr, lt, eq, gt}
use rd.MemoryRange.{MemoryRange, cmp}
use rd.AddressSpace.MemoryMap.{Mapping, MemoryMap, insert, remove}
use rd.AddressSpace.View.{Sorted}

-- Every entry ends at `c` or before, or starts there or later.
abbrev pub Clear : ℕ → MemoryMap → Type 0
Clear c [] = Unit
Clear c ((k, m) ∷ mem) = ((k.end ≤ c) ⊎ (c ≤ k.start)) × Clear c mem

pub Clear-after : (c b : ℕ) (mem : MemoryMap) → Sorted b mem → c ≤ b → Clear c mem
Clear-after c b [] s h = tt
Clear-after c b ((k, m) ∷ mem) s h = (inr (omega arith), Clear-after c k.end mem s.3 (omega arith))

pub Clear-remove :
    (c : ℕ) (key : MemoryRange) (mem : MemoryMap) → Clear c mem → Clear c (remove key mem)
unfolding remove
Clear-remove c key [] s = tt
Clear-remove c key ((k, m) ∷ mem) s =
    elim (cmp key k) as (λ o. Clear c (elim o [ eq ↦ mem | _ ↦ (k, m) ∷ remove key mem ])) [
      | eq ↦ s.1
      | lt ↦ (s.0, Clear-remove c key mem s.1)
      | gt ↦ (s.0, Clear-remove c key mem s.1)
    ]

pub Clear-insert :
    (c : ℕ) (key : MemoryRange) (n : Mapping) (mem : MemoryMap)
    → (key.end ≤ c) ⊎ (c ≤ key.start)
    → Clear c mem
    → Clear c (insert key n mem)
unfolding insert
Clear-insert c key n [] h s = (h, tt)
Clear-insert c key n ((k, m) ∷ mem) h s =
    elim (cmp key k)
      as (λ o. Clear c (elim o [
        | lt ↦ (key, n) ∷ (k, m) ∷ mem
        | eq ↦ (k, n) ∷ mem
        | gt ↦ (k, m) ∷ insert key n mem
      ])) [ lt ↦ (h, s) | eq ↦ s | gt ↦ (s.0, Clear-insert c key n mem h s.1) ]
