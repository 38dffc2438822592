-- ===== src/AddressSpace/First.antt =====
-- session/address_space.rs: the first mapping from an address on, and the lookup of one address.
use rd.Prelude.{
  ℕ, ◌+◌, ◌≤◌, ◌<◌, ◌^◌, ◌≡◌, none, some, [], ◌∷◌, if◌then◌else◌, arith, ltb, leb, refl, lt, eq, gt,
  ◌⊎◌, inl, inr, Bool-cases, ltb→lt, sym, subst,
}
use rd.RemotePtr.{ptr_add}
use rd.MemoryRange.{MemoryRange, cmp, new_range, intersects}
use rd.AddressSpace.MemoryMap.{
  Mapping, MemoryMap, get, remove, range_from, maps_from_range, mapping_of,
}
use rd.AddressSpace.Clear.{Clear, Clear-after}
use rd.AddressSpace.View.{
  inside, Apart, Apart-after, Sorted-le, IsEntry, Sorted, find_entry, find_entry-before,
}

-- No entry holds `p` or an address after it.
abbrev pub NoneFrom : ℕ → MemoryMap → Type 0
NoneFrom p mem = (maps_from_range p mem ≡ []) × ((q : ℕ) → p ≤ q → find_entry mem q ≡ none)

-- The first entry that ends after `p`.
pub record First (b p : ℕ) (mem : MemoryMap) (k : MemoryRange) (m : Mapping) : Type 0 where
  pub rest : MemoryMap
  pub found : maps_from_range p mem ≡ (k, m) ∷ rest
  pub got : get k mem ≡ some m
  pub entry : IsEntry k m
  pub low : b ≤ k.start
  pub order : k.start < k.end
  pub after : p < k.end
  pub gap : (q : ℕ) → p ≤ q → q < k.start → find_entry mem q ≡ none
  pub holds : (q : ℕ) → k.start ≤ q → q < k.end → find_entry mem q ≡ some m
  pub removed :
      (q : ℕ) → find_entry (remove k mem) q ≡ (if inside k q then none else find_entry mem q)
  pub removed_order : Sorted b (remove k mem)
  pub clear : Clear k.end mem
  pub removed_apart : Apart k (remove k mem)

cmp_self : (k : MemoryRange) → cmp k k ≡ eq
unfolding cmp intersects
cmp_self k = ground arith

cmp_after : (k j : MemoryRange) → k.start < k.end → k.end ≤ j.start → cmp j k ≡ gt
unfolding cmp intersects
cmp_after k j h l = ground arith

cmp_point_after :
    (p : ℕ) (k : MemoryRange)
    → p + 1 < 2 ^ 64
    → k.start < k.end
    → k.end ≤ p
    → cmp (new_range p 1) k ≡ gt
unfolding cmp intersects new_range ptr_add
cmp_point_after p k b h l = ground arith

cmp_point_before :
    (p : ℕ) (k : MemoryRange)
    → p + 1 < 2 ^ 64
    → k.start < k.end
    → p < k.end
    → (cmp (new_range p 1) k ≡ lt) ⊎ (cmp (new_range p 1) k ≡ eq)
unfolding cmp intersects new_range ptr_add
cmp_point_before p k b h l = ground arith

at_head :
    (b p : ℕ) (k : MemoryRange) (m : Mapping) (mem : MemoryMap)
    → Sorted b ((k, m) ∷ mem)
    → p + 1 < 2 ^ 64
    → p < k.end
    → First b p ((k, m) ∷ mem) k m
unfolding maps_from_range get find_entry remove
at_head b p k m mem s h l = record {
  rest = mem;
  found = ground (arith, cmp_point_before p k h s.2 l);
  got = ground (arith, cmp_self k);
  entry = s.0;
  low = s.1;
  order = s.2;
  after = l;
  gap = λ q g i. ground (arith, find_entry-before k.end q mem s.3);
  holds = λ q g i. ground arith;
  removed = λ q. ground (arith, cmp_self k, find_entry-before k.end q mem s.3);
  removed_order = rw (cmp_self k, remove) (Sorted-le b k.end mem (omega (arith, s.1, s.2)) s.3);
  clear = (inl (omega arith), Clear-after k.end k.end mem s.3 (omega arith));
  removed_apart = rw (cmp_self k, remove) (Apart-after k k.end mem s.3 (omega arith));
}

in_tail :
    (b p : ℕ) (k : MemoryRange) (m : Mapping) (mem : MemoryMap) (k' : MemoryRange) (m' : Mapping)
    → Sorted b ((k, m) ∷ mem)
    → p + 1 < 2 ^ 64
    → k.end ≤ p
    → First k.end p mem k' m'
    → First b p ((k, m) ∷ mem) k' m'
unfolding maps_from_range get find_entry remove
in_tail b p k m mem k' m' s h l f = record {
  rest = f.rest;
  found = ground (arith, cmp_point_after p k h s.2 l, f.found);
  got = ground (arith, cmp_after k k' s.2 f.low, f.got);
  entry = f.entry;
  low = omega (arith, s.1, s.2, f.low);
  order = f.order;
  after = f.after;
  gap = λ q g i. ground (arith, f.gap q g i);
  holds = λ q g i. ground (arith, f.holds q g i, f.low);
  removed = λ q. ground (arith, cmp_after k k' s.2 f.low, f.removed q, f.low);
  removed_order = rw (cmp_after k k' s.2 f.low, remove) (s.0, s.1, s.2, f.removed_order);
  clear = (inl (omega (arith, f.low, f.order)), f.clear);
  removed_apart = rw (cmp_after k k' s.2 f.low, remove) (inl f.low, f.removed_apart);
}

pub first :
    (b p : ℕ) (mem : MemoryMap)
    → Sorted b mem
    → p + 1 < 2 ^ 64
    → NoneFrom p mem ⊎ ((k : MemoryRange) × (m : Mapping) × First b p mem k m)
unfolding maps_from_range find_entry
first b p [] s h = inl (refl, λ q l. refl)
first b p ((k, m) ∷ mem) s h = elim (Bool-cases (ltb p k.end)) [
  | inl before ↦ inr (k, m, at_head b p k m mem s h (ltb→lt p k.end before))
  | inr past ↦
      let l : k.end ≤ p = ground arith in
      elim (first k.end p mem s.3 h) [
        | inl (e, f) ↦
            inl (ground (arith, cmp_point_after p k h s.2 l, e), λ q g. ground (arith, f q g))
        | inr (k', m', f) ↦ inr (k', m', in_tail b p k m mem k' m' s h l f)
      ]
]

-- In a map in order the lookup finds the entry whose key holds the address.
pub mapping_of-find_entry :
    (b : ℕ) (mem : MemoryMap) (p : ℕ)
    → Sorted b mem
    → p + 1 < 2 ^ 64
    → mapping_of mem p ≡ find_entry mem p
unfolding mapping_of
mapping_of-find_entry b mem p s h = elim (first b p mem s h) [
  | inl (e, f) ↦ rw e (sym (f p (omega arith)))
  | inr (k, m, f) ↦ rw (f.found) (elim (Bool-cases (leb k.start p)) [
    | inl inside ↦ ground (arith, f.got, f.holds p, f.entry.keyed, f.after)
    | inr before ↦ ground (arith, f.gap p, f.entry.keyed)
  ])
]

Clear-range_from :
    (c : ℕ) (key : MemoryRange) (mem : MemoryMap) → Clear c mem → Clear c (range_from key mem)
unfolding range_from
Clear-range_from c key [] s = tt
Clear-range_from c key ((k, m) ∷ mem) s =
    elim (cmp key k) as (λ o. Clear c (elim o [ gt ↦ range_from key mem | _ ↦ (k, m) ∷ mem ])) [
      | gt ↦ Clear-range_from c key mem s.1
      | lt ↦ s
      | eq ↦ s
    ]

-- Of the first entry that ends after `p`.
pub Clear-First :
    (b c p : ℕ) (mem : MemoryMap) (k : MemoryRange) (m : Mapping)
    → First b p mem k m
    → Clear c mem
    → (k.end ≤ c) ⊎ (c ≤ k.start)
unfolding maps_from_range
Clear-First b c p mem k m f s =
    (subst (Clear c) f.found (Clear-range_from c (new_range p 1) mem s)).0
