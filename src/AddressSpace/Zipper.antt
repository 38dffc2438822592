-- ===== src/AddressSpace/Zipper.antt =====
-- session/address_space.rs: a map in order, seen from one of its entries: what stands before it,
-- last entry first, and what follows.
use rd.Prelude.{
  ℕ, ◌≤◌, ◌<◌, ◌≡◌, true, some, [], ◌∷◌, ◌++◌, arith, refl, ap, inl, inr, Bool-cases, gt, ◌∙◌,
}
use rd.MemoryRange.{MemoryRange, cmp, intersects}
use rd.AddressSpace.MemoryMap.{Mapping, MemoryMap, get, remove, insert, range_from}
use rd.AddressSpace.View.{IsEntry, Sorted, find_entry, inside}
use rd.AddressSpace.Piece.{page}
use rd.AddressSpace.Coalesce.{backward, keys_between}

abbrev pub onto : MemoryMap → MemoryMap → MemoryMap
onto [] mem = mem
onto (e ∷ back) mem = onto back (e ∷ mem)

-- All entries end at `c` or before.
abbrev pub Before : ℕ → MemoryMap → Type 0
Before c [] = Unit
Before c ((k, m) ∷ back) = IsEntry k m × (k.start < k.end) × (k.end ≤ c) × Before c back

pub Before-le : (c d : ℕ) (back : MemoryMap) → c ≤ d → Before c back → Before d back
Before-le c d [] h s = tt
Before-le c d ((k, m) ∷ back) h s = (s.0, s.1, omega arith, Before-le c d back h s.3)

pub unzip :
    (b : ℕ) (back mem : MemoryMap)
    → Sorted b (onto back mem)
    → (c : ℕ) × Sorted c mem × Before c back × (b ≤ c)
unzip b [] mem s = (b, s, tt, omega arith)
unzip b ((k, m) ∷ back) mem s =
    let (c, it, before, h) = unzip b back ((k, m) ∷ mem) s in
    let order : k.start < k.end = it.2 in
    let low : c ≤ k.start = it.1 in
    (
      k.end,
      it.3,
      (it.0, order, omega arith, Before-le c k.end back (omega arith) before),
      omega arith,
    )

pub rezip :
    (b : ℕ) (back mem mem' : MemoryMap)
    → ((c : ℕ) → Sorted c mem → Sorted c mem')
    → Sorted b (onto back mem)
    → Sorted b (onto back mem')
rezip b [] mem mem' f s = f b s
rezip b ((k, m) ∷ back) mem mem' f s =
    rezip b back ((k, m) ∷ mem) ((k, m) ∷ mem') (λ c t. (t.0, t.1, t.2, f k.end t.3)) s

pub page-onto :
    (back mem mem' : MemoryMap) (q : ℕ)
    → page mem q ≡ page mem' q
    → page (onto back mem) q ≡ page (onto back mem') q
unfolding find_entry
page-onto [] mem mem' q h = h
page-onto ((k, m) ∷ back) mem mem' q h =
    page-onto back ((k, m) ∷ mem) ((k, m) ∷ mem') q (ground arith)

-- The entry that a lookup finds.
pub located :
    (back mem : MemoryMap) (q : ℕ) (m : Mapping)
    → find_entry mem q ≡ some m
    → (back' : MemoryMap) × (k : MemoryRange) × (post : MemoryMap) × (onto back mem
        ≡ onto back' ((k, m) ∷ post))
      × (inside k q ≡ true)
unfolding find_entry
located back [] q m h = absurd (cc)
located back ((k, n) ∷ mem) q m h = elim (Bool-cases (inside k q)) [
  | inl here ↦
      (back, k, mem, ap (λ (x : Mapping). onto back ((k, x) ∷ mem)) (ground (arith, here)), here)
  | inr later ↦ located ((k, n) ∷ back) mem q m (ground (arith, later))
]

cmp_past : (key k : MemoryRange) → k.start < k.end → k.end ≤ key.start → cmp key k ≡ gt
unfolding cmp intersects
cmp_past key k h l = ground arith

module _ (key : MemoryRange) where
  pub backward-onto :
      (c : ℕ) (seen back mem : MemoryMap)
      → Before c back
      → c ≤ key.start
      → backward key seen (onto back mem) ≡ backward key (back ++ seen) mem
  unfolding backward
  backward-onto c seen [] mem s h = refl
  backward-onto c seen ((k, m) ∷ back) mem s h =
      backward-onto c seen back ((k, m) ∷ mem) s.3 h
      ∙ rw (cmp_past key k s.1 (omega (arith, s.2)), backward) refl

  pub range_from-onto :
      (c : ℕ) (back mem : MemoryMap)
      → Before c back
      → c ≤ key.start
      → range_from key (onto back mem) ≡ range_from key mem
  unfolding range_from
  range_from-onto c [] mem s h = refl
  range_from-onto c ((k, m) ∷ back) mem s h =
      range_from-onto c back ((k, m) ∷ mem) s.3 h
      ∙ rw (cmp_past key k s.1 (omega (arith, s.2)), range_from) refl

  pub keys_between-onto :
      (last : MemoryRange) (c : ℕ) (back mem : MemoryMap)
      → Before c back
      → c ≤ key.start
      → keys_between key last (onto back mem) ≡ keys_between key last mem
  unfolding keys_between
  keys_between-onto last c [] mem s h = refl
  keys_between-onto last c ((k, m) ∷ back) mem s h =
      keys_between-onto last c back ((k, m) ∷ mem) s.3 h
      ∙ rw (cmp_past key k s.1 (omega (arith, s.2)), keys_between) refl

  pub remove-onto :
      (c : ℕ) (back mem : MemoryMap)
      → Before c back
      → c ≤ key.start
      → remove key (onto back mem) ≡ onto back (remove key mem)
  unfolding remove
  remove-onto c [] mem s h = refl
  remove-onto c ((k, m) ∷ back) mem s h =
      remove-onto c back ((k, m) ∷ mem) s.3 h
      ∙ ap (onto back) (rw (cmp_past key k s.1 (omega (arith, s.2)), remove) refl)

  pub get-onto :
      (c : ℕ) (back mem : MemoryMap)
      → Before c back
      → c ≤ key.start
      → get key (onto back mem) ≡ get key mem
  unfolding get
  get-onto c [] mem s h = refl
  get-onto c ((k, m) ∷ back) mem s h =
      get-onto c back ((k, m) ∷ mem) s.3 h ∙ rw (cmp_past key k s.1 (omega (arith, s.2)), get) refl

  pub insert-onto :
      (n : Mapping) (c : ℕ) (back mem : MemoryMap)
      → Before c back
      → c ≤ key.start
      → insert key n (onto back mem) ≡ onto back (insert key n mem)
  unfolding insert
  insert-onto n c [] mem s h = refl
  insert-onto n c ((k, m) ∷ back) mem s h =
      insert-onto n c back ((k, m) ∷ mem) s.3 h
      ∙ ap (onto back) (rw (cmp_past key k s.1 (omega (arith, s.2)), insert) refl)
