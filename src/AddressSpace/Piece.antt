-- ===== src/AddressSpace/Piece.antt =====
-- session/address_space.rs: a part of a mapping that is put back into the map.
use rd.Prelude.{
  ℕ, ◌-◌, ◌≤◌, ◌<◌, ◌≡◌, Option, some, if◌then◌else◌, arith, refl, ◌⊎◌, inl, inr, Bool-cases,
}
use rd.Util.{IsPage}
use rd.RemotePtr.{ptr_sub_lem}
use rd.MemoryRange.{MemoryRange}
use rd.AddressSpace.KernelMapping.{is_real_device}
use rd.AddressSpace.Parts.{part, subrange_lem, part-IsMapping}
use rd.AddressSpace.MemoryMap.{Mapping, MemoryMap, insert, new_mapping}
use rd.AddressSpace.View.{
  IsEntry, Sorted, Apart, inside, find_entry, page_at, page_of, Page, local_at,
}
use rd.AddressSpace.Insert.{find_entry-insert, insert-Sorted, Apart-insert}
use rd.AddressSpace.Space.{
  Space, add_underflow, add_overflow, add_to_map, local_after, monitored_subrange,
}

-- What the map of an address space says of an address.
abbrev pub page : MemoryMap → ℕ → Option Page
page mem q = page_of (find_entry mem q) q

abbrev pub range : ℕ → ℕ → MemoryRange
range a b = record { start = a; end = b }

abbrev pub piece : Mapping → ℕ → ℕ → Option ℕ → Mapping
piece m a b loc = record m {
  map = part m.map a b;
  recorded_map = part m.recorded_map a b;
  local_addr = loc;
}

module _ (k : MemoryRange) (m : Mapping) (e : IsEntry k m) where
  pub underflow_lem :
      (end : ℕ) (s : Space)
      → k.start < end
      → end ≤ k.end
      → IsPage end
      → add_underflow m m.map.mr.start end s
        ≡ some (add_to_map (piece m m.map.mr.start end m.local_addr) s)
  unfolding add_underflow new_mapping
  underflow_lem end s h l p = ground (
    arith,
    e.keyed,
    e.recorded_range,
    subrange_lem m.map e.map_lem m.map.mr.start end,
    subrange_lem m.recorded_map e.recorded_lem m.map.mr.start end,
    e.map_lem.start_page,
  )

  pub overflow_lem :
      (start : ℕ) (s : Space)
      → k.start ≤ start
      → start < k.end
      → IsPage start
      → add_overflow m start s
        ≡ some (
            add_to_map
              (piece m start m.map.mr.end (local_after m.local_addr (start - m.map.mr.start)))
              s)
  unfolding add_overflow new_mapping monitored_subrange
  overflow_lem start s h l p = ground (
    arith,
    e.keyed,
    e.recorded_range,
    e.unmonitored,
    ptr_sub_lem start m.map.mr.start,
    e.map_lem.bound,
    subrange_lem m.map e.map_lem start m.map.mr.end,
    subrange_lem m.recorded_map e.recorded_lem start m.map.mr.end,
    e.map_lem.end_page,
  )

  pub page_at-piece :
      (a b q : ℕ) (loc : Option ℕ)
      → k.start ≤ a
      → a ≤ q
      → local_at loc (q - a) ≡ local_at m.local_addr (q - m.map.mr.start)
      → page_at (piece m a b loc) q ≡ page_at m q
  unfolding page_at is_real_device
  page_at-piece a b q loc h l same = ground (arith, e.keyed, e.recorded_range)

  pub piece-IsEntry :
      (a b : ℕ) (loc : Option ℕ)
      → k.start ≤ a
      → a < b
      → b ≤ k.end
      → IsPage a
      → IsPage b
      → IsEntry (range a b) (piece m a b loc)
  piece-IsEntry a b loc h l g p q =
      let keyed : k ≡ m.map.mr = e.keyed in
      let rec_range : m.recorded_map.mr ≡ m.map.mr = e.recorded_range in
      record {
        keyed = refl;
        map_lem = part-IsMapping m.map e.map_lem a b (ground arith) l (ground arith) p q;
        recorded_range = refl;
        recorded_lem =
            part-IsMapping m.recorded_map e.recorded_lem a b (ground arith) l (ground arith) p q;
        unmonitored = e.unmonitored;
      }

-- A map after a part was put where no entry is: the order, the view and what stays apart.
pub record Put (b : ℕ) (k : MemoryRange) (m : Mapping) (a c : ℕ) (mem mem' : MemoryMap)
    : Type 0 where
  pub order : Sorted b mem'
  pub view :
      (q : ℕ) → page mem' q ≡ (if inside (range a c) q then some (page_at m q) else page mem q)
  pub apart : (r : MemoryRange) → Apart r mem → (c ≤ r.start) ⊎ (r.end ≤ a) → Apart r mem'

pub put :
    (b : ℕ) (k : MemoryRange) (m : Mapping) (e : IsEntry k m) (a c : ℕ) (loc : Option ℕ)
    (mem : MemoryMap)
    → b ≤ a
    → k.start ≤ a
    → a < c
    → c ≤ k.end
    → IsPage a
    → IsPage c
    → ((q : ℕ) → a ≤ q → local_at loc (q - a) ≡ local_at m.local_addr (q - m.map.mr.start))
    → Sorted b mem
    → Apart (range a c) mem
    → Put b k m a c mem (insert (range a c) (piece m a c loc) mem)
put b k m e a c loc mem low h l g p q same s apart =
    let it = piece-IsEntry k m e a c loc h l g p q in
    record {
      order = insert-Sorted (range a c) (piece m a c loc) l b mem s apart it low;
      view = λ x. elim (Bool-cases (inside (range a c) x)) [
        | inl yes_in ↦ ground (
          arith,
          find_entry-insert (range a c) (piece m a c loc) l b mem x s apart,
          page_at-piece k m e a c x loc h,
          same x,
        )
        | inr outside ↦
            ground (arith, find_entry-insert (range a c) (piece m a c loc) l b mem x s apart)
      ];
      apart = λ r t o. Apart-insert (range a c) (piece m a c loc) l b r mem s apart t o;
    }
