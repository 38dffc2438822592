-- ===== src/AddressSpace/Joined.antt =====
-- session/address_space.rs: two mappings that coalesce say the same of every address from the second
-- on.
use rd.Prelude.{
  ℕ, ◌+◌, ◌-◌, ◌≤◌, ◌<◌, ◌^◌, ◌≡◌, true, Option, none, some, arith, refl, ap, sym, ◌≢◌, ◌∙◌,
}
use rd.Prelude.Digits.{eq_of_bit_xor}
use rd.RemotePtr.{ptr_sub_lem}
use rd.MemoryRange.{MemoryRange, size}
use rd.AddressSpace.KernelMapping.{KernelMapping, is_real_device}
use rd.AddressSpace.Parts.{IsMapping}
use rd.AddressSpace.MemoryMap.{Mapping}
use rd.AddressSpace.View.{IsEntry, page_at, attributes, local_at}
use rd.AddressSpace.Adjacent.{
  HandleHeap, respect_heap, is_adjacent_mapping, checked_flags, is_coalescable, assert_coalesceable,
  same_emu_file, local_follows,
}

pub record IsAdjacent (l r : KernelMapping) : Type 0 where
  pub meet : l.mr.end ≡ r.mr.start
  pub flags : l.flags ≡ r.flags
  pub prot : l.prot ≡ r.prot
  pub device : l.device ≡ r.device
  pub inode : l.inode ≡ r.inode
  pub place : is_real_device l ≡ true → l.offset + (l.mr.end - l.mr.start) ≡ r.offset

size_lem : (r : MemoryRange) → r.start ≤ r.end → r.end < 2 ^ 64 → size r ≡ r.end - r.start
unfolding size
size_lem r h b = ptr_sub_lem r.end r.start h b

module _ (l r : KernelMapping) (heap : HandleHeap) (v : IsMapping l) where
  adjacent-ne-none : is_adjacent_mapping l r heap none ≢ none
  unfolding is_adjacent_mapping
  adjacent-ne-none h = ground (arith, size_lem l.mr, v.order, v.bound, v.fits)

  IsAdjacent-true : is_adjacent_mapping l r heap none ≡ some true → IsAdjacent l r
  unfolding is_adjacent_mapping checked_flags
  IsAdjacent-true h =
      ground (arith, eq_of_bit_xor l.flags r.flags, size_lem l.mr, v.order, v.bound, v.fits)

-- Nothing is between the two mappings, and they agree from the second on.
pub record Joined (l r : Mapping) : Type 0 where
  pub meet : l.map.mr.end ≡ r.map.mr.start
  pub agree : (q : ℕ) → r.map.mr.start ≤ q → page_at l q ≡ page_at r q

module _ (j k : MemoryRange) (l r : Mapping) (el : IsEntry j l) (er : IsEntry k r) where
  pub coalescable-ne-none : is_coalescable l r ≢ none
  unfolding is_coalescable
  coalescable-ne-none h = ground (
    arith,
    adjacent-ne-none l.map r.map respect_heap el.map_lem,
    adjacent-ne-none l.recorded_map r.recorded_map respect_heap el.recorded_lem,
  )

  both-IsAdjacent :
      is_coalescable l r ≡ some true
      → IsAdjacent l.map r.map × IsAdjacent l.recorded_map r.recorded_map × (l.flags ≡ r.flags)
  unfolding is_coalescable
  both-IsAdjacent h = ground (
    arith,
    IsAdjacent-true l.map r.map respect_heap el.map_lem,
    IsAdjacent-true l.recorded_map r.recorded_map respect_heap el.recorded_lem,
  )

  emu_files : (a b : Option ℕ) → same_emu_file a b ≡ true → a ≡ b
  unfolding same_emu_file
  emu_files none none h = refl
  emu_files (some a) (some b) h = ground arith
  emu_files none (some b) h = absurd (cc)
  emu_files (some a) none h = absurd (cc)

  locals :
      (a b : Option ℕ) (bytes n : ℕ)
      → local_follows a bytes b ≡ true
      → local_at a (bytes + n) ≡ local_at b n
  unfolding local_follows local_at
  locals none none bytes n h = refl
  locals (some a) (some b) bytes n h = ground arith
  locals none (some b) bytes n h = absurd (cc)
  locals (some a) none bytes n h = absurd (cc)

  attributes_agree :
      (x y : KernelMapping) (q : ℕ)
      → IsAdjacent x y
      → x.mr.start ≤ x.mr.end
      → y.mr.start ≤ q
      → attributes x q ≡ attributes y q
  unfolding is_real_device
  attributes_agree x y q a h g = ground (arith, a.meet, a.flags, a.prot, a.device, a.inode, a.place)

  pub joined : is_coalescable l r ≡ some true → assert_coalesceable l r ≡ true → Joined l r
  unfolding page_at assert_coalesceable
  joined h a =
      let (map, recorded, flags) = both-IsAdjacent h in
      let range_l : l.recorded_map.mr ≡ l.map.mr = el.recorded_range in
      let range_r : r.recorded_map.mr ≡ r.map.mr = er.recorded_range in
      let order = el.map_lem.order in
      let bound = el.map_lem.bound in
      record {
        meet = map.meet;
        agree = λ q i.
            let shift : size l.map.mr + (q - r.map.mr.start) ≡ q - l.map.mr.start =
              omega (arith, size_lem l.map.mr (omega arith) bound, map.meet) in
            let place : local_at l.local_addr (q - l.map.mr.start)
                ≡ local_at r.local_addr (q - r.map.mr.start) =
              ap (λ (t : ℕ). local_at l.local_addr t) (sym shift)
              ∙ locals l.local_addr r.local_addr (size l.map.mr) (q - r.map.mr.start)
                  (ground arith) in
            let main : attributes l.map q ≡ attributes r.map q =
              attributes_agree l.map r.map q map (omega arith) i in
            let other : attributes l.recorded_map q ≡ attributes r.recorded_map q =
              attributes_agree l.recorded_map r.recorded_map q recorded (ground arith)
                (ground arith) in
            let emu : l.emu_file ≡ r.emu_file = emu_files l.emu_file r.emu_file (ground arith) in
            λ z. record {
              map = main z;
              recorded_map = other z;
              emu_file = emu z;
              local_addr = place z;
              flags = flags z;
            };
      }
