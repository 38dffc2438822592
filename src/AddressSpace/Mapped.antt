-- ===== src/AddressSpace/Mapped.antt =====
-- session/address_space.rs: what `map` makes of each address.
use rd.Prelude.{
  ℕ, ◌+◌, ◌*◌, ◌/◌, ◌≤◌, ◌<◌, ◌^◌, ◌≡◌, true, Option, none, some, List, [], ◌∷◌, ltb, if◌then◌else◌,
  bit_and, arith, refl, ◌⊎◌, inl, inr, Bool-cases, Option-cases, ap, ◌∙◌, sym, max, subst,
}
use rd.Prelude.Digits.{bit_and-absorb}
use rd.RemotePtr.{ptr_add_lem}
use rd.Util.{IsPage, ceil_page_size_lem}
use rd.MemoryRange.{MemoryRange, new_range}
use rd.AddressSpace.KernelMapping.{KernelMapping, map_flags_mask, is_vdso, is_real_device}
use rd.AddressSpace.Parts.{IsMapping, new_with_opts_lem}
use rd.AddressSpace.MemoryMap.{Mapping, MemoryMap, insert, new_mapping}
use rd.AddressSpace.View.{IsEntry, Sorted, Apart, find_entry, find_entry-before, inside, page_at}
use rd.AddressSpace.Insert.{find_entry-insert, insert-Sorted}
use rd.AddressSpace.Space.{Space, unmap_internal}
use rd.AddressSpace.Piece.{page, range}
use rd.AddressSpace.Unmap.{NoGap, unmap_internal-frees}
use rd.AddressSpace.Chain.{Clash}
use rd.AddressSpace.Coalesce.{map_and_coalesce}
use rd.AddressSpace.Around.{coalesce_around-Same}
use rd.AddressSpace.DontFork.{Distinct, remove_range-add_range}
use rd.AddressSpace.Map.{map, recorded_or}

-- A range without a mapped address is apart from all entries.
pub Apart-of_none :
    (b : ℕ) (r : MemoryRange) (mem : MemoryMap)
    → Sorted b mem
    → r.start < r.end
    → ((q : ℕ) → inside r q ≡ true → find_entry mem q ≡ none)
    → Apart r mem
unfolding find_entry
Apart-of_none b r [] s h f = tt
Apart-of_none b r ((k, m) ∷ mem) s h f = (
  elim (Bool-cases (ltb r.start k.end)) [
    | inr past ↦ inl (ground arith)
    | inl before ↦ elim (Bool-cases (ltb k.start r.end)) [
      | inr beyond ↦ inr (ground arith)
      | inl common ↦ absurd (ground (arith, f (max k.start r.start)))
    ]
  ],
  Apart-of_none k.end r mem s.3 h (λ q i. elim (Bool-cases (inside k q)) [
    | inl here ↦ find_entry-before k.end q mem s.3 (absurd (ground (arith, f q)))
    | inr away ↦ ground (arith, f q)
  ]),
)

-- The map with a new mapping in a range, and all else as before.
pub record Holds (b : ℕ) (r : MemoryRange) (m : Mapping) (old mem : MemoryMap) : Type 0 where
  pub order : Sorted b mem
  pub view : (q : ℕ) → page mem q ≡ (if inside r q then some (page_at m q) else page old q)

vacant : (mem : MemoryMap) (q : ℕ) → page mem q ≡ none → find_entry mem q ≡ none
vacant mem q h = elim (Option-cases (find_entry mem q)) [
  | inl e ↦ e
  | inr (m, e) ↦ absurd (ground (arith, e))
]

-- A map that says the same, in which two neighbours that coalesce fail the assertion.
abbrev pub ClashIn : ℕ → MemoryRange → Mapping → MemoryMap → Type 0
ClashIn b r m old = (mem : MemoryMap) × Holds b r m old mem × Clash mem

pub map_and_coalesce-Holds :
    (b : ℕ) (s : Space) (km recorded : KernelMapping) (emu_file stat loc : Option ℕ)
    → Sorted b s.mem
    → b ≤ km.mr.start
    → Apart km.mr s.mem
    → IsEntry km.mr (new_mapping km recorded emu_file stat loc none)
    → ((s' : Space) × (map_and_coalesce km recorded emu_file stat loc none s ≡ some s')
        × Holds b km.mr (new_mapping km recorded emu_file stat loc none) s.mem s'.mem)
      ⊎ ClashIn b km.mr (new_mapping km recorded emu_file stat loc none) s.mem
unfolding map_and_coalesce new_mapping
map_and_coalesce-Holds b s km recorded emu_file stat loc o low apart e =
    let m = new_mapping km recorded emu_file stat loc none in
    let keyed = e.map_lem.order in
    let s1 : Space = record s { mem = insert km.mr m s.mem } in
    let put : Holds b km.mr m s.mem s1.mem = record {
      order = insert-Sorted km.mr m keyed b s.mem o apart e low;
      view = λ q. ground (arith, find_entry-insert km.mr m keyed b s.mem q o apart);
    } in
    let found : find_entry s1.mem km.mr.start ≡ some m =
      ground (arith, find_entry-insert km.mr m keyed b s.mem km.mr.start o apart) in
    elim (coalesce_around-Same b s1 km.mr m put.order found refl) [
      | inr clash ↦ inr (s1.mem, put, clash)
      | inl (s2, did, order, view) ↦ inl (
        record s2 { watchpoint_updates = km.mr ∷ s2.watchpoint_updates },
        rw did refl,
        record { order = order; view = λ q. view q ∙ put.view q },
      )
    ]

-- `unmap_internal` of whole pages.
pub unmap_pages :
    (b addr bytes : ℕ) (s : Space)
    → Sorted b s.mem
    → IsPage addr
    → IsPage bytes
    → addr + bytes + 8192 < 2 ^ 64
    → NoGap addr (addr + bytes) s.mem
    → (s' : Space) × (unmap_internal addr bytes s ≡ some s')
      × Sorted b s'.mem
      × ((q : ℕ)
          → page s'.mem q ≡ (if inside (range addr (addr + bytes)) q then none else page s.mem q))
unmap_pages b addr bytes s o p q big gap =
    let low : addr ≡ addr / 4096 * 4096 = omega arith in
    let high : addr + bytes ≡ (addr + bytes + 4095) / 4096 * 4096 = omega arith in
    let gap' : NoGap (addr / 4096 * 4096) ((addr + bytes + 4095) / 4096 * 4096) s.mem =
      subst (λ (t : ℕ). NoGap t ((addr + bytes + 4095) / 4096 * 4096) s.mem) low
        (subst (λ (t : ℕ). NoGap addr t s.mem) high gap) in
    let (s', did, order, view) = unmap_internal-frees b addr bytes s o big gap' in
    (s', did, order, λ x. ground (arith, view x, low, high))

-- The arguments of `map` that do not place the mapping.
module _ (prot flags offset_bytes : ℕ) (fsname : List ℕ) (device inode : ℕ)
    (stat emu_file loc : Option ℕ) (record_map : Option KernelMapping) (addr num_bytes : ℕ) where
  -- The number of bytes, rounded up to whole pages.
  abbrev pub mapped_bytes : ℕ
  mapped_bytes = (num_bytes + 4095) / 4096 * 4096

  abbrev pub made_km : KernelMapping
  made_km = record {
    mr = range addr (addr + mapped_bytes);
    fsname = fsname;
    device = device;
    inode = inode;
    prot = prot;
    flags = bit_and flags map_flags_mask;
    offset = offset_bytes;
  }

  abbrev pub made_mapping : Mapping
  made_mapping = record {
    map = made_km;
    recorded_map = recorded_or record_map made_km;
    emu_file = emu_file;
    mapped_file_stat = stat;
    local_addr = loc;
    monitored_shared_memory = none;
    flags = 0;
  }

  module _ (b : ℕ) (s : Space) (o : Sorted b s.mem) (single : Distinct s.dont_fork) (low : b ≤ addr)
      (some_bytes : 0 < num_bytes) (big : addr + num_bytes + 16384 < 2 ^ 64)
      (page_addr : IsPage addr) (page_offset : IsPage offset_bytes)
      (fits : offset_bytes + num_bytes + 8192 < 2 ^ 64)
      (recorded : IsMapping (recorded_or record_map made_km))
      (recorded_range : (recorded_or record_map made_km).mr ≡ made_km.mr)
      (gap : NoGap addr (addr + mapped_bytes) s.mem) where
    made-IsEntry : IsEntry made_km.mr made_mapping
    unfolding is_real_device
    made-IsEntry = record {
      keyed = refl;
      map_lem = record {
        order = omega arith;
        start_page = page_addr;
        bound = omega arith;
        end_page = omega arith;
        masked = bit_and-absorb flags map_flags_mask;
        offset_page = page_offset;
        fits = ground arith;
      };
      recorded_range = recorded_range;
      recorded_lem = recorded;
      unmonitored = refl;
    }

    -- `map` from the point on where the region is free.
    put_there :
        (s1 : Space)
        → Sorted b s1.mem
        → ((q : ℕ) → page s1.mem q ≡ (if inside made_km.mr q then none else page s.mem q))
        → ((s' : Space) × (map_and_coalesce made_km
                (recorded_or record_map made_km)
                emu_file
                stat
                loc
                none
                s1
              ≡ some s')
            × Holds b made_km.mr made_mapping s.mem s'.mem)
          ⊎ ClashIn b made_km.mr made_mapping s.mem
    unfolding new_mapping
    put_there s1 order view =
        let free =
          λ (q : ℕ) (i : inside made_km.mr q ≡ true). vacant s1.mem q (view q ∙ rw i refl) in
        let apart : Apart made_km.mr s1.mem =
          Apart-of_none b made_km.mr s1.mem order (omega arith) free in
        elim (map_and_coalesce-Holds b s1 made_km (recorded_or record_map made_km) emu_file stat loc
          order low apart made-IsEntry) [
            | inl (s', did, h) ↦
                inl (
                  s',
                  did,
                  record { order = h.order; view = λ q. ground (arith, h.view q, view q) },
                )
            | inr (mem, h, clash) ↦ inr (
              mem,
              record { order = h.order; view = λ q. ground (arith, h.view q, view q) },
              clash,
            )
          ]

    -- Asked for at least one byte, without monitored memory, for an address and an offset in a
    -- file at page boundaries, with four pages of room after the region and two after the offset
    -- below 2 ^ 64, and a recorded mapping (if any) of the same range, of whole pages and tracked
    -- flags; where the entries of the map are in order and apart from an address on that is not
    -- after the region, all mappings are whole pages and none is monitored, the DONTFORK set has
    -- no double, and no mapping in the region with a local copy begins right after a gap. Then
    -- either `map` returns the mapping it was asked for, and every address of its whole pages has
    -- what was asked for (protection, flags, device, inode and place in the file, those of the
    -- recorded mapping, the emulated file, the local copy, and no mapping flag), every other
    -- address has what it had, and the entries are in order; or a map that says exactly this has
    -- two neighbours that coalesce and fail the assertions of assert_coalesceable.
    pub map-Holds :
        ((s' : Space) × (map addr num_bytes prot flags offset_bytes fsname device inode stat
              record_map emu_file loc none s
            ≡ some (made_km, s'))
          × Holds b made_km.mr made_mapping s.mem s'.mem)
        ⊎ ClashIn b made_km.mr made_mapping s.mem
    unfolding map new_range
    map-Holds =
        let bytes = mapped_bytes in
        let rounded = ceil_page_size_lem num_bytes (omega arith) in
        let no_wrap = ptr_add_lem addr bytes (omega arith) in
        let made =
          new_with_opts_lem addr (addr + bytes) fsname device inode prot
            (bit_and flags map_flags_mask) offset_bytes (omega arith) (omega arith) page_addr
            (omega arith) page_offset in
        let (rest, more, removed, added, in_rest, in_more) =
          remove_range-add_range s.dont_fork (range addr (addr + bytes)) single in
        let (s1, freed, order, view) =
          unmap_pages b addr bytes (record s { dont_fork = rest }) o page_addr (omega arith)
            (omega arith) gap in
        let s2 : Space =
          if is_vdso (recorded_or record_map made_km)
          then record s1 { vdso_start_addr = addr }
          else s1 in
        let same : s2.mem ≡ s1.mem = ground arith in
        elim (put_there s2 (subst (Sorted b) (sym same) order)
          (λ q. ap (λ (mem : MemoryMap). page mem q) same ∙ view q)) [
            | inr clash ↦ inr clash
            | inl (s', did, h) ↦ inl (
              s',
              ground (
                arith,
                rounded,
                no_wrap,
                made,
                removed,
                freed,
                did,
                bit_and-absorb flags map_flags_mask,
              ),
              h,
            )
          ]
