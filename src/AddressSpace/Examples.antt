-- ===== src/AddressSpace/Examples.antt =====
-- session/address_space.rs: an address space with two mappings, and one with a local copy.
use rd.Prelude.{
  ℕ, ◌+◌, ◌*◌, ◌/◌, ◌<◌, ◌^◌, ◌≡◌, true, false, Option, none, some, List, [], ◌∷◌, if◌then◌else◌,
  arith, refl, ◌⊎◌, inl,
}
use rd.MemoryRange.{MemoryRange, cmp, intersects, new_range}
use rd.RemotePtr.{ptr_add}
use rd.AddressSpace.KernelMapping.{KernelMapping, is_real_device}
use rd.AddressSpace.Parts.{IsMapping}
use rd.AddressSpace.MemoryMap.{Mapping, MemoryMap, get, remove, range_from, maps_from_range}
use rd.AddressSpace.View.{IsEntry, Sorted, inside, find_entry, page_at, local_at}
use rd.AddressSpace.First.{First}
use rd.AddressSpace.Space.{Space, unmap_internal}
use rd.AddressSpace.Piece.{page, range}
use rd.AddressSpace.Unmap.{NoGap, unmap_internal-frees}
use rd.AddressSpace.Gap.{unmap_internal-gap}
use rd.AddressSpace.Chain.{Clash}
use rd.AddressSpace.Coalesce.{coalesce_around}
use rd.AddressSpace.Coalesced.{Same}
use rd.AddressSpace.Around.{coalesce_around-Same}
use rd.AddressSpace.DontFork.{has, range_eq, remove_range, add_range, remove_range-add_range}
use rd.AddressSpace.Map.{map, recorded_or}
use rd.AddressSpace.Mapped.{Holds, ClashIn, made_km, made_mapping, map-Holds}
use rd.AddressSpace.Protect.{protect, grows_down}
use rd.AddressSpace.Protected.{Protected, ClashProtected, protect-Protected}

-- Private memory without a file.
abbrev anonymous : ℕ → ℕ → KernelMapping
anonymous start end = record {
  mr = range start end;
  fsname = [];
  device = 0;
  inode = 0;
  prot = 3;
  flags = 0x22;
  offset = 0;
}

abbrev mapping_at : ℕ → ℕ → Option ℕ → Mapping
mapping_at start end loc = record {
  map = anonymous start end;
  recorded_map = anonymous start end;
  emu_file = none;
  mapped_file_stat = none;
  local_addr = loc;
  monitored_shared_memory = none;
  flags = 0;
}

anonymous-IsMapping :
    (start end : ℕ)
    → start < end
    → end < 2 ^ 64
    → start ≡ start / 4096 * 4096
    → end ≡ end / 4096 * 4096
    → IsMapping (anonymous start end)
unfolding is_real_device
anonymous-IsMapping start end h b p q = record {
  order = h;
  start_page = omega arith;
  bound = b;
  end_page = omega arith;
  masked = refl;
  offset_page = refl;
  fits = omega arith;
}

mapping_at-IsEntry :
    (start end : ℕ) (loc : Option ℕ)
    → start < end
    → end < 2 ^ 64
    → start ≡ start / 4096 * 4096
    → end ≡ end / 4096 * 4096
    → IsEntry (range start end) (mapping_at start end loc)
mapping_at-IsEntry start end loc h b p q = record {
  keyed = refl;
  map_lem = anonymous-IsMapping start end h b p q;
  recorded_range = refl;
  recorded_lem = anonymous-IsMapping start end h b p q;
  unmonitored = refl;
}

abbrev entry_at : ℕ → ℕ → Option ℕ → MemoryRange × Mapping
entry_at start end loc = (range start end, mapping_at start end loc)

-- Two mappings side by side, and one after a gap.
abbrev three : MemoryMap
three = entry_at 4096 8192 none ∷ entry_at 8192 12288 none ∷ entry_at 16384 20480 none ∷ []

three-Sorted : Sorted 0 three
three-Sorted = (
  mapping_at-IsEntry 4096 8192 none (omega arith) (omega arith) (omega arith) (omega arith),
  omega arith,
  omega arith,
  (
    mapping_at-IsEntry 8192 12288 none (omega arith) (omega arith) (omega arith) (omega arith),
    omega arith,
    omega arith,
    (
      mapping_at-IsEntry 16384 20480 none (omega arith) (omega arith) (omega arith) (omega arith),
      omega arith,
      omega arith,
      tt,
    ),
  ),
)

abbrev space_of : MemoryMap → Space
space_of mem = record {
  mem = mem;
  monitored_mem = [];
  dont_fork = range 4096 8192 ∷ [];
  vdso_start_addr = 0;
  unmapped_local = [];
  watchpoint_updates = [];
  last_overlap = none;
}

three-found : find_entry three 8192 ≡ some (mapping_at 8192 12288 none)
unfolding find_entry
three-found = refl

one-grows_down : grows_down 1 ≡ false
unfolding grows_down
one-grows_down = refl

three-NoGap : (last end : ℕ) → NoGap last end three
unfolding find_entry page_at local_at
three-NoGap last end q h l e g is = ground arith

coalesce_around-Same_example :
    Same 0 (space_of three) (coalesce_around (range 8192 12288) (space_of three)) ⊎ Clash three
coalesce_around-Same_example =
    coalesce_around-Same 0 (space_of three) (range 8192 12288) (mapping_at 8192 12288 none)
      three-Sorted three-found refl

unmap_internal-frees_example :
    (s' : Space) × (unmap_internal 6000 4000 (space_of three) ≡ some s')
    × Sorted 0 s'.mem
    × ((q : ℕ)
        → page s'.mem q ≡ (
            if inside (range (6000 / 4096 * 4096) ((6000 + 4000 + 4095) / 4096 * 4096)) q
            then none
            else page three q))
unmap_internal-frees_example =
    unmap_internal-frees 0 6000 4000 (space_of three) three-Sorted (omega arith)
      (three-NoGap (6000 / 4096 * 4096) ((6000 + 4000 + 4095) / 4096 * 4096))

protect-Protected_example :
    ((s' : Space) × (protect 6000 12000 1 (space_of three) ≡ some s')
      × Protected 0 1 (6000 / 4096 * 4096) ((6000 + 12000 + 4095) / 4096 * 4096) three s'.mem)
    ⊎ ClashProtected 0 1 (6000 / 4096 * 4096) ((6000 + 12000 + 4095) / 4096 * 4096) three
protect-Protected_example =
    protect-Protected 0 6000 12000 1 (space_of three) three-Sorted one-grows_down (omega arith)

map-Holds_example :
    ((s' : Space) × (map 12288 4000 3 0x22 0 [] 0 0 none none none none none (space_of three)
        ≡ some (made_km 3 0x22 0 [] 0 0 none none none none 12288 4000, s'))
      × Holds 0
          (range 12288 (12288 + (4000 + 4095) / 4096 * 4096))
          (made_mapping 3 0x22 0 [] 0 0 none none none none 12288 4000)
          three
          s'.mem)
    ⊎ ClashIn 0
        (range 12288 (12288 + (4000 + 4095) / 4096 * 4096))
        (made_mapping 3 0x22 0 [] 0 0 none none none none 12288 4000)
        three
unfolding recorded_or
map-Holds_example =
    map-Holds 3 0x22 0 [] 0 0 none none none none 12288 4000 0 (space_of three) three-Sorted
      (refl, tt) (omega arith) (omega arith) (omega arith) (omega arith) (omega arith) (omega arith)
      (anonymous-IsMapping 12288 16384 (omega arith) (omega arith) (omega arith) (omega arith)) refl
      (three-NoGap 12288 16384)

remove_range-add_range_example :
    (rest : List MemoryRange) × (more : List MemoryRange) × (remove_range
        (range 4096 8192 ∷ [])
        (range 4096 16384)
      ≡ some rest)
    × (add_range (range 4096 8192 ∷ []) (range 4096 16384) ≡ some more)
    × ((t : MemoryRange)
        → has t rest
          ≡ (if range_eq t (range 4096 16384) then false else has t (range 4096 8192 ∷ [])))
    × ((t : MemoryRange)
        → has t more
          ≡ (if range_eq t (range 4096 16384) then true else has t (range 4096 8192 ∷ [])))
remove_range-add_range_example =
    remove_range-add_range (range 4096 8192 ∷ []) (range 4096 16384) (refl, tt)

-- A mapping that rd has mapped too, after a gap.
abbrev shared : MemoryMap
shared = entry_at 12288 16384 (some 65536) ∷ []

shared-First : First 0 8192 shared (range 12288 16384) (mapping_at 12288 16384 (some 65536))
unfolding find_entry maps_from_range range_from get remove cmp intersects new_range ptr_add
shared-First = record {
  rest = [];
  found = refl;
  got = refl;
  entry =
      mapping_at-IsEntry 12288 16384 (some 65536) (omega arith) (omega arith) (omega arith)
        (omega arith);
  low = omega arith;
  order = omega arith;
  after = omega arith;
  gap = λ q h l. ground arith;
  holds = λ q h l. ground arith;
  removed = λ q. ground arith;
  removed_order = tt;
  clear = (inl (omega arith), tt);
  removed_apart = tt;
}

unmap_internal-gap_example : unmap_internal 8192 8192 (space_of shared) ≡ none
unmap_internal-gap_example =
    unmap_internal-gap 0 8192 8192 65536 (space_of shared) (range 12288 16384)
      (mapping_at 12288 16384 (some 65536)) (omega arith) shared-First (omega arith) (omega arith)
      refl
