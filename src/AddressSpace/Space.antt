-- ===== src/AddressSpace/Space.antt =====
-- session/address_space.rs: the state of an address space that its mappings need, the loop over the
-- mappings of a region, and `unmap_internal`. `none` is a panic.
--
-- Two calls leave the state: munmap of rd's own copy of a mapping, which is taken to succeed, and
-- update_watchpoint_values. Both are written down, the last one first. `last_overlap` is the variable
-- of `protect` that its closure sets.
use rd.Prelude.{
  ℕ, zero, suc, ◌-◌, ◌+◌, Bool, false, not, ◌&&◌, ◌||◌, Option, none, some, List, [], ◌∷◌, ltb, leb,
  ◌==◌, if◌then◌else◌, min,
}
use rd.Prelude.Options.{◌>>=◌, ◌>>◌, assert}
use rd.RemotePtr.{ptr_add, ptr_sub}
use rd.Util.{floor_page_size, ceil_page_size}
use rd.MemoryRange.{MemoryRange, from_range, size}
use rd.AddressSpace.KernelMapping.{subrange}
use rd.AddressSpace.MemoryMap.{
  Mapping, MemoryMap, new_mapping, get, remove, insert, maps_from_range,
}

pub record Space : Type 0 where
  pub mem : MemoryMap
  pub monitored_mem : List ℕ
  pub dont_fork : List MemoryRange
  pub vdso_start_addr : ℕ
  pub unmapped_local : List (ℕ × ℕ)
  pub watchpoint_updates : List MemoryRange
  pub last_overlap : Option MemoryRange

-- `insert` and `remove` of a HashSet
unfoldable pub monitor : ℕ → List ℕ → List ℕ
monitor a [] = a ∷ []
monitor a (b ∷ bs) = if b == a then b ∷ bs else b ∷ monitor a bs

unfoldable pub unmonitor : ℕ → List ℕ → List ℕ
unmonitor a [] = []
unmonitor a (b ∷ bs) = if b == a then bs else b ∷ unmonitor a bs

unfoldable pub remove_from_map : MemoryRange → Space → Space
unfolding remove unmonitor
remove_from_map range s = record s {
  mem = remove range s.mem;
  monitored_mem = unmonitor range.start s.monitored_mem;
}

unfoldable pub add_to_map : Mapping → Space → Space
unfolding insert monitor
add_to_map m s = record s {
  mem = insert m.map.mr m s.mem;
  monitored_mem = elim (m.monitored_shared_memory) [
    | some _ ↦ monitor m.map.mr.start s.monitored_mem
    | none ↦ s.monitored_mem
  ];
}

-- `MonitoredSharedMemory::subrange` panics.
unfoldable pub monitored_subrange : Option ℕ → Option (Option ℕ)
monitored_subrange none = some none
monitored_subrange (some mm) = none

unfoldable pub local_after : Option ℕ → ℕ → Option ℕ
local_after none delta = none
local_after (some addr) delta = some (addr + delta)

-- The part of a mapping before the address `end`, and of the recorded one from `recorded_start` on.
unfoldable pub add_underflow : Mapping → ℕ → ℕ → Space → Option Space
unfolding new_mapping subrange add_to_map
add_underflow m recorded_start end s = do
  map ← subrange m.map m.map.mr.start end
  recorded_map ← subrange m.recorded_map recorded_start end
  let underflow : Mapping =
      new_mapping map recorded_map m.emu_file m.mapped_file_stat m.local_addr
        m.monitored_shared_memory
  some (add_to_map (record underflow { flags = m.flags }) s)

-- The part of a mapping from the address `start` on.
unfoldable pub add_overflow : Mapping → ℕ → Space → Option Space
unfolding new_mapping subrange add_to_map monitored_subrange local_after
add_overflow m start s = do
  let new_local : Option ℕ = local_after m.local_addr (ptr_sub start m.map.mr.start)
  new_monitored ← monitored_subrange m.monitored_shared_memory
  map ← subrange m.map start m.map.mr.end
  recorded_map ← subrange m.recorded_map start m.map.mr.end
  let overflow : Mapping =
      new_mapping map recorded_map m.emu_file m.mapped_file_stat new_local new_monitored
  some (add_to_map (record overflow { flags = m.flags }) s)

-- The local copy of what is unmapped.
unfoldable pub unmap_local : Mapping → MemoryRange → Space → Option Space
unfolding size
unmap_local m rem s = elim (m.local_addr) [
  | none ↦ some s
  | some local_addr ↦
      (let skipped : ℕ = ptr_sub rem.start m.map.mr.start in
        let bytes : ℕ = min (size rem) (size m.map.mr - skipped) in
        (assert (leb skipped (size m.map.mr))
          >> some (record s { unmapped_local = (local_addr + skipped, bytes) ∷ s.unmapped_local })))
]

-- The closure of `unmap_internal`.
unfoldable pub unmapper : Space → MemoryRange → MemoryRange → Option Space
unfolding get remove_from_map add_underflow add_overflow unmap_local
unmapper s m_key rem = do
  m ← get m_key s.mem
  let s1 : Space = remove_from_map m.map.mr s
  s2 ← if ltb m.map.mr.start rem.start then add_underflow m m.map.mr.start rem.start s1 else some s1
  s3 ← if ltb rem.end m.map.mr.end then add_overflow m rem.end s2 else some s2
  unmap_local m rem s3

-- One round of `for_each_in_range`: `rest` is the loop from an address on.
unfoldable pub visit :
    (ℕ → Space → Option Space)
    → (Space → MemoryRange → MemoryRange → Option Space)
    → Bool
    → ℕ
    → ℕ
    → ℕ
    → Space
    → Option Space
unfolding from_range maps_from_range
visit rest f contiguous region_start region_end last_f_mapped_end s = do
  rem ← from_range last_f_mapped_end region_end
  elim (maps_from_range rem.start s.mem) [
    | [] ↦ some s
    | (range, _) ∷ _ ↦
        if leb rem.end range.start
        then some s
        else if contiguous && not (ltb range.start region_start || rem.start == range.start)
        then some s
        else (f s range rem >>= λ s'. rest range.end s')
  ]

-- On fuel; `none` also when it runs out.
unfoldable pub for_each_from :
    ℕ → (Space → MemoryRange → MemoryRange → Option Space) → Bool → ℕ → ℕ → ℕ → Space → Option Space
unfolding visit
for_each_from zero f contiguous region_start region_end last s = none
for_each_from (suc fuel) f contiguous region_start region_end last s =
    let round =
      visit (for_each_from fuel f contiguous region_start region_end) f contiguous region_start
        region_end last s in
    if ltb last region_end then round else some s

-- Each round ends above the address where it starts, so the end of the region is fuel enough.
unfoldable pub for_each_in_range :
    ℕ → ℕ → (Space → MemoryRange → MemoryRange → Option Space) → Bool → Space → Option Space
unfolding for_each_from floor_page_size ceil_page_size
for_each_in_range addr num_bytes f contiguous s = do
  let region_start : ℕ = floor_page_size addr
  region_end ← ceil_page_size (ptr_add addr num_bytes)
  for_each_from (suc region_end) f contiguous region_start region_end region_start s

unfoldable pub unmap_internal : ℕ → ℕ → Space → Option Space
unfolding for_each_in_range unmapper from_range
unmap_internal addr num_bytes s = do
  s' ← for_each_in_range addr num_bytes unmapper false s
  written ← from_range addr (ptr_add addr num_bytes)
  some (record s' { watchpoint_updates = written ∷ s'.watchpoint_updates })
