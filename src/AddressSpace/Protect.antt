-- ===== src/AddressSpace/Protect.antt =====
-- session/address_space.rs: `protect`.
use rd.Prelude.{ℕ, Bool, true, ◌&&◌, Option, none, some, ltb, ◌==◌, if◌then◌else◌, min, bit_and}
use rd.Prelude.Options.{◌>>=◌}
use rd.RemotePtr.{ptr_sub}
use rd.MemoryRange.{MemoryRange}
use rd.AddressSpace.KernelMapping.{subrange, set_prot}
use rd.AddressSpace.MemoryMap.{Mapping, new_mapping, get}
use rd.AddressSpace.Space.{
  Space, remove_from_map, add_to_map, add_underflow, add_overflow, local_after, monitored_subrange,
  for_each_in_range,
}
use rd.AddressSpace.Coalesce.{coalesce_around}

abbrev pub prot_growsdown : ℕ
prot_growsdown = 0x1000000

-- PROT_READ | PROT_WRITE | PROT_EXEC
abbrev pub prot_mask : ℕ
prot_mask = 7

unfoldable pub grows_down : ℕ → Bool
grows_down prot = bit_and prot prot_growsdown == prot_growsdown

-- The part of a mapping that gets the new protection.
unfoldable pub add_overlap : ℕ → Mapping → ℕ → ℕ → Space → Option Space
add_overlap prot m new_start new_end s = do
  let new_prot : ℕ = bit_and prot prot_mask
  let new_local_addr : Option ℕ = local_after m.local_addr (ptr_sub new_start m.map.mr.start)
  new_monitored ← monitored_subrange m.monitored_shared_memory
  map_part ← subrange m.map new_start new_end
  map ← set_prot map_part new_prot
  recorded_part ← subrange m.recorded_map new_start new_end
  recorded_map ← set_prot recorded_part new_prot
  let made : Mapping =
      new_mapping map recorded_map m.emu_file m.mapped_file_stat new_local_addr new_monitored
  let overlap : Mapping = record made { flags = m.flags }
  some (add_to_map overlap (record s { last_overlap = some overlap.map.mr }))

-- The closure of `protect`.
unfoldable pub protector : ℕ → Space → MemoryRange → MemoryRange → Option Space
protector prot s m_key rem = do
  m ← get m_key s.mem
  let s1 : Space = remove_from_map m.map.mr s
  let new_start : ℕ =
      if ltb m.map.mr.start rem.start && grows_down prot then m.map.mr.start else rem.start
  s2 ←
      if ltb m.map.mr.start new_start
      then add_underflow m m.recorded_map.mr.start rem.start s1
      else some s1
  let new_end : ℕ = min rem.end m.map.mr.end
  s3 ← add_overlap prot m new_start new_end s2
  if ltb rem.end m.map.mr.end then add_overflow m rem.end s3 else some s3

unfoldable pub protect : ℕ → ℕ → ℕ → Space → Option Space
protect addr num_bytes prot s = do
  s' ← for_each_in_range addr num_bytes (protector prot) true (record s { last_overlap = none })
  elim (s'.last_overlap) [
    | some last_overlap_key ↦ coalesce_around last_overlap_key s'
    | none ↦ some s'
  ]
