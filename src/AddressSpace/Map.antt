-- ===== src/AddressSpace/Map.antt =====
-- session/address_space.rs: `map`, `unmap`, `advise` and what they do for one address.
use rd.Prelude.{ℕ, Option, none, some, List, ◌==◌, ltb, if◌then◌else◌, bit_and}
use rd.Prelude.Options.{◌>>=◌, ◌>>◌, assert}
use rd.RemotePtr.{ptr_add}
use rd.Util.{ceil_page_size}
use rd.MemoryRange.{new_range}
use rd.AddressSpace.KernelMapping.{KernelMapping, new_with_opts, map_flags_mask, is_vdso}
use rd.AddressSpace.Space.{Space, unmap_internal}
use rd.AddressSpace.Coalesce.{map_and_coalesce}
use rd.AddressSpace.DontFork.{remove_range, add_range}

unfoldable pub recorded_or : Option KernelMapping → KernelMapping → KernelMapping
recorded_or none m = m
recorded_or (some km) m = km

unfoldable pub map :
    ℕ
    → ℕ
    → ℕ
    → ℕ
    → ℕ
    → List ℕ
    → ℕ
    → ℕ
    → Option ℕ
    → Option KernelMapping
    → Option ℕ
    → Option ℕ
    → Option ℕ
    → Space
    → Option (KernelMapping × Space)
map addr num_bytes prot flags offset_bytes fsname device inode mapped_file_stat record_map emu_file
      local_addr monitored s =
    do
      bytes ← ceil_page_size num_bytes
      m ←
          new_with_opts addr (ptr_add addr bytes) fsname device inode prot
            (bit_and flags map_flags_mask) offset_bytes
      assert (ltb 0 bytes)
      dont_fork ← remove_range s.dont_fork (new_range addr bytes)
      s1 ← unmap_internal addr bytes (record s { dont_fork = dont_fork })
      let actual_recorded_map : KernelMapping = recorded_or record_map m
      let s2 : Space =
          if is_vdso actual_recorded_map then record s1 { vdso_start_addr = addr } else s1
      s3 ← map_and_coalesce m actual_recorded_map emu_file mapped_file_stat local_addr monitored s2
      some (m, s3)

unfoldable pub unmap : ℕ → ℕ → Space → Option Space
unmap addr num_bytes s = do
  bytes ← ceil_page_size num_bytes
  let freed : Option Space = (do
    dont_fork ← remove_range s.dont_fork (new_range addr bytes)
    unmap_internal addr bytes (record s { dont_fork = dont_fork }))
  if bytes == 0 then some s else freed

-- MADV_DONTFORK and MADV_DOFORK
abbrev madv_dontfork : ℕ
madv_dontfork = 10

abbrev madv_dofork : ℕ
madv_dofork = 11

unfoldable pub advise : ℕ → ℕ → ℕ → Space → Option Space
advise addr num_bytes advice s = do
  bytes ← ceil_page_size num_bytes
  dont_fork ←
      if advice == madv_dontfork
      then add_range s.dont_fork (new_range addr bytes)
      else if advice == madv_dofork
      then remove_range s.dont_fork (new_range addr bytes)
      else some s.dont_fork
  some (record s { dont_fork = dont_fork })
