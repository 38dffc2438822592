-- ===== src/AddressSpace/Adjacent.antt =====
-- session/address_space.rs: when two mappings are parts of one. `none` is an overflow.
use rd.Prelude.{
  ℕ, ◌+◌, ◌^◌, Bool, true, false, not, ◌&&◌, ◌||◌, Option, none, some, List, ltb, ◌==◌,
  if◌then◌else◌, bit_and, bit_xor, take,
}
use rd.Prelude.Options.{◌>>=◌, ◌>>◌, assert}
use rd.Util.Search.{find, bytes_eq, codes}
use rd.MemoryRange.{size}
use rd.AddressSpace.KernelMapping.{
  KernelMapping, is_stack, is_heap, is_real_device, new_with_opts, checkable_flags_mask,
}
use rd.AddressSpace.MemoryMap.{Mapping}

pub data HandleHeap : Type 0 where
  treat_heap_as_anonymous : HandleHeap
  respect_heap : HandleHeap

treats_heap : HandleHeap → Bool
treats_heap treat_heap_as_anonymous = true
treats_heap respect_heap = false

unfoldable pub strip_deleted : List ℕ → List ℕ
unfolding find
strip_deleted s = elim (find s (codes " (deleted)")) [ some loc ↦ take loc s | none ↦ s ]

unfoldable pub normalized_file_names_equal : KernelMapping → KernelMapping → HandleHeap → Bool
unfolding is_stack is_heap strip_deleted treats_heap
normalized_file_names_equal km1 km2 handle_heap =
    if is_stack km1 || is_stack km2
    then true
    else if treats_heap handle_heap && (is_heap km1 || is_heap km2)
    then true
    else bytes_eq (strip_deleted km1.fsname) (strip_deleted km2.fsname)

-- A value of MapFlags has no bit outside `MapFlags::all()`.
unfoldable pub checked_flags : ℕ → Option ℕ → ℕ
checked_flags flags none = flags
checked_flags flags (some flags_to_check) = bit_and flags flags_to_check

unfoldable pub is_adjacent_mapping :
    KernelMapping → KernelMapping → HandleHeap → Option ℕ → Option Bool
unfolding normalized_file_names_equal checked_flags is_real_device size
is_adjacent_mapping mleft mright handle_heap maybe_flags_to_check =
    if not (mleft.mr.end == mright.mr.start)
    then some false
    else if not (checked_flags (bit_xor mleft.flags mright.flags) maybe_flags_to_check == 0)
        || not (mleft.prot == mright.prot)
    then some false
    else if not (normalized_file_names_equal mleft mright handle_heap)
    then some false
    else if not (mleft.device == mright.device) || not (mleft.inode == mright.inode)
    then some false
    else if is_real_device mleft
    then (assert (ltb (mleft.offset + size mleft.mr) (2 ^ 64))
        >> some (mleft.offset + size mleft.mr == mright.offset))
    else some true

unfoldable pub is_coalescable : Mapping → Mapping → Option Bool
is_coalescable mleft mright = do
  adjacent ← is_adjacent_mapping mleft.map mright.map respect_heap none
  recorded ←
      if adjacent
      then is_adjacent_mapping mleft.recorded_map mright.recorded_map respect_heap none
      else some false
  some (if recorded then mleft.flags == mright.flags else false)

-- Equality of the pointers, where both are there.
unfoldable pub same_emu_file : Option ℕ → Option ℕ → Bool
same_emu_file none none = true
same_emu_file (some l) (some h) = l == h
same_emu_file none (some h) = false
same_emu_file (some l) none = false

unfoldable pub local_follows : Option ℕ → ℕ → Option ℕ → Bool
local_follows none bytes none = true
local_follows (some l) bytes (some h) = l + bytes == h
local_follows none bytes (some h) = false
local_follows (some l) bytes none = false

is_none : Option ℕ → Bool
is_none none = true
is_none (some n) = false

unfoldable pub assert_coalesceable : Mapping → Mapping → Bool
unfolding same_emu_file local_follows size is_none
assert_coalesceable lower higher =
    same_emu_file lower.emu_file higher.emu_file
    && local_follows lower.local_addr (size lower.map.mr) higher.local_addr
    && lower.flags == higher.flags
    && is_none lower.monitored_shared_memory
    && is_none higher.monitored_shared_memory

unfoldable pub try_merge_adjacent : KernelMapping → KernelMapping → Option (KernelMapping × Bool)
unfolding is_adjacent_mapping new_with_opts
try_merge_adjacent left_m right_m = do
  adjacent ← is_adjacent_mapping left_m right_m treat_heap_as_anonymous (some checkable_flags_mask)
  merged ←
      if adjacent
      then new_with_opts left_m.mr.start right_m.mr.end left_m.fsname left_m.device left_m.inode
          right_m.prot right_m.flags left_m.offset
      else some left_m
  some (merged, adjacent)
