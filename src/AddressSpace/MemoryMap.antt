-- ===== src/AddressSpace/MemoryMap.antt =====
-- session/address_space.rs: the mappings of an address space, a BTreeMap from MemoryRangeKey to
-- Mapping. It is a list in the order of the keys, searched by `cmp`.
--
-- A shared pointer and a `libc::stat` are numbers here: they are only copied, and the pointers
-- compared.
use rd.Prelude.{ℕ, Option, none, some, List, [], ◌∷◌, if◌then◌else◌, lt, eq, gt}
use rd.MemoryRange.{MemoryRange, cmp, contains_ptr, new_range}
use rd.AddressSpace.KernelMapping.{KernelMapping}

pub record Mapping : Type 0 where
  pub map : KernelMapping
  pub recorded_map : KernelMapping
  pub emu_file : Option ℕ
  pub mapped_file_stat : Option ℕ
  pub local_addr : Option ℕ
  pub monitored_shared_memory : Option ℕ
  pub flags : ℕ

-- `Mapping::new`, whose flags are empty
unfoldable pub new_mapping :
    KernelMapping → KernelMapping → Option ℕ → Option ℕ → Option ℕ → Option ℕ → Mapping
new_mapping map recorded_map emu_file mapped_file_stat local_addr monitored = record {
  map = map;
  recorded_map = recorded_map;
  emu_file = emu_file;
  mapped_file_stat = mapped_file_stat;
  local_addr = local_addr;
  monitored_shared_memory = monitored;
  flags = 0;
}

abbrev pub MemoryMap : Type 0
MemoryMap = List (MemoryRange × Mapping)

unfoldable pub get : MemoryRange → MemoryMap → Option Mapping
unfolding cmp
get key [] = none
get key ((k, m) ∷ mem) = elim (cmp key k) [ eq ↦ some m | _ ↦ get key mem ]

unfoldable pub remove : MemoryRange → MemoryMap → MemoryMap
unfolding cmp
remove key [] = []
remove key ((k, m) ∷ mem) = elim (cmp key k) [ eq ↦ mem | _ ↦ (k, m) ∷ remove key mem ]

-- A key that is there is kept, and its value replaced.
unfoldable pub insert : MemoryRange → Mapping → MemoryMap → MemoryMap
unfolding cmp
insert key m [] = (key, m) ∷ []
insert key m ((k, n) ∷ mem) = elim (cmp key k) [
  | lt ↦ (key, m) ∷ (k, n) ∷ mem
  | eq ↦ (k, m) ∷ mem
  | gt ↦ (k, n) ∷ insert key m mem
]

-- `range((Included(key), Unbounded))`
unfoldable pub range_from : MemoryRange → MemoryMap → MemoryMap
unfolding cmp
range_from key [] = []
range_from key ((k, m) ∷ mem) = elim (cmp key k) [ gt ↦ range_from key mem | _ ↦ (k, m) ∷ mem ]

-- `Maps::from_range`: only the start of the range counts.
unfoldable pub maps_from_range : ℕ → MemoryMap → MemoryMap
unfolding range_from new_range
maps_from_range start mem = range_from (new_range start 1) mem

-- The mapping of an address, if the first one from it on holds it.
found_at : ℕ → MemoryMap → MemoryMap → Option Mapping
found_at addr mem [] = none
found_at addr mem ((k, found_mapping) ∷ _) =
    if contains_ptr found_mapping.map.mr addr then get k mem else none

unfoldable pub mapping_of : MemoryMap → ℕ → Option Mapping
unfolding found_at maps_from_range contains_ptr
mapping_of mem addr = found_at addr mem (maps_from_range addr mem)
