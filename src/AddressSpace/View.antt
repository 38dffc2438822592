-- ===== src/AddressSpace/View.antt =====
-- session/address_space.rs: what a mapping says of one address, and the order of the map.
use rd.Prelude.{
  ℕ, ◌+◌, ◌-◌, ◌≤◌, ◌<◌, ◌≡◌, Bool, ◌&&◌, Option, none, some, [], ◌∷◌, if◌then◌else◌, arith, ltb,
  leb, refl, ◌⊎◌, inl, inr,
}
use rd.MemoryRange.{MemoryRange}
use rd.AddressSpace.KernelMapping.{KernelMapping, is_real_device}
use rd.AddressSpace.Parts.{IsMapping}
use rd.AddressSpace.MemoryMap.{Mapping, MemoryMap}

-- What the kernel knows of one address: all but the name, with the place in the file where there is
-- a device.
pub record Attributes : Type 0 where
  pub prot : ℕ
  pub flags : ℕ
  pub device : ℕ
  pub inode : ℕ
  pub offset : ℕ

abbrev pub attributes : KernelMapping → ℕ → Attributes
unfolding is_real_device
attributes km p = record {
  prot = km.prot;
  flags = km.flags;
  device = km.device;
  inode = km.inode;
  offset = if is_real_device km then km.offset + (p - km.mr.start) else 0;
}

-- What a mapping says of one address: all but the names and the `stat`.
pub record Page : Type 0 where
  pub map : Attributes
  pub recorded_map : Attributes
  pub emu_file : Option ℕ
  pub local_addr : Option ℕ
  pub flags : ℕ

unfoldable pub local_at : Option ℕ → ℕ → Option ℕ
local_at none n = none
local_at (some a) n = some (a + n)

unfoldable pub page_at : Mapping → ℕ → Page
unfolding local_at attributes
page_at m p = record {
  map = attributes m.map p;
  recorded_map = attributes m.recorded_map p;
  emu_file = m.emu_file;
  local_addr = local_at m.local_addr (p - m.map.mr.start);
  flags = m.flags;
}

abbrev pub page_of : Option Mapping → ℕ → Option Page
page_of none p = none
page_of (some m) p = some (page_at m p)

-- An entry of the map: its key is the range of its mapping, and of the recorded one.
pub record IsEntry (k : MemoryRange) (m : Mapping) : Type 0 where
  pub keyed : k ≡ m.map.mr
  pub map_lem : IsMapping m.map
  pub recorded_range : m.recorded_map.mr ≡ m.map.mr
  pub recorded_lem : IsMapping m.recorded_map
  pub unmonitored : m.monitored_shared_memory ≡ none

-- The entries are in order and apart, from the address `b` on.
abbrev pub Sorted : ℕ → MemoryMap → Type 0
Sorted b [] = Unit
Sorted b ((k, m) ∷ mem) = IsEntry k m × (b ≤ k.start) × (k.start < k.end) × Sorted k.end mem

-- Whether a range holds an address.
abbrev pub inside : MemoryRange → ℕ → Bool
inside r p = leb r.start p && ltb p r.end

-- The first entry whose key holds an address.
unfoldable pub find_entry : MemoryMap → ℕ → Option Mapping
find_entry [] p = none
find_entry ((k, m) ∷ mem) p = if inside k p then some m else find_entry mem p

pub Sorted-le : (a b : ℕ) (mem : MemoryMap) → a ≤ b → Sorted b mem → Sorted a mem
Sorted-le a b [] h s = tt
Sorted-le a b ((k, m) ∷ mem) h s = (s.0, omega arith, s.2, s.3)

-- No entry of a map in order holds an address before it.
pub find_entry-before : (b p : ℕ) (mem : MemoryMap) → Sorted b mem → p < b → find_entry mem p ≡ none
unfolding find_entry
find_entry-before b p [] s h = refl
find_entry-before b p ((k, m) ∷ mem) s h = ground (arith, find_entry-before k.end p mem s.3)

-- No address of the range is in an entry's key.
abbrev pub Apart : MemoryRange → MemoryMap → Type 0
Apart r [] = Unit
Apart r ((k, m) ∷ mem) = ((k.end ≤ r.start) ⊎ (r.end ≤ k.start)) × Apart r mem

pub Apart-after :
    (r : MemoryRange) (b : ℕ) (mem : MemoryMap) → Sorted b mem → r.end ≤ b → Apart r mem
Apart-after r b [] s h = tt
Apart-after r b ((k, m) ∷ mem) s h = (inr (omega arith), Apart-after r k.end mem s.3 (omega arith))

pub Apart-within :
    (r t : MemoryRange) (mem : MemoryMap)
    → r.start ≤ t.start
    → t.end ≤ r.end
    → Apart r mem
    → Apart t mem
Apart-within r t [] h l a = tt
Apart-within r t ((k, m) ∷ mem) h l (a, rest) = (
  elim a [ inl e ↦ inl (omega arith) | inr e ↦ inr (omega arith) ],
  Apart-within r t mem h l rest,
)
