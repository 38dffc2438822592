-- ===== src/AddressSpace/Coalesce.antt =====
-- session/address_space.rs: `coalesce_around` and `map_and_coalesce`.
use rd.Prelude.{ℕ, Bool, true, false, Option, none, some, List, [], ◌∷◌, if◌then◌else◌, lt, gt}
use rd.Prelude.Options.{◌>>=◌, ◌>>◌, assert}
use rd.MemoryRange.{MemoryRange, cmp, same_key}
use rd.AddressSpace.KernelMapping.{KernelMapping, extend}
use rd.AddressSpace.MemoryMap.{Mapping, MemoryMap, new_mapping, get, remove, insert, range_from}
use rd.AddressSpace.Space.{Space, monitor}
use rd.AddressSpace.Adjacent.{is_coalescable, assert_coalesceable}

abbrev pub Entry : Type 0
Entry = MemoryRange × Mapping

-- `range((Unbounded, Included(key)))` from its back, on top of `seen`
unfoldable pub backward : MemoryRange → MemoryMap → MemoryMap → MemoryMap
unfolding cmp
backward key seen [] = seen
backward key seen ((k, m) ∷ mem) = elim (cmp key k) [
  | lt ↦ seen
  | _ ↦ backward key ((k, m) ∷ seen) mem
]

unfoldable pub first_of : Entry → MemoryMap → Option Entry
unfolding is_coalescable assert_coalesceable
first_of first [] = some first
first_of first (prev ∷ rest) = do
  joins ← is_coalescable prev.1 first.1
  if joins then (assert (assert_coalesceable prev.1 first.1) >> first_of prev rest) else some first

unfoldable pub last_of : Entry → MemoryMap → Option Entry
unfolding is_coalescable assert_coalesceable
last_of last [] = some last
last_of last (next ∷ rest) = do
  joins ← is_coalescable last.1 next.1
  if joins then (assert (assert_coalesceable last.1 next.1) >> last_of next rest) else some last

-- the keys of `range((Included(first_k), Included(last_k)))`
unfoldable pub keys_between : MemoryRange → MemoryRange → MemoryMap → List MemoryRange
unfolding cmp
keys_between first_k last_k [] = []
keys_between first_k last_k ((k, m) ∷ mem) = elim (cmp first_k k) [
  | gt ↦ keys_between first_k last_k mem
  | _ ↦ elim (cmp last_k k) [ lt ↦ [] | _ ↦ k ∷ keys_between first_k last_k mem ]
]

unfoldable pub remove_all : List MemoryRange → MemoryMap → MemoryMap
unfolding remove
remove_all [] mem = mem
remove_all (k ∷ ks) mem = remove_all ks (remove k mem)

is_vacant : Option Mapping → Bool
is_vacant none = true
is_vacant (some m) = false

-- The one mapping that takes the place of those from `first` to `last`.
unfoldable pub coalesce : Entry → Entry → Space → Option Space
unfolding extend new_mapping keys_between remove_all insert get is_vacant same_key
coalesce first last s = if same_key first.0 last.0 then some s else (do
  map ← extend first.1.map last.0.end
  recorded_map ← extend first.1.recorded_map last.0.end
  let made : Mapping =
      new_mapping map recorded_map first.1.emu_file first.1.mapped_file_stat first.1.local_addr
        first.1.monitored_shared_memory
  let new_m : Mapping = record made { flags = first.1.flags }
  let kept : MemoryMap = remove_all (keys_between first.0 last.0 s.mem) s.mem
  let mem : MemoryMap = insert new_m.map.mr new_m kept
  assert (is_vacant (get new_m.map.mr kept))
  some (record s { mem = mem }))

unfoldable pub coalesce_around : MemoryRange → Space → Option Space
unfolding backward range_from first_of last_of coalesce
coalesce_around key s = elim (backward key [] s.mem) [
  | [] ↦ none
  | first_kv ∷ before ↦ elim (range_from key s.mem) [
    | [] ↦ none
    | last_kv ∷ after ↦ do
      first ← first_of first_kv before
      last ← last_of last_kv after
      coalesce first last s
  ]
]

is_monitored : Option ℕ → Bool
is_monitored none = false
is_monitored (some mm) = true

unfoldable pub map_and_coalesce :
    KernelMapping → KernelMapping → Option ℕ → Option ℕ → Option ℕ → Option ℕ → Space → Option Space
unfolding is_monitored monitor insert new_mapping coalesce_around
map_and_coalesce km recorded_km emu_file mapped_file_stat local_addr monitored s = do
  let s1 : Space = record s {
    monitored_mem =
        if is_monitored monitored then monitor km.mr.start s.monitored_mem else s.monitored_mem;
    mem =
        insert km.mr (new_mapping km recorded_km emu_file mapped_file_stat local_addr monitored)
          s.mem;
  }
  s2 ← coalesce_around km.mr s1
  some (record s2 { watchpoint_updates = km.mr ∷ s2.watchpoint_updates })
