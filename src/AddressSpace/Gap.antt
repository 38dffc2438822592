-- ===== src/AddressSpace/Gap.antt =====
-- session/address_space.rs: `unmap_internal` where a mapping with a local copy begins after a gap.
use rd.Prelude.{
  ℕ, ◌+◌, ◌*◌, ◌/◌, ◌<◌, ◌^◌, ◌≡◌, false, Option, none, some, ◌∷◌, if◌then◌else◌, arith, ltb, refl,
}
use rd.Util.{floor_page_size_lem, ceil_page_size_lem}
use rd.Prelude.Options.{◌>>=◌}
use rd.RemotePtr.{ptr_add_lem}
use rd.MemoryRange.{MemoryRange, from_range}
use rd.AddressSpace.MemoryMap.{get, Mapping, MemoryMap, maps_from_range}
use rd.AddressSpace.First.{First}
use rd.AddressSpace.Space.{
  Space, add_overflow, add_underflow, remove_from_map, unmap_local, unmapper, visit, for_each_from,
  for_each_in_range, unmap_internal,
}
use rd.AddressSpace.Piece.{range}
use rd.AddressSpace.Unmapper.{gap_panics}

bind_none :
    {A B : Type 0} (o : Option A) (f : A → Option B) → ((a : A) → f a ≡ none) → (o >>= f) ≡ none
bind_none none f h = refl
bind_none (some a) f h = h a

unmapper-gap :
    (s : Space) (k rem : MemoryRange) (m : Mapping) (a : ℕ)
    → get k s.mem ≡ some m
    → m.local_addr ≡ some a
    → rem.start < m.map.mr.start
    → m.map.mr.start < m.map.mr.end
    → m.map.mr.end < 2 ^ 64
    → unmapper s k rem ≡ none
unfolding unmapper
unmapper-gap s k rem m a found is before order bound =
    let panics : (s3 : Space) → unmap_local m rem s3 ≡ none =
      λ s3. gap_panics m rem a s3 is before order bound in
    let last = λ (s2 : Space).
      bind_none (if ltb rem.end m.map.mr.end then add_overflow m rem.end s2 else some s2)
        (unmap_local m rem) panics in
    let start : Option Space =
      if ltb m.map.mr.start rem.start
      then add_underflow m m.map.mr.start rem.start (remove_from_map m.map.mr s)
      else some (remove_from_map m.map.mr s) in
    rw found (bind_none start _ last)

visit_fails :
    (rest : ℕ → Space → Option Space) (f : Space → MemoryRange → MemoryRange → Option Space)
    (rs end last : ℕ) (s : Space) (k : MemoryRange) (m : Mapping) (r : MemoryMap)
    → last < end
    → maps_from_range last s.mem ≡ (k, m) ∷ r
    → k.start < end
    → f s k (range last end) ≡ none
    → visit rest f false rs end last s ≡ none
unfolding visit from_range
visit_fails rest f rs end last s k m r h e l g = ground arith

-- Where the first mapping that ends after the start of the region, rounded down to a page, begins
-- after that start and within the region, and has a local copy, `unmap_internal` of a region that does
-- not wrap panics.
pub unmap_internal-gap :
    (b addr num_bytes a : ℕ) (s : Space) (k : MemoryRange) (m : Mapping)
    → addr + num_bytes + 8192 < 2 ^ 64
    → First b (addr / 4096 * 4096) s.mem k m
    → addr / 4096 * 4096 < k.start
    → k.start < (addr + num_bytes + 4095) / 4096 * 4096
    → m.local_addr ≡ some a
    → unmap_internal addr num_bytes s ≡ none
unfolding unmap_internal for_each_in_range for_each_from
unmap_internal-gap b addr num_bytes a s k m big f before within is =
    let first_page = addr / 4096 * 4096 in
    let last_page = (addr + num_bytes + 4095) / 4096 * 4096 in
    let e = f.entry in
    let keyed : k ≡ m.map.mr = e.keyed in
    let more : first_page < last_page = omega arith in
    let rest = for_each_from last_page unmapper false first_page last_page in
    let fails =
      unmapper-gap s k (range first_page last_page) m a f.got is (ground arith) e.map_lem.order
        e.map_lem.bound in
    ground (
      arith,
      floor_page_size_lem addr (omega arith),
      ptr_add_lem addr num_bytes (omega arith),
      ceil_page_size_lem (addr + num_bytes) (omega arith),
      visit_fails rest unmapper first_page last_page first_page s k m f.rest more f.found within
          fails,
    )
