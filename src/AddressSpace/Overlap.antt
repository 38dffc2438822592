-- ===== src/AddressSpace/Overlap.antt =====
-- session/address_space.rs: the part of a mapping that gets another protection.
use rd.Prelude.{ℕ, ◌-◌, ◌≤◌, ◌<◌, ◌≡◌, Option, none, some, arith, refl, bit_and}
use rd.Util.{IsPage}
use rd.RemotePtr.{ptr_sub_lem}
use rd.MemoryRange.{MemoryRange}
use rd.AddressSpace.KernelMapping.{KernelMapping, is_real_device}
use rd.AddressSpace.Parts.{IsMapping, part, subrange_lem, part-IsMapping, set_prot_lem}
use rd.AddressSpace.MemoryMap.{Mapping, new_mapping}
use rd.AddressSpace.View.{IsEntry, Page, page_at}
use rd.AddressSpace.Space.{Space, add_to_map, local_after, monitored_subrange}
use rd.AddressSpace.Piece.{range, piece}
use rd.AddressSpace.Protect.{add_overlap, prot_mask}

-- The mapping and the page with another protection.
abbrev pub with_prot : ℕ → Mapping → Mapping
with_prot prot m = record m {
  map = record m.map { prot = prot };
  recorded_map = record m.recorded_map { prot = prot };
}

abbrev pub protected : ℕ → Option Page → Option Page
protected prot none = none
protected prot (some g) = some (record g {
  map = record g.map { prot = prot };
  recorded_map = record g.recorded_map { prot = prot };
})

pub page_at-with_prot :
    (prot : ℕ) (m : Mapping) (q : ℕ)
    → some (page_at (with_prot prot m) q) ≡ protected prot (some (page_at m q))
unfolding page_at is_real_device
page_at-with_prot prot m q = refl

with_prot-IsMapping :
    (prot : ℕ) (km : KernelMapping) → IsMapping km → IsMapping (record km { prot = prot })
unfolding is_real_device
with_prot-IsMapping prot km v = record {
  order = v.order;
  start_page = v.start_page;
  bound = v.bound;
  end_page = v.end_page;
  masked = v.masked;
  offset_page = v.offset_page;
  fits = v.fits;
}

pub with_prot-IsEntry :
    (prot : ℕ) (k : MemoryRange) (m : Mapping) → IsEntry k m → IsEntry k (with_prot prot m)
with_prot-IsEntry prot k m e = record {
  keyed = e.keyed;
  map_lem = with_prot-IsMapping prot m.map e.map_lem;
  recorded_range = e.recorded_range;
  recorded_lem = with_prot-IsMapping prot m.recorded_map e.recorded_lem;
  unmonitored = e.unmonitored;
}

module _ (prot : ℕ) (k : MemoryRange) (m : Mapping) (e : IsEntry k m) where
  abbrev pub new_prot : ℕ
  new_prot = bit_and prot prot_mask

  -- What `add_overlap` puts into the map.
  abbrev pub overlap : ℕ → ℕ → Mapping
  overlap a c =
      piece (with_prot (bit_and prot prot_mask) m) a c
        (local_after m.local_addr (a - m.map.mr.start))

  pub overlap_lem :
      (a c : ℕ) (s : Space)
      → k.start ≤ a
      → a < c
      → c ≤ k.end
      → IsPage a
      → IsPage c
      → add_overlap prot m a c s
        ≡ some (add_to_map (overlap a c) (record s { last_overlap = some (range a c) }))
  unfolding add_overlap new_mapping monitored_subrange is_real_device
  overlap_lem a c s h l g p q =
      let keyed : k ≡ m.map.mr = e.keyed in
      let same : m.recorded_map.mr ≡ m.map.mr = e.recorded_range in
      let map = subrange_lem m.map e.map_lem a c (ground arith) (omega arith) (ground arith) p q in
      let recorded =
        subrange_lem m.recorded_map e.recorded_lem a c (ground arith) (omega arith) (ground arith) p
          q in
      let map_prot =
        set_prot_lem (part m.map a c)
          (part-IsMapping m.map e.map_lem a c (ground arith) l (ground arith) p q)
          (bit_and prot prot_mask) in
      let recorded_prot =
        set_prot_lem (part m.recorded_map a c)
          (part-IsMapping m.recorded_map e.recorded_lem a c (ground arith) l (ground arith) p q)
          (bit_and prot prot_mask) in
      ground (
        arith,
        e.unmonitored,
        map,
        recorded,
        map_prot,
        recorded_prot,
        ptr_sub_lem a m.map.mr.start,
        e.map_lem.bound,
      )
