-- ===== src/AddressSpace/Unmap.antt =====
-- session/address_space.rs: `unmap_internal` frees the pages of the region and leaves all others.
use rd.Prelude.{
  ℕ, zero, suc, ◌+◌, ◌-◌, ◌*◌, ◌/◌, ◌≤◌, ◌<◌, ◌^◌, ◌≡◌, Bool, false, Option, none, some, [], ◌∷◌,
  if◌then◌else◌, arith, ltb, refl, ◌⊎◌, inl, inr, Bool-cases, sym, min, max, subst, ltb→lt, ◌∙◌,
}
use rd.Util.{IsPage, floor_page_size_lem, ceil_page_size_lem}
use rd.RemotePtr.{ptr_add_lem}
use rd.MemoryRange.{MemoryRange, from_range}
use rd.AddressSpace.MemoryMap.{Mapping, MemoryMap, maps_from_range}
use rd.AddressSpace.View.{Sorted, inside, Page, page_at, local_at}
use rd.AddressSpace.First.{First, first}
use rd.AddressSpace.Space.{Space, unmapper, visit, for_each_from, for_each_in_range, unmap_internal}
use rd.AddressSpace.Piece.{page, range}
use rd.AddressSpace.Stage.{Stage}
use rd.AddressSpace.Unmapper.{unmapper_lem}

-- From `last` to `end`, no mapping with a local copy comes right after a gap.
abbrev pub NoGap : ℕ → ℕ → MemoryMap → Type 0
NoGap last end mem =
    (q : ℕ)
    → last ≤ q
    → q + 1 < end
    → page mem q ≡ none
    → (g : Page) → page mem (q + 1) ≡ some g
    → g.local_addr ≡ none

away : (o : Option ℕ) → local_at o 0 ≡ none → o ≡ none
unfolding local_at
away none h = refl
away (some a) h = absurd (cc)

module _ (b p end : ℕ) (s : Space) (k : MemoryRange) (m : Mapping) (f : First b p s.mem k m) where
  -- The first mapping has no local copy, or there is no gap before it.
  away_or_here : NoGap p end s.mem → k.start < end → (m.local_addr ≡ none) ⊎ (k.start ≤ p)
  unfolding page_at
  away_or_here c h = elim (Bool-cases (ltb p k.start)) [
    | inl gap ↦
        let l : p < k.start = ltb→lt p k.start gap in
        let e = f.entry in
        let keyed : k ≡ m.map.mr = e.keyed in
        let order = f.order in
        let before : k.start - 1 + 1 ≡ k.start = omega arith in
        let zero_off : k.start - m.map.mr.start ≡ 0 = ground arith in
        inl (
          away m.local_addr (
            subst (λ (t : ℕ). local_at m.local_addr t ≡ none) zero_off
              (c (k.start - 1) (omega arith) (omega arith) (ground (arith, f.gap (k.start - 1)))
                (page_at m k.start) (rw before (ground (arith, f.holds k.start))))))
    | inr here ↦ inr (ground arith)
  ]

-- One round: how `visit` goes on in each case.
pub visit_none :
    (rest : ℕ → Space → Option Space) (f : Space → MemoryRange → MemoryRange → Option Space)
    (c : Bool) (rs end last : ℕ) (s : Space)
    → last < end
    → maps_from_range last s.mem ≡ []
    → visit rest f c rs end last s ≡ some s
unfolding visit from_range
visit_none rest f c rs end last s h e = ground arith

pub visit_past :
    (rest : ℕ → Space → Option Space) (f : Space → MemoryRange → MemoryRange → Option Space)
    (c : Bool) (rs end last : ℕ) (s : Space) (k : MemoryRange) (m : Mapping) (r : MemoryMap)
    → last < end
    → maps_from_range last s.mem ≡ (k, m) ∷ r
    → end ≤ k.start
    → visit rest f c rs end last s ≡ some s
unfolding visit from_range
visit_past rest f c rs end last s k m r h e l = ground arith

visit_here :
    (rest : ℕ → Space → Option Space) (f : Space → MemoryRange → MemoryRange → Option Space)
    (rs end last : ℕ) (s s' : Space) (k : MemoryRange) (m : Mapping) (r : MemoryMap)
    → last < end
    → maps_from_range last s.mem ≡ (k, m) ∷ r
    → k.start < end
    → f s k (range last end) ≡ some s'
    → visit rest f false rs end last s ≡ rest k.end s'
unfolding visit from_range
visit_here rest f rs end last s s' k m r h e l g = ground arith

-- What the loop makes of the map.
pub record Unmapped (b last end : ℕ) (old mem : MemoryMap) : Type 0 where
  pub order : Sorted b mem
  pub view : (q : ℕ) → page mem q ≡ (if inside (range last end) q then none else page old q)

abbrev Loop : ℕ → ℕ → ℕ → ℕ → ℕ → Space → Type 0
Loop fuel b rs last end s =
    (s' : Space) × (for_each_from fuel unmapper false rs end last s ≡ some s')
    × Unmapped b last end s.mem s'.mem

after_round :
    (b p end : ℕ) (s t u : Space) (k : MemoryRange) (m : Mapping)
    → First b p s.mem k m
    → Stage b k m s.mem (max k.start p) (min k.end end) t.mem
    → Unmapped b k.end end t.mem u.mem
    → Unmapped b p end s.mem u.mem
after_round b p end s t u k m f st r = record {
  order = r.order;
  view = λ q. ground (arith, r.view q, st.view q, f.gap q, f.holds q, f.after, f.order);
}

NoGap-after :
    (b p end : ℕ) (s t : Space) (k : MemoryRange) (m : Mapping)
    → First b p s.mem k m
    → Stage b k m s.mem (max k.start p) (min k.end end) t.mem
    → NoGap p end s.mem
    → NoGap k.end end t.mem
NoGap-after b p end s t k m f st c q h l e g is =
    let after = f.after in
    let this : page t.mem q ≡ page s.mem q = ground (arith, st.view q) in
    let next : page t.mem (q + 1) ≡ page s.mem (q + 1) = ground (arith, st.view (q + 1)) in
    c q (omega arith) l (sym this ∙ e) g (sym next ∙ is)

unmap-Loop :
    (fuel b rs end last : ℕ) (s : Space)
    → Sorted b s.mem
    → NoGap last end s.mem
    → IsPage last
    → IsPage end
    → end + 1 < 2 ^ 64
    → end < fuel + last
    → 0 < fuel
    → Loop fuel b rs last end s
unfolding for_each_from
unmap-Loop zero b rs end last s o c page_last page_end big enough some_fuel = absurd (omega arith)
unmap-Loop (suc fuel) b rs end last s o c page_last page_end big enough some_fuel =
    elim (Bool-cases (ltb last end)) [
      | inr over ↦ (s, rw over refl, record { order = o; view = λ q. ground arith })
      | inl more ↦
          let h : last < end = ltb→lt last end more in
          let rest = for_each_from fuel unmapper false rs end in
          elim (first b last s.mem o (omega arith)) [
            | inl (e, nowhere) ↦ (
              s,
              rw more (visit_none rest unmapper false rs end last s h e),
              record { order = o; view = λ q. ground (arith, nowhere q) },
            )
            | inr (k, m, f) ↦ elim (Bool-cases (ltb k.start end)) [
              | inr past ↦ (
                s,
                rw more (
                    visit_past rest unmapper false rs end last s k m f.rest h f.found
                      (ground arith)),
                record { order = o; view = λ q. ground (arith, f.gap q) },
              )
              | inl within ↦
                  let l : k.start < end = ltb→lt k.start end within in
                  let after = f.after in
                  let e = f.entry in
                  let keyed : k ≡ m.map.mr = e.keyed in
                  let page_next : IsPage k.end = ground (arith, e.map_lem.end_page) in
                  let (t, did, st) =
                    unmapper_lem b last s k m f end h (omega arith) l page_last page_end
                      (away_or_here b last end s k m f c l) in
                  let (u, went, all) =
                    unmap-Loop fuel b rs end k.end t st.order
                      (NoGap-after b last end s t k m f st c) page_next page_end big (omega arith)
                      (omega arith) in
                  (
                    u,
                    rw more (
                        visit_here rest unmapper rs end last s t k m f.rest h f.found l did ∙ went),
                    after_round b last end s t u k m f st all,
                  )
            ]
          ]
    ]

-- Where the entries are in order and apart, all mappings are whole pages and none is monitored, and
-- no mapping with a local copy comes right after a gap in the region, `unmap_internal` of a region
-- that does not wrap ends: it keeps the order, frees each page of the region, rounded out to whole
-- pages, and changes what no other address has: protection, flags, device, inode, place in the file,
-- the same of the recorded mapping, emulated file, local address and flags of the mapping.
pub unmap_internal-frees :
    (b addr num_bytes : ℕ) (s : Space)
    → Sorted b s.mem
    → addr + num_bytes + 8192 < 2 ^ 64
    → NoGap (addr / 4096 * 4096) ((addr + num_bytes + 4095) / 4096 * 4096) s.mem
    → (s' : Space) × (unmap_internal addr num_bytes s ≡ some s')
      × Sorted b s'.mem
      × ((q : ℕ)
          → page s'.mem q ≡ (
              if inside (range (addr / 4096 * 4096) ((addr + num_bytes + 4095) / 4096 * 4096)) q
              then none
              else page s.mem q))
unfolding unmap_internal for_each_in_range from_range
unmap_internal-frees b addr num_bytes s o big c =
    let first_page = addr / 4096 * 4096 in
    let last_page = (addr + num_bytes + 4095) / 4096 * 4096 in
    let (u, went, all) =
      unmap-Loop (suc last_page) b first_page last_page first_page s o c (omega arith) (omega arith)
        (omega arith) (omega arith) (omega arith) in
    (
      record u { watchpoint_updates = range addr (addr + num_bytes) ∷ u.watchpoint_updates },
      ground (
        arith,
        floor_page_size_lem addr (omega arith),
        ptr_add_lem addr num_bytes (omega arith),
        ceil_page_size_lem (addr + num_bytes) (omega arith),
        went,
      ),
      all.order,
      all.view,
    )
