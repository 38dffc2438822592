-- ===== src/AddressSpace/Protected.antt =====
-- session/address_space.rs: `protect` gives the new protection to the mapped addresses of the region
-- up to the first gap, and leaves all others.
use rd.Prelude.{
  ℕ, zero, suc, ◌+◌, ◌*◌, ◌/◌, ◌≤◌, ◌<◌, ◌^◌, ◌≡◌, ◌≢◌, true, false, Option, none, some, ◌∷◌, arith,
  ltb, refl, ap, ◌⊎◌, inl, inr, Bool-cases, sym, min, ltb→lt, ◌∙◌, bit_and,
}
use rd.Util.{IsPage, floor_page_size_lem, ceil_page_size_lem}
use rd.RemotePtr.{ptr_add_lem}
use rd.MemoryRange.{MemoryRange, from_range}
use rd.AddressSpace.MemoryMap.{Mapping, MemoryMap, maps_from_range}
use rd.AddressSpace.View.{Sorted, inside, find_entry}
use rd.AddressSpace.Clear.{Clear}
use rd.AddressSpace.First.{First, first, Clear-First}
use rd.AddressSpace.Space.{Space, visit, for_each_from, for_each_in_range}
use rd.AddressSpace.Piece.{page, range}
use rd.AddressSpace.Unmap.{visit_none}
use rd.AddressSpace.Chain.{Clash}
use rd.AddressSpace.Around.{coalesce_around-Same}
use rd.AddressSpace.Protect.{protect, protector, grows_down, prot_mask}
use rd.AddressSpace.Overlap.{protected, page_at-with_prot}
use rd.AddressSpace.Repainted.{Repainted, protector_lem}

-- A mapped address of the region that a gap before it does not cut off has the new protection, and
-- every other address is as it was.
pub record Protected (b prot last end : ℕ) (old mem : MemoryMap) : Type 0 where
  pub order : Sorted b mem
  pub outside : (q : ℕ) → inside (range last end) q ≡ false → page mem q ≡ page old q
  pub stopped : (x q : ℕ) → last ≤ x → x ≤ q → page old x ≡ none → page mem q ≡ page old q
  pub changed :
      (q : ℕ)
      → last ≤ q
      → q < end
      → ((x : ℕ) → last ≤ x → x ≤ q → page old x ≢ none)
      → page mem q ≡ protected (bit_and prot prot_mask) (page old q)

-- The last mapping that was changed is in the map.
abbrev pub Marked : Space → Type 0
Marked s =
    (s.last_overlap ≡ none)
    ⊎ ((key : MemoryRange) × (m : Mapping) × (s.last_overlap ≡ some key)
        × (find_entry s.mem key.start ≡ some m)
        × (m.map.mr ≡ key))

unchanged :
    (b prot last end : ℕ) (mem : MemoryMap)
    → Sorted b mem
    → (last < end → page mem last ≡ none)
    → Protected b prot last end mem mem
unchanged b prot last end mem o gap = record {
  order = o;
  outside = λ q h. refl;
  stopped = λ x q h l e. refl;
  changed = λ q h l all. absurd (all last (omega arith) h (gap (omega arith)));
}

visit_gap :
    (rest : ℕ → Space → Option Space) (f : Space → MemoryRange → MemoryRange → Option Space)
    (rs end last : ℕ) (s : Space) (k : MemoryRange) (m : Mapping) (r : MemoryMap)
    → last < end
    → maps_from_range last s.mem ≡ (k, m) ∷ r
    → rs ≤ last
    → last < k.start
    → visit rest f true rs end last s ≡ some s
unfolding visit from_range
visit_gap rest f rs end last s k m r h e l g = ground arith

visit_on :
    (rest : ℕ → Space → Option Space) (f : Space → MemoryRange → MemoryRange → Option Space)
    (rs end last : ℕ) (s s' : Space) (k : MemoryRange) (m : Mapping) (r : MemoryMap)
    → last < end
    → maps_from_range last s.mem ≡ (k, m) ∷ r
    → (k.start < rs) ⊎ (last ≡ k.start)
    → k.start ≤ last
    → f s k (range last end) ≡ some s'
    → visit rest f true rs end last s ≡ rest k.end s'
unfolding visit from_range
visit_on rest f rs end last s s' k m r h e (inl below) l g = ground arith
visit_on rest f rs end last s s' k m r h e (inr here) l g = ground arith

after_round :
    (b prot p end : ℕ) (s t u : Space) (k : MemoryRange) (m : Mapping)
    → First b p s.mem k m
    → k.start ≤ p
    → p < end
    → Repainted b prot k m p (min k.end end) s.mem t
    → Protected b prot k.end end t.mem u.mem
    → Protected b prot p end s.mem u.mem
after_round b prot p end s t u k m f start h st r =
    let after = f.after in
    let beyond : (x : ℕ) → k.end ≤ x → page t.mem x ≡ page s.mem x =
      λ x l. ground (arith, st.view x) in
    record {
      order = r.order;
      outside = λ q o. r.outside q (ground arith) ∙ ground (arith, st.view q, f.holds q);
      stopped = λ x q l g e.
          let past : k.end ≤ x = elim (Bool-cases (ltb x k.end)) [
            | inr no_less ↦ ground arith
            | inl less ↦ absurd (ground (arith, f.holds x))
          ] in
          r.stopped x q past g (beyond x past ∙ e) ∙ beyond q (omega arith);
      changed = λ q l g all. elim (Bool-cases (ltb q k.end)) [
        | inl here ↦
            r.outside q (ground arith)
            ∙ ground (arith, st.view q, f.holds q, page_at-with_prot (bit_and prot prot_mask) m q)
        | inr past ↦
            let far : k.end ≤ q = ground arith in
            r.changed q far g (λ x i j e. all x (omega arith) j (sym (beyond x i) ∙ e))
            ∙ ap (protected (bit_and prot prot_mask)) (beyond q far)
      ];
    }

abbrev Loop : ℕ → ℕ → ℕ → ℕ → ℕ → ℕ → Space → Type 0
Loop fuel b prot rs end last s =
    (s' : Space) × (for_each_from fuel (protector prot) true rs end last s ≡ some s')
    × Protected b prot last end s.mem s'.mem
    × Marked s'

protect-Loop :
    (fuel b prot rs end last : ℕ) (s : Space)
    → grows_down prot ≡ false
    → Sorted b s.mem
    → (last ≡ rs) ⊎ Clear last s.mem
    → Marked s
    → rs ≤ last
    → IsPage last
    → IsPage end
    → end + 1 < 2 ^ 64
    → end < fuel + last
    → 0 < fuel
    → Loop fuel b prot rs end last s
unfolding for_each_from
protect-Loop zero b prot rs end last s plain o c mk above page_last page_end big enough some_fuel =
    absurd (omega arith)
protect-Loop (suc fuel) b prot rs end last s plain o c mk above page_last page_end big enough
      some_fuel =
    elim (Bool-cases (ltb last end)) [
      | inr over ↦
          (s, rw over refl, unchanged b prot last end s.mem o (λ h. absurd (ground arith)), mk)
      | inl more ↦
          let h : last < end = ltb→lt last end more in
          let rest = for_each_from fuel (protector prot) true rs end in
          elim (first b last s.mem o (omega arith)) [
            | inl (e, nowhere) ↦ (
              s,
              rw more (visit_none rest (protector prot) true rs end last s h e),
              unchanged b prot last end s.mem o (λ _. ground (arith, nowhere last)),
              mk,
            )
            | inr (k, m, f) ↦ elim (Bool-cases (ltb last k.start)) [
              | inl gap ↦
                  let g : last < k.start = ltb→lt last k.start gap in
                  (
                    s,
                    rw more (
                        visit_gap rest (protector prot) rs end last s k m f.rest h f.found above g),
                    unchanged b prot last end s.mem o (λ _. ground (arith, f.gap last)),
                    mk,
                  )
              | inr near ↦
                  let l : k.start ≤ last = ground arith in
                  let after = f.after in
                  let e = f.entry in
                  let keyed : k ≡ m.map.mr = e.keyed in
                  let page_next : IsPage k.end = ground (arith, e.map_lem.end_page) in
                  let on : (k.start < rs) ⊎ (last ≡ k.start) = elim c [
                    | inl at_first ↦ elim (Bool-cases (ltb k.start rs)) [
                      | inl below ↦ inl (ltb→lt k.start rs below)
                      | inr no_less ↦ inr (ground arith)
                    ]
                    | inr clear ↦ elim (Clear-First b last last s.mem k m f clear) [
                      | inl ended ↦ absurd (omega arith)
                      | inr starts ↦ inr (omega arith)
                    ]
                  ] in
                  let (t, did, st) =
                    protector_lem prot b last s k m f end plain h l page_last page_end in
                  let (u, went, all, mk') =
                    protect-Loop fuel b prot rs end k.end t plain st.order (inr st.clear)
                      (inr (range last (min k.end end), st.last, st.marked, st.there, st.keyed))
                      (omega arith) page_next page_end big (omega arith) (omega arith) in
                  (
                    u,
                    rw more (
                        visit_on rest (protector prot) rs end last s t k m f.rest h f.found on l did
                        ∙ went),
                    after_round b prot last end s t u k m f l h st all,
                    mk',
                  )
            ]
          ]
    ]

-- A map that says what it should, in which two neighbours that coalesce fail the assertion.
abbrev pub ClashProtected : ℕ → ℕ → ℕ → ℕ → MemoryMap → Type 0
ClashProtected b prot first_page last_page old =
    (mem : MemoryMap) × Protected b prot first_page last_page old mem × Clash mem

-- Where the entries of the map are in order and apart, all mappings are whole pages and none is
-- monitored, the region ends two pages before 2 ^ 64 and PROT_GROWSDOWN is not asked for: either
-- `protect` returns, and every address of the whole pages of the region that no unmapped address
-- of the region comes before has the new protection and else what it had, every address outside
-- the region or from its first unmapped one on has what it had (all but the names of files and
-- their `stat`), and the entries are in order; or a map that says exactly this has two neighbours
-- that coalesce and fail the assertions of assert_coalesceable.
pub protect-Protected :
    (b addr num_bytes prot : ℕ) (s : Space)
    → Sorted b s.mem
    → grows_down prot ≡ false
    → addr + num_bytes + 8192 < 2 ^ 64
    → ((s' : Space) × (protect addr num_bytes prot s ≡ some s')
        × Protected b prot
            (addr / 4096 * 4096)
            ((addr + num_bytes + 4095) / 4096 * 4096)
            s.mem
            s'.mem)
      ⊎ ClashProtected b prot (addr / 4096 * 4096) ((addr + num_bytes + 4095) / 4096 * 4096) s.mem
unfolding protect for_each_in_range
protect-Protected b addr num_bytes prot s o plain big =
    let first_page = addr / 4096 * 4096 in
    let last_page = (addr + num_bytes + 4095) / 4096 * 4096 in
    let s0 : Space = record s { last_overlap = none } in
    let (u, went, all, mk) =
      protect-Loop (suc last_page) b prot first_page last_page first_page s0 plain o (inl refl)
        (inl refl) (omega arith) (omega arith) (omega arith) (omega arith) (omega arith)
        (omega arith) in
    let floored = floor_page_size_lem addr (omega arith) in
    let no_wrap = ptr_add_lem addr num_bytes (omega arith) in
    let ceiled = ceil_page_size_lem (addr + num_bytes) (omega arith) in
    elim mk [
      | inl nothing ↦ inl (u, ground (arith, floored, no_wrap, ceiled, went, nothing), all)
      | inr (key, m, is, found, keyed) ↦
          elim (coalesce_around-Same b u key m all.order found keyed) [
            | inr clash ↦ inr (u.mem, all, clash)
            | inl (v, did, order, view) ↦ inl (
              v,
              ground (arith, floored, no_wrap, ceiled, went, is, did),
              record {
                order = order;
                outside = λ q h. view q ∙ all.outside q h;
                stopped = λ x q h l e. view q ∙ all.stopped x q h l e;
                changed = λ q h l c. view q ∙ all.changed q h l c;
              },
            )
          ]
    ]
