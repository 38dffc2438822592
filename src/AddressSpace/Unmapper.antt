-- ===== src/AddressSpace/Unmapper.antt =====
-- session/address_space.rs: the closure of `unmap_internal` on the first mapping of what remains of
-- the region.
use rd.Prelude.{
  ℕ, ◌+◌, ◌-◌, ◌≤◌, ◌<◌, ◌^◌, ◌≡◌, none, some, ◌∷◌, if◌then◌else◌, arith, ltb, refl, ◌⊎◌, inl, inr,
  Bool-cases, sym, min, max, subst, ltb→lt, Option-cases,
}
use rd.Util.{IsPage}
use rd.RemotePtr.{ptr_sub, ptr_sub_lem}
use rd.MemoryRange.{MemoryRange, size}
use rd.AddressSpace.MemoryMap.{Mapping, insert, remove}
use rd.AddressSpace.First.{First}
use rd.AddressSpace.Space.{
  Space, add_underflow, add_overflow, add_to_map, local_after, remove_from_map, unmap_local,
  unmapper,
}
use rd.AddressSpace.Piece.{range, piece, underflow_lem, overflow_lem}
use rd.AddressSpace.Stage.{Stage, taken_out, put_low, put_high}

module _ (b p : ℕ) (s : Space) (k : MemoryRange) (m : Mapping) (f : First b p s.mem k m) where
  -- The part before `cut` is put back.
  pub cut_low :
      (cut : ℕ)
      → cut < k.end
      → IsPage cut
      → (s2 : Space) × ((if ltb m.map.mr.start cut
            then add_underflow m m.map.mr.start cut (remove_from_map m.map.mr s)
            else some (remove_from_map m.map.mr s))
          ≡ some s2)
        × Stage b k m s.mem (max k.start cut) k.end s2.mem
  unfolding remove_from_map add_to_map
  cut_low cut h page_cut =
      let e = f.entry in
      let keyed : k ≡ m.map.mr = e.keyed in
      let out : Stage b k m s.mem k.start k.end (remove m.map.mr s.mem) =
        subst (λ r. Stage b k m s.mem k.start k.end (remove r s.mem)) keyed
          (taken_out b p s.mem k m f) in
      elim (Bool-cases (ltb k.start cut)) [
        | inl below ↦
            let l : k.start < cut = ltb→lt k.start cut below in
            (
              add_to_map (piece m m.map.mr.start cut m.local_addr) (remove_from_map m.map.mr s),
              ground (
                arith,
                underflow_lem k m e cut (remove_from_map m.map.mr s) l (omega arith) page_cut,
              ),
              subst
                  (λ (t : ℕ). Stage b k m s.mem t k.end (
                    insert (range m.map.mr.start cut) (piece m m.map.mr.start cut m.local_addr)
                      (remove m.map.mr s.mem)))
                  (ground arith)
                  (subst
                    (λ (r : MemoryRange). Stage b k m s.mem cut k.end (
                      insert (range r.start cut) (piece m r.start cut m.local_addr)
                        (remove m.map.mr s.mem)))
                    keyed
                    (put_low b p s.mem k m f cut k.end (remove m.map.mr s.mem) out l h (omega arith)
                      page_cut)),
            )
        | inr above ↦ (
          remove_from_map m.map.mr s,
          ground arith,
          subst (λ (t : ℕ). Stage b k m s.mem t k.end (remove m.map.mr s.mem)) (ground arith) out,
        )
      ]

  -- The part from `cut` on is put back.
  pub cut_high :
      (lo cut : ℕ) (t : Space)
      → Stage b k m s.mem lo k.end t.mem
      → k.start ≤ lo
      → lo < cut
      → lo < k.end
      → IsPage cut
      → (s3 : Space) × ((if ltb cut m.map.mr.end then add_overflow m cut t else some t) ≡ some s3)
        × Stage b k m s.mem lo (min k.end cut) s3.mem
  unfolding add_to_map
  cut_high lo cut t st h l g page_cut =
      let e = f.entry in
      let keyed : k ≡ m.map.mr = e.keyed in
      let loc = local_after m.local_addr (cut - m.map.mr.start) in
      elim (Bool-cases (ltb cut k.end)) [
        | inl below ↦
            let i : cut < k.end = ltb→lt cut k.end below in
            (
              add_to_map (piece m cut m.map.mr.end loc) t,
              ground (arith, overflow_lem k m e cut t (omega arith) i page_cut),
              subst
                  (λ (u : ℕ).
                    Stage b k m s.mem lo u
                      (insert (range cut m.map.mr.end) (piece m cut m.map.mr.end loc) t.mem))
                  (ground arith)
                  (subst
                    (λ (r : MemoryRange).
                      Stage b k m s.mem lo cut
                        (insert (range cut r.end) (piece m cut r.end loc) t.mem))
                    keyed (put_high b p s.mem k m f lo cut t.mem st h l i page_cut)),
            )
        | inr above ↦
            (t, ground arith, subst (λ (u : ℕ). Stage b k m s.mem lo u t.mem) (ground arith) st)
      ]

  unmap_local_lem :
      (end : ℕ) (t : Space)
      → p < 2 ^ 64
      → (m.local_addr ≡ none) ⊎ (k.start ≤ p)
      → (t' : Space) × (unmap_local m (range p end) t ≡ some t') × (t'.mem ≡ t.mem)
  unfolding unmap_local size
  unmap_local_lem end t h c =
      let e = f.entry in
      let keyed : k ≡ m.map.mr = e.keyed in
      elim (Option-cases (m.local_addr)) [
        | inl away ↦ (t, rw (away, unmap_local) refl, refl)
        | inr (a, here) ↦
            let low : k.start ≤ p = elim c [ inl away ↦ absurd (cc) | inr low ↦ low ] in
            let skipped : ptr_sub p m.map.mr.start ≡ p - m.map.mr.start =
              ptr_sub_lem p m.map.mr.start (ground arith) h in
            (
              record t {
                unmapped_local =
                    (
                      a + ptr_sub p m.map.mr.start,
                      min (size (range p end)) (size m.map.mr - ptr_sub p m.map.mr.start),
                    )
                    ∷ t.unmapped_local;
              },
              ground (
                arith,
                skipped,
                ptr_sub_lem m.map.mr.end m.map.mr.start (ground arith) e.map_lem.bound,
                f.after,
              ),
              refl,
            )
      ]

  -- What is free after it: the common part of the mapping and of the region.
  pub unmapper_lem :
      (end : ℕ)
      → p < end
      → end < 2 ^ 64
      → k.start < end
      → IsPage p
      → IsPage end
      → (m.local_addr ≡ none) ⊎ (k.start ≤ p)
      → (s' : Space) × (unmapper s k (range p end) ≡ some s')
        × Stage b k m s.mem (max k.start p) (min k.end end) s'.mem
  unfolding unmapper
  unmapper_lem end h below l page_p page_end c =
      let after = f.after in
      let order = f.order in
      let (s2, low, st2) = cut_low p after page_p in
      let (s3, high, st3) =
        cut_high (max k.start p) end s2 st2 (omega arith) (omega arith) (omega arith) page_end in
      let (s4, gone, same) = unmap_local_lem end s3 (omega arith) c in
      (
        s4,
        ground (arith, f.got, low, high, gone),
        subst (λ mem. Stage b k m s.mem (max k.start p) (min k.end end) mem) (sym same) st3,
      )

-- The distance back to the region wraps, and the size of the mapping less than it.
pub gap_panics :
    (m : Mapping) (rem : MemoryRange) (a : ℕ) (t : Space)
    → m.local_addr ≡ some a
    → rem.start < m.map.mr.start
    → m.map.mr.start < m.map.mr.end
    → m.map.mr.end < 2 ^ 64
    → unmap_local m rem t ≡ none
unfolding unmap_local size ptr_sub
gap_panics m rem a t is before order bound = ground arith
