-- ===== src/AddressSpace/Repainted.antt =====
-- session/address_space.rs: the closure of `protect` on the first mapping of what remains of the
-- region.
use rd.Prelude.{
  ℕ, ◌-◌, ◌≤◌, ◌<◌, ◌≡◌, false, some, if◌then◌else◌, arith, ltb, refl, inl, inr, Bool-cases, min,
  max, subst, ltb→lt, bit_and,
}
use rd.Util.{IsPage}
use rd.MemoryRange.{MemoryRange}
use rd.AddressSpace.MemoryMap.{Mapping, MemoryMap, insert}
use rd.AddressSpace.View.{Sorted, Apart, inside, find_entry, page_at, Apart-within}
use rd.AddressSpace.Clear.{Clear, Clear-insert}
use rd.AddressSpace.First.{First}
use rd.AddressSpace.Insert.{find_entry-insert}
use rd.AddressSpace.Space.{Space, add_to_map, local_after}
use rd.AddressSpace.Piece.{page, range, piece, Put, put, overflow_lem}
use rd.AddressSpace.Stage.{Stage, local_after_lem}
use rd.AddressSpace.Unmapper.{cut_low}
use rd.AddressSpace.Protect.{protector, grows_down, prot_mask}
use rd.AddressSpace.Overlap.{with_prot, with_prot-IsEntry, overlap, overlap_lem}

-- The map after one round, at the mapping `m` of `k`, from `a` to `c`.
pub record Repainted (b prot : ℕ) (k : MemoryRange) (m : Mapping) (a c : ℕ) (old : MemoryMap)
    (s : Space) : Type 0 where
  pub order : Sorted b s.mem
  pub view :
      (q : ℕ)
      → page s.mem q ≡ (
          if inside k q
          then (if inside (range a c) q
              then some (page_at (with_prot (bit_and prot prot_mask) m) q)
              else some (page_at m q))
          else page old q)
  pub clear : Clear k.end s.mem
  pub last : Mapping
  pub marked : s.last_overlap ≡ some (range a c)
  pub there : find_entry s.mem a ≡ some last
  pub keyed : last.map.mr ≡ range a c

module _ (prot b p : ℕ) (s : Space) (k : MemoryRange) (m : Mapping) (f : First b p s.mem k m) where
  -- The new part put in, the rest up to the end of the mapping still free.
  repaint :
      (c : ℕ) (t : Space)
      → Stage b k m s.mem p k.end t.mem
      → k.start ≤ p
      → p < c
      → c ≤ k.end
      → IsPage p
      → IsPage c
      → Put b k
          (with_prot (bit_and prot prot_mask) m)
          p
          c
          t.mem
          (insert (range p c) (overlap prot k m f.entry p c) t.mem)
  repaint c t st h l g page_p page_c =
      let e = f.entry in
      let keyed : k ≡ m.map.mr = e.keyed in
      put b k (with_prot (bit_and prot prot_mask) m)
        (with_prot-IsEntry (bit_and prot prot_mask) k m e) p c
        (local_after m.local_addr (p - m.map.mr.start)) t.mem (omega (arith, f.low)) h l g page_p
        page_c (λ q i. local_after_lem m.local_addr m.map.mr.start p q (ground arith) i) st.order
        (Apart-within (range p k.end) (range p c) t.mem (omega arith) (omega arith) st.free)

  -- The region ends within the mapping: its end is put back.
  module _ (end : ℕ) (plain : grows_down prot ≡ false) (h : p < end) (start : k.start ≤ p)
      (page_p : IsPage p) (page_end : IsPage end) where
    ends_within :
        end < k.end
        → (s' : Space) × (protector prot s k (range p end) ≡ some s')
          × Repainted b prot k m p end s.mem s'
    unfolding protector add_to_map
    ends_within l =
        let after = f.after in
        let e = f.entry in
        let keyed : k ≡ m.map.mr = e.keyed in
        let (t, low, st0) = cut_low b p s k m f p after page_p in
        let lowest : max k.start p ≡ p = omega arith in
        let st : Stage b k m s.mem p k.end t.mem =
          subst (λ (x : ℕ). Stage b k m s.mem x k.end t.mem) lowest st0 in
        let made = overlap prot k m e p end in
        let t1 : Space = record t {
          mem = insert (range p end) made t.mem;
          last_overlap = some (range p end);
        } in
        let first = repaint end t st start h (omega arith) page_p page_end in
        let loc = local_after m.local_addr (end - m.map.mr.start) in
        let last_page : IsPage k.end = ground (arith, e.map_lem.end_page) in
        let free_low =
          Apart-within (range p k.end) (range p end) t.mem (omega arith) (omega arith) st.free in
        let free =
          first.apart (range end k.end)
            (Apart-within (range p k.end) (range end k.end) t.mem (omega arith) (omega arith)
              st.free)
            (inl (omega arith)) in
        let second0 =
          put b k m e end k.end loc t1.mem (omega (arith, f.low)) (omega arith) l (omega arith)
            page_end last_page
            (λ q i. local_after_lem m.local_addr m.map.mr.start end q (ground arith) i) first.order
            free in
        let mem2 = insert (range end m.map.mr.end) (piece m end m.map.mr.end loc) t1.mem in
        let second : Put b k m end m.map.mr.end t1.mem mem2 =
          subst
            (λ (r : MemoryRange).
              Put b k m end r.end t1.mem (insert (range end r.end) (piece m end r.end loc) t1.mem))
            keyed second0 in
        let free' : Apart (range end m.map.mr.end) t1.mem =
          subst (λ (r : MemoryRange). Apart (range end r.end) t1.mem) keyed free in
        let order2 : end < m.map.mr.end = ground arith in
        (
          record t1 { mem = mem2 },
          ground (
            arith,
            f.got,
            low,
            plain,
            overlap_lem prot k m e p end t start h (omega arith) page_p page_end,
            overflow_lem k m e end t1 (omega arith) l page_end,
          ),
          record {
            order = second.order;
            view = λ q. ground (arith, second.view q, first.view q, st.view q);
            clear =
                Clear-insert k.end (range end m.map.mr.end) (piece m end m.map.mr.end loc) t1.mem
                  (inl (ground arith))
                  (Clear-insert k.end (range p end) made t.mem (inl (omega arith)) st.clear);
            last = made;
            marked = refl;
            there = ground (
              arith,
              find_entry-insert (range end m.map.mr.end) (piece m end m.map.mr.end loc) order2 b
                  t1.mem p first.order free',
              find_entry-insert (range p end) made h b t.mem p st.order free_low,
            );
            keyed = refl;
          },
        )

    ends_past :
        k.end ≤ end
        → (s' : Space) × (protector prot s k (range p end) ≡ some s')
          × Repainted b prot k m p k.end s.mem s'
    unfolding protector add_to_map
    ends_past l =
        let after = f.after in
        let e = f.entry in
        let keyed : k ≡ m.map.mr = e.keyed in
        let (t, low, st0) = cut_low b p s k m f p after page_p in
        let lowest : max k.start p ≡ p = omega arith in
        let st : Stage b k m s.mem p k.end t.mem =
          subst (λ (x : ℕ). Stage b k m s.mem x k.end t.mem) lowest st0 in
        let made = overlap prot k m e p k.end in
        let last_page : IsPage k.end = ground (arith, e.map_lem.end_page) in
        let first = repaint k.end t st start after (omega arith) page_p last_page in
        let new_end : min end m.map.mr.end ≡ k.end = ground arith in
        (
          record t { mem = insert (range p k.end) made t.mem; last_overlap = some (range p k.end) },
          ground (
            arith,
            f.got,
            low,
            plain,
            new_end,
            overlap_lem prot k m e p k.end t start after (omega arith) page_p last_page,
          ),
          record {
            order = first.order;
            view = λ q. ground (arith, first.view q, st.view q);
            clear = Clear-insert k.end (range p k.end) made t.mem (inl (omega arith)) st.clear;
            last = made;
            marked = refl;
            there =
                ground
                  (arith, find_entry-insert (range p k.end) made after b t.mem p st.order st.free);
            keyed = refl;
          },
        )

    pub protector_lem :
        (s' : Space) × (protector prot s k (range p end) ≡ some s')
        × Repainted b prot k m p (min k.end end) s.mem s'
    protector_lem = elim (Bool-cases (ltb end k.end)) [
      | inl within ↦
          (let l : end < k.end = ltb→lt end k.end within in
            let (s', did, r) = ends_within l in
            (s', did, subst (λ (x : ℕ). Repainted b prot k m p x s.mem s') (omega arith) r))
      | inr past ↦
          (let l : k.end ≤ end = ground arith in
            let (s', did, r) = ends_past l in
            (s', did, subst (λ (x : ℕ). Repainted b prot k m p x s.mem s') (omega arith) r))
    ]
