-- ===== src/AddressSpace/Stage.antt =====
-- session/address_space.rs: one mapping taken out of the map, and its two ends put back: what lies
-- between them is free.
use rd.Prelude.{ℕ, ◌-◌, ◌≤◌, ◌<◌, ◌≡◌, Option, none, some, if◌then◌else◌, arith, refl, inl, inr}
use rd.Util.{IsPage}
use rd.MemoryRange.{MemoryRange}
use rd.AddressSpace.MemoryMap.{Mapping, MemoryMap, insert, remove}
use rd.AddressSpace.View.{Sorted, Apart, inside, page_at, local_at, Apart-within}
use rd.AddressSpace.Clear.{Clear, Clear-remove, Clear-insert}
use rd.AddressSpace.First.{First}
use rd.AddressSpace.Space.{local_after}
use rd.AddressSpace.Piece.{page, range, piece, put}

-- Of the mapping `m` at `k` only the addresses from `lo` to `hi` are free in `mem`.
pub record Stage (b : ℕ) (k : MemoryRange) (m : Mapping) (old : MemoryMap) (lo hi : ℕ)
    (mem : MemoryMap) : Type 0 where
  pub order : Sorted b mem
  pub view :
      (q : ℕ)
      → page mem q ≡ (
          if inside k q
          then (if inside (range lo hi) q then none else some (page_at m q))
          else page old q)
  pub free : Apart (range lo hi) mem
  pub clear : Clear k.end mem

pub local_after_lem :
    (l : Option ℕ) (start hi q : ℕ)
    → start ≤ hi
    → hi ≤ q
    → local_at (local_after l (hi - start)) (q - hi) ≡ local_at l (q - start)
unfolding local_at local_after
local_after_lem none start hi q h i = refl
local_after_lem (some a) start hi q h i = ground arith

module _ (b p : ℕ) (old : MemoryMap) (k : MemoryRange) (m : Mapping) (f : First b p old k m) where
  pub taken_out : Stage b k m old k.start k.end (remove k old)
  taken_out = record {
    order = f.removed_order;
    view = λ q. ground (arith, f.removed q);
    free = f.removed_apart;
    clear = Clear-remove k.end k old f.clear;
  }

  pub put_low :
      (lo hi : ℕ) (mem : MemoryMap)
      → Stage b k m old k.start hi mem
      → k.start < lo
      → lo < hi
      → hi ≤ k.end
      → IsPage lo
      → Stage b k m old lo hi (insert (range k.start lo) (piece m k.start lo m.local_addr) mem)
  put_low lo hi mem s h l g page_lo =
      let e = f.entry in
      let keyed : k ≡ m.map.mr = e.keyed in
      let within =
        Apart-within (range k.start hi) (range k.start lo) mem (omega arith) (omega arith) s.free in
      let first_page : IsPage k.start = ground (arith, e.map_lem.start_page) in
      let done =
        put b k m e k.start lo m.local_addr mem f.low (omega arith) h (omega arith) first_page
          page_lo (λ q i. ground arith) s.order within in
      record {
        order = done.order;
        view = λ q. ground (arith, done.view q, s.view q);
        free =
            done.apart (range lo hi)
              (Apart-within (range k.start hi) (range lo hi) mem (omega arith) (omega arith) s.free)
              (inl (omega arith));
        clear =
            Clear-insert k.end (range k.start lo) (piece m k.start lo m.local_addr) mem
              (inl (omega arith)) s.clear;
      }

  pub put_high :
      (lo hi : ℕ) (mem : MemoryMap)
      → Stage b k m old lo k.end mem
      → k.start ≤ lo
      → lo < hi
      → hi < k.end
      → IsPage hi
      → Stage b k m old lo hi (
          insert
            (range hi k.end)
            (piece m hi k.end (local_after m.local_addr (hi - m.map.mr.start)))
            mem)
  put_high lo hi mem s h l g page_hi =
      let e = f.entry in
      let keyed : k ≡ m.map.mr = e.keyed in
      let loc = local_after m.local_addr (hi - m.map.mr.start) in
      let within =
        Apart-within (range lo k.end) (range hi k.end) mem (omega arith) (omega arith) s.free in
      let last_page : IsPage k.end = ground (arith, e.map_lem.end_page) in
      let done =
        put b k m e hi k.end loc mem (omega (arith, f.low)) (omega arith) g (omega arith) page_hi
          last_page (λ q i. local_after_lem m.local_addr m.map.mr.start hi q (ground arith) i)
          s.order within in
      record {
        order = done.order;
        view = λ q. ground (arith, done.view q, s.view q);
        free =
            done.apart (range lo hi)
              (Apart-within (range lo k.end) (range lo hi) mem (omega arith) (omega arith) s.free)
              (inr (omega arith));
        clear =
            Clear-insert k.end (range hi k.end) (piece m hi k.end loc) mem (inl (omega arith))
              s.clear;
      }
