-- ===== src/AddressSpace/Coalesced.antt =====
-- session/address_space.rs: `coalesce` of a run leaves what the map says of every
-- address.
use rd.Prelude.{
  ℕ, ◌≤◌, ◌<◌, ◌^◌, ◌≡◌, true, false, Option, none, some, [], ◌∷◌, ◌++◌, arith, refl, ap, inl, sym,
  ◌∙◌, subst,
}
use rd.Util.{IsPage}
use rd.MemoryRange.{MemoryRange, intersects, same_key}
use rd.AddressSpace.KernelMapping.{KernelMapping, is_real_device}
use rd.AddressSpace.Parts.{IsMapping, extend_lem}
use rd.AddressSpace.MemoryMap.{Mapping, MemoryMap, get, remove, insert}
use rd.AddressSpace.View.{IsEntry, Sorted, find_entry, page_at, attributes}
use rd.AddressSpace.Space.{Space}
use rd.AddressSpace.Coalesce.{Entry, keys_between, remove_all, coalesce}
use rd.AddressSpace.Zipper.{
  onto, Before, unzip, rezip, page-onto, remove-onto, get-onto, insert-onto, keys_between-onto,
}
use rd.AddressSpace.Chain.{Chain}
use rd.AddressSpace.Run.{run_lem, keys, keys_run, cmp_same, cmp-lt}
use rd.AddressSpace.Piece.{page, range}

remove_run :
    (b c : ℕ) (back xs post : MemoryMap)
    → Before c back
    → c ≤ b
    → Sorted b (xs ++ post)
    → remove_all (keys xs) (onto back (xs ++ post)) ≡ onto back post
unfolding remove_all
remove_run b c back [] post s h o = refl
remove_run b c back ((k, m) ∷ xs) post s h o =
    ap (remove_all (keys xs)) (
      remove-onto k c back ((k, m) ∷ (xs ++ post)) s (omega (arith, o.1))
      ∙ ap (onto back) (rw (cmp_same k, remove) refl))
    ∙ remove_run k.end c back xs post s (omega (arith, o.1, o.2)) o.3

-- No entry from `key.end` on has the key.
get-after :
    (key : MemoryRange) (b : ℕ) (post : MemoryMap)
    → key.start < key.end
    → key.end ≤ b
    → Sorted b post
    → get key post ≡ none
unfolding get
get-after key b [] h g s = refl
get-after key b ((k, m) ∷ post) h g s = ground (
  arith,
  cmp-lt key k h (omega (arith, s.1)) s.2,
  get-after key k.end post h (omega (arith, s.1, s.2)) s.3,
)

insert-after :
    (key : MemoryRange) (n : Mapping) (b : ℕ) (post : MemoryMap)
    → key.start < key.end
    → key.end ≤ b
    → Sorted b post
    → insert key n post ≡ (key, n) ∷ post
unfolding insert
insert-after key n b [] h g s = refl
insert-after key n b ((k, m) ∷ post) h g s = ground (arith, cmp-lt key k h (omega (arith, s.1)) s.2)

-- The mapping that takes the place of the run.
abbrev merged : Mapping → ℕ → Mapping
merged m end = record m {
  map = record m.map { mr = record { start = m.map.mr.start; end = end } };
  recorded_map = record m.recorded_map {
    mr = record { start = m.recorded_map.mr.start; end = end };
  };
}

page_at-merged : (m : Mapping) (end q : ℕ) → page_at (merged m end) q ≡ page_at m q
unfolding page_at is_real_device
page_at-merged m end q = refl

-- The wider mapping still has all its bytes in the file.
wider :
    (x y : KernelMapping)
    → IsMapping x
    → IsMapping y
    → x.mr.start ≤ y.mr.start
    → attributes x y.mr.start ≡ attributes y y.mr.start
    → IsMapping (record x { mr = record { start = x.mr.start; end = y.mr.end } })
unfolding is_real_device
wider x y v w h a = record {
  order = omega (arith, w.order);
  start_page = v.start_page;
  bound = w.bound;
  end_page = w.end_page;
  masked = v.masked;
  offset_page = v.offset_page;
  fits = ground (arith, v.order, w.order, w.fits, v.fits);
}

merged-IsEntry :
    (k l : MemoryRange) (m n : Mapping)
    → IsEntry k m
    → IsEntry l n
    → k.start ≤ l.start
    → page_at m l.start ≡ page_at n l.start
    → IsEntry (range k.start l.end) (merged m l.end)
unfolding page_at
merged-IsEntry k l m n e el h a =
    let keyed_k : k ≡ m.map.mr = e.keyed in
    let keyed_l : l ≡ n.map.mr = el.keyed in
    let range_m : m.recorded_map.mr ≡ m.map.mr = e.recorded_range in
    let range_n : n.recorded_map.mr ≡ n.map.mr = el.recorded_range in
    let main : attributes m.map l.start ≡ attributes n.map l.start = λ i. (a i).map in
    let other : attributes m.recorded_map l.start ≡ attributes n.recorded_map l.start =
      λ i. (a i).recorded_map in
    let at_map : attributes m.map n.map.mr.start ≡ attributes n.map n.map.mr.start =
      subst (λ (r : MemoryRange). attributes m.map r.start ≡ attributes n.map r.start) keyed_l
        main in
    let at_recorded : attributes m.recorded_map n.recorded_map.mr.start
        ≡ attributes n.recorded_map n.recorded_map.mr.start =
      subst
        (λ (r : MemoryRange). attributes m.recorded_map r.start ≡ attributes n.recorded_map r.start)
        (keyed_l ∙ sym range_n) other in
    let end_l : n.map.mr.end ≡ l.end = ground arith in
    let end_r : n.recorded_map.mr.end ≡ l.end = ground arith in
    record {
      keyed = ground arith;
      map_lem =
          subst
            (λ (t : ℕ).
              IsMapping (record m.map { mr = record { start = m.map.mr.start; end = t } }))
            end_l (wider m.map n.map e.map_lem el.map_lem (ground arith) at_map);
      recorded_range = ground arith;
      recorded_lem =
          subst
            (λ (t : ℕ).
              IsMapping (record m.recorded_map {
                mr = record { start = m.recorded_map.mr.start; end = t };
              }))
            end_r
            (wider m.recorded_map n.recorded_map e.recorded_lem el.recorded_lem (ground arith)
              at_recorded);
      unmonitored = e.unmonitored;
    }

-- The result of a step that is not seen from outside.
abbrev pub Same : ℕ → Space → Option Space → Type 0
Same b s r =
    (s' : Space) × (r ≡ some s') × Sorted b s'.mem × ((q : ℕ) → page s'.mem q ≡ page s.mem q)

apart_keys :
    (k l : MemoryRange) → k.start < k.end → l.start < l.end → k.end ≤ l.start → same_key k l ≡ false
unfolding same_key intersects
apart_keys k l h g a = ground arith

same_keys : (k : MemoryRange) → same_key k k ≡ true
unfolding same_key intersects
same_keys k = ground arith

module _ (b : ℕ) (s : Space) (left : MemoryMap) (k : MemoryRange) (m : Mapping) (run : MemoryMap)
    (l : Entry) (post : MemoryMap) (o : Sorted b s.mem)
    (here : s.mem ≡ onto left ((k, m) ∷ (run ++ post))) where
  tail_order : (c : ℕ) × Sorted c ((k, m) ∷ (run ++ post)) × Before c left × (b ≤ c)
  tail_order = unzip b left ((k, m) ∷ (run ++ post)) (subst (Sorted b) here o)

  coalesce_run : Chain (k, m) run l → k.end ≤ l.0.start → Same b s (coalesce (k, m) l s)
  unfolding coalesce find_entry
  coalesce_run ch apart =
      let (c, it, before, low) = tail_order in
      let r = run_lem c (k, m) l run post it ch in
      let e : IsEntry k m = it.0 in
      let order : k.start < k.end = it.2 in
      let low_k : c ≤ k.start = it.1 in
      let keyed : k ≡ m.map.mr = e.keyed in
      let el = r.entry in
      let keyed_l : l.0 ≡ l.1.map.mr = el.keyed in
      let range_m : m.recorded_map.mr ≡ m.map.mr = e.recorded_range in
      let ends = r.ends in
      let starts = r.starts in
      let key = range m.map.mr.start l.0.end in
      let new_m = merged m l.0.end in
      let start : k.start ≡ m.map.mr.start = ground arith in
      let page_end : IsPage l.0.end = ground (arith, el.map_lem.end_page) in
      let bound : l.0.end < 2 ^ 64 = ground (arith, el.map_lem.bound) in
      let found : keys_between k l.0 s.mem ≡ keys ((k, m) ∷ run) =
        ap (keys_between k l.0) here
        ∙ keys_between-onto k l.0 c left ((k, m) ∷ (run ++ post)) before low_k
        ∙ keys_run k c (k, m) l run post order (inl refl) it ch in
      let kept : remove_all (keys_between k l.0 s.mem) s.mem ≡ onto left post =
        (λ i. remove_all (found i) (here i))
        ∙ remove_run c c left ((k, m) ∷ run) post before (omega arith) it in
      let vacant : get key (onto left post) ≡ none =
        get-onto key c left post before (omega arith)
        ∙ get-after key l.0.end post (omega arith) (omega arith) r.rest in
      let placed : insert key new_m (onto left post) ≡ onto left ((key, new_m) ∷ post) =
        insert-onto key new_m c left post before (omega arith)
        ∙ ap (onto left) (insert-after key new_m l.0.end post (omega arith) (omega arith) r.rest) in
      let other : same_key k l.0 ≡ false = apart_keys k l.0 order ends apart in
      let wide = extend_lem m.map e.map_lem l.0.end (ground (arith, r.order)) bound page_end in
      let wide_recorded =
        extend_lem m.recorded_map e.recorded_lem l.0.end (ground (arith, r.order)) bound page_end in
      let entry : IsEntry key new_m =
        subst (λ (t : ℕ). IsEntry (range t l.0.end) new_m) start
          (merged-IsEntry k l.0 m l.1 e el starts (r.agree l.0.start (omega arith))) in
      (
        record s { mem = onto left ((key, new_m) ∷ post) },
        ground (arith, other, wide, wide_recorded, kept, vacant, placed),
        rezip b left ((k, m) ∷ (run ++ post)) ((key, new_m) ∷ post)
            (λ d t. (entry, omega (arith, t.1), omega arith, r.rest)) (subst (Sorted b) here o),
        λ q.
            page-onto left ((key, new_m) ∷ post) ((k, m) ∷ (run ++ post)) q
              (ground (arith, r.view q, page_at-merged m l.0.end q))
            ∙ ap (λ (mem : MemoryMap). page mem q) (sym here),
      )

coalesce_one : (b : ℕ) (s : Space) (e : Entry) → Sorted b s.mem → Same b s (coalesce e e s)
unfolding coalesce
coalesce_one b s e o = (s, ground (arith, same_keys e.0), o, λ q. refl)

pub coalesce_any :
    (b : ℕ) (s : Space) (left : MemoryMap) (k : MemoryRange) (m : Mapping) (run : MemoryMap)
    (l : Entry) (post : MemoryMap)
    → Sorted b s.mem
    → s.mem ≡ onto left ((k, m) ∷ (run ++ post))
    → Chain (k, m) run l
    → Same b s (coalesce (k, m) l s)
coalesce_any b s left k m [] l post o here ch =
    subst (λ (x : Entry). Same b s (coalesce (k, m) x s)) ch (coalesce_one b s (k, m) o)
coalesce_any b s left k m (x ∷ xs) l post o here ch =
    let (c, it, before, low) = tail_order b s left k m (x ∷ xs) l post o here in
    let r = run_lem k.end x l xs post it.3 ch.1 in
    let first : k.end ≤ x.0.start = it.3.1 in
    coalesce_run b s left k m (x ∷ xs) l post o here ch (omega (arith, r.starts))
