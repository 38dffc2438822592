-- ===== src/AddressSpace/Around.antt =====
-- session/address_space.rs: `coalesce_around` leaves what the map says of every address.
use rd.Prelude.{
  ℕ, ◌≤◌, ◌<◌, ◌≡◌, some, [], ◌∷◌, ◌++◌, arith, refl, ap, ◌⊎◌, inl, inr, sym, ◌∙◌, subst,
  append-nil,
}
use rd.MemoryRange.{MemoryRange}
use rd.AddressSpace.MemoryMap.{Mapping, MemoryMap, range_from}
use rd.AddressSpace.View.{IsEntry, Sorted, find_entry}
use rd.AddressSpace.Space.{Space}
use rd.AddressSpace.Coalesce.{coalesce_around, backward}
use rd.AddressSpace.Zipper.{onto, Before, unzip, backward-onto, range_from-onto, located}
use rd.AddressSpace.Chain.{append_assoc, Chain-append, Clash, firsts, lasts}
use rd.AddressSpace.Run.{cmp_same, cmp-lt}
use rd.AddressSpace.Coalesced.{Same, coalesce_any}

backward-after :
    (key : MemoryRange) (seen : MemoryMap) (b : ℕ) (post : MemoryMap)
    → key.start < key.end
    → key.end ≤ b
    → Sorted b post
    → backward key seen post ≡ seen
unfolding backward
backward-after key seen b [] h g s = refl
backward-after key seen b ((k, m) ∷ post) h g s =
    rw (cmp-lt key k h (omega (arith, s.1)) s.2, backward) refl

-- What the two iterators find around an entry.
iterators :
    (c : ℕ) (back : MemoryMap) (k : MemoryRange) (m : Mapping) (post : MemoryMap)
    → Sorted c ((k, m) ∷ post)
    → Before c back
    → (backward k [] (onto back ((k, m) ∷ post)) ≡ (k, m) ∷ back)
      × (range_from k (onto back ((k, m) ∷ post)) ≡ (k, m) ∷ post)
unfolding range_from backward
iterators c back k m post s before = (
  backward-onto k c [] back ((k, m) ∷ post) before s.1
      ∙ rw (cmp_same k, backward)
          (backward-after k ((k, m) ∷ (back ++ [])) k.end post s.2 (omega arith) s.3)
      ∙ ap (λ (t : MemoryMap). (k, m) ∷ t) (append-nil back),
  range_from-onto k c back ((k, m) ∷ post) before s.1 ∙ rw (cmp_same k, range_from) refl,
)

-- `coalesce_around` once its iterators stand at an entry.
around :
    (b c : ℕ) (s : Space) (back : MemoryMap) (k : MemoryRange) (m : Mapping) (post : MemoryMap)
    → Sorted b s.mem
    → s.mem ≡ onto back ((k, m) ∷ post)
    → Sorted c ((k, m) ∷ post)
    → Before c back
    → Same b s (coalesce_around k s) ⊎ Clash s.mem
unfolding coalesce_around
around b c s back k m post o here it before =
    let (back_eq, from_eq) = iterators c back k m post it before in
    let back_s : backward k [] s.mem ≡ (k, m) ∷ back = ap (backward k []) here ∙ back_eq in
    let from_s : range_from k s.mem ≡ (k, m) ∷ post = ap (range_from k) here ∙ from_eq in
    elim (firsts k m c back it.0 before) [
      | inr clash ↦ inr (subst Clash (sym here) (clash post))
      | inl f ↦ elim (lasts k m k.end post it.0 it.3) [
        | inr clash ↦ inr (subst Clash (sym here) (clash back))
        | inl t ↦
            let whole : s.mem ≡ onto f.left (f.head ∷ ((f.run ++ t.run) ++ t.left)) =
              here
              ∙ f.split post
              ∙ ap (λ (x : MemoryMap). onto f.left (f.head ∷ (f.run ++ x))) t.split
              ∙ ap (λ (x : MemoryMap). onto f.left (f.head ∷ x))
                  (sym (append_assoc f.run t.run t.left)) in
            let (s', did, order, view) =
              coalesce_any b s f.left f.head.0 f.head.1 (f.run ++ t.run) t.end t.left o whole
                (Chain-append f.head f.run (k, m) t.run t.end f.chain t.chain) in
            inl (s', ground (arith, back_s, from_s, f.found, t.found, did), order, view)
      ]
    ]

-- Where the entries are in order and apart, all mappings are whole pages and none is monitored,
-- `coalesce_around` a key of the map ends and keeps the order and what the map says of every address
-- (all but the names of the files and their `stat`), or two neighbours in the map pass
-- is_coalescable and fail the assertions of assert_coalesceable.
pub coalesce_around-Same :
    (b : ℕ) (s : Space) (key : MemoryRange) (m : Mapping)
    → Sorted b s.mem
    → find_entry s.mem key.start ≡ some m
    → m.map.mr ≡ key
    → Same b s (coalesce_around key s) ⊎ Clash s.mem
coalesce_around-Same b s key m o found same =
    let (back, k, post, here, in_it) = located [] s.mem key.start m found in
    let (c, it, before, low) = unzip b back ((k, m) ∷ post) (subst (Sorted b) here o) in
    let e : IsEntry k m = it.0 in
    subst (λ (r : MemoryRange). Same b s (coalesce_around r s) ⊎ Clash s.mem) (e.keyed ∙ same)
      (around b c s back k m post o here it before)
