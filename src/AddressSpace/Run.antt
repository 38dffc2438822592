-- ===== src/AddressSpace/Run.antt =====
-- session/address_space.rs: a run of coalescing entries in the map: its keys, the map without it,
-- and what it says of each address.
use rd.Prelude.{
  ℕ, ◌≤◌, ◌<◌, ◌≡◌, some, List, [], ◌∷◌, ◌++◌, if◌then◌else◌, arith, refl, ◌⊎◌, inl, inr, ◌∙◌,
  subst, lt, eq, gt,
}
use rd.MemoryRange.{MemoryRange, cmp, intersects}
use rd.AddressSpace.MemoryMap.{Mapping, MemoryMap}
use rd.AddressSpace.View.{IsEntry, Sorted, find_entry, inside, page_at}
use rd.AddressSpace.Coalesce.{Entry, keys_between}
use rd.AddressSpace.Joined.{Joined}
use rd.AddressSpace.Chain.{Chain}
use rd.AddressSpace.Piece.{page, range}

-- The facts of the run that starts at `e`, has `run` after it, ends at `l` and is followed by `post`.
pub record IsRun (e l : Entry) (run post : MemoryMap) : Type 0 where
  pub order : e.0.end ≤ l.0.end
  pub ends : l.0.start < l.0.end
  pub entry : IsEntry l.0 l.1
  pub apart : (e.0 ≡ l.0) ⊎ (e.0.end ≤ l.0.start)
  pub rest : Sorted l.0.end post
  pub agree : (q : ℕ) → l.0.start ≤ q → page_at e.1 q ≡ page_at l.1 q
  pub starts : e.0.start ≤ l.0.start
  pub view :
      (q : ℕ)
      → page (e ∷ (run ++ post)) q
        ≡ (if inside (range e.0.start l.0.end) q then some (page_at e.1 q) else page post q)

IsRun-one :
    (c : ℕ) (k : MemoryRange) (m : Mapping) (post : MemoryMap)
    → Sorted c ((k, m) ∷ post)
    → IsRun (k, m) (k, m) [] post
unfolding find_entry
IsRun-one c k m post s = record {
  order = omega arith;
  ends = s.2;
  entry = s.0;
  apart = inl refl;
  rest = s.3;
  agree = λ q h. refl;
  starts = omega arith;
  view = λ q. ground arith;
}

IsRun-more :
    (c : ℕ) (k : MemoryRange) (m : Mapping) (x l : Entry) (xs post : MemoryMap)
    → Sorted c ((k, m) ∷ x ∷ (xs ++ post))
    → Joined m x.1
    → IsRun x l xs post
    → IsRun (k, m) l (x ∷ xs) post
unfolding find_entry
IsRun-more c k m x l xs post s j r =
    let ex : IsEntry x.0 x.1 = s.3.0 in
    let em : IsEntry k m = s.0 in
    let keyed_x : x.0 ≡ x.1.map.mr = ex.keyed in
    let keyed : k ≡ m.map.mr = em.keyed in
    let meet : k.end ≡ x.0.start = ground (arith, j.meet) in
    let order_x : x.0.start < x.0.end = s.3.2 in
    record {
      order = omega (arith, r.order);
      ends = r.ends;
      entry = r.entry;
      apart = inr (elim (r.apart) [ inl same ↦ ground arith | inr before ↦ omega arith ]);
      rest = r.rest;
      agree = λ q h. j.agree q (ground (arith, r.starts)) ∙ r.agree q h;
      starts = omega (arith, r.starts, s.2);
      view = λ q. ground (arith, r.view q, j.agree q, r.order, s.2);
    }

pub run_lem :
    (c : ℕ) (e l : Entry) (run post : MemoryMap)
    → Sorted c (e ∷ (run ++ post))
    → Chain e run l
    → IsRun e l run post
run_lem c (k, m) l [] post s ch =
    subst (λ (x : Entry). IsRun (k, m) x [] post) ch (IsRun-one c k m post s)
run_lem c (k, m) l (x ∷ xs) post s ch =
    IsRun-more c k m x l xs post s ch.0 (run_lem k.end x l xs post s.3 ch.1)

abbrev pub keys : MemoryMap → List MemoryRange
keys [] = []
keys (e ∷ mem) = e.0 ∷ keys mem

pub cmp_same : (k : MemoryRange) → cmp k k ≡ eq
unfolding cmp intersects
cmp_same k = ground arith

pub cmp-lt :
    (k j : MemoryRange) → k.start < k.end → k.end ≤ j.start → j.start < j.end → cmp k j ≡ lt
unfolding cmp intersects
cmp-lt k j h l g = ground arith

cmp-gt : (k j : MemoryRange) → k.start < k.end → k.end ≤ j.start → cmp j k ≡ gt
unfolding cmp intersects
cmp-gt k j h l = ground arith

-- No key after the last one.
keys_past :
    (first_k last_k : MemoryRange) (post : MemoryMap)
    → first_k.start < first_k.end
    → last_k.start < last_k.end
    → (first_k ≡ last_k) ⊎ (first_k.end ≤ last_k.start)
    → Sorted last_k.end post
    → keys_between first_k last_k post ≡ []
unfolding keys_between
keys_past f l [] h g a s = refl
keys_past f l ((k, m) ∷ post) h g a s =
    let past : cmp l k ≡ lt = cmp-lt l k g s.1 s.2 in
    let low : f.end ≤ k.start = elim a [ inl same ↦ ground arith | inr before ↦ omega arith ] in
    ground (arith, past, cmp-lt f k h low s.2)

pub keys_run :
    (f : MemoryRange) (c : ℕ) (e l : Entry) (run post : MemoryMap)
    → f.start < f.end
    → (f ≡ e.0) ⊎ (f.end ≤ e.0.start)
    → Sorted c (e ∷ (run ++ post))
    → Chain e run l
    → keys_between f l.0 (e ∷ (run ++ post)) ≡ keys (e ∷ run)
unfolding keys_between
keys_run f c (k, m) l [] post h a s ch =
    let order : k.start < k.end = s.2 in
    let past = keys_past f k post h s.2 a s.3 in
    subst (λ (x : Entry). keys_between f x.0 ((k, m) ∷ post) ≡ k ∷ []) ch
      (elim a [
        | inl same ↦ ground (arith, cmp_same k, past)
        | inr before ↦ ground (arith, cmp_same k, cmp-lt f k h before s.2, past)
      ])
keys_run f c (k, m) l (x ∷ xs) post h a s ch =
    let r = run_lem k.end x l xs post s.3 ch.1 in
    let order : k.start < k.end = s.2 in
    let low : k.end ≤ x.0.start = s.3.1 in
    let order_x : x.0.start < x.0.end = s.3.2 in
    let before_l : k.end ≤ l.0.start = elim (r.apart) [
      | inl same ↦ ground arith
      | inr before ↦ omega arith
    ] in
    let before_x : f.end ≤ x.0.start = elim a [
      | inl same ↦ ground arith
      | inr before ↦ omega arith
    ] in
    let next = keys_run f k.end x l xs post h (inr before_x) s.3 ch.1 in
    elim a [
      | inl same ↦ ground (arith, cmp_same k, cmp-gt k l.0 s.2 before_l, next)
      | inr before ↦ ground (arith, cmp-lt f k h before s.2, cmp-gt k l.0 s.2 before_l, next)
    ]
