-- ===== src/Scheduler/Entries.antt =====
-- Order of the sets of PriorityTup, and how often a task stands in them.
use rd.Prelude.{
  ℕ, ◌+◌, ◌-◌, ◌==◌, if◌then◌else◌, false, List, [], ◌∷◌, Ordering, lt, eq, gt, ◌≡◌, refl, ap, ◌⊎◌,
  inl, inr, arith,
}
use rd.Scheduler.PrioritySet.{
  PriorityTup, cmp, same_key, insert, remove, contains, Below, Sorted, cmp_trans, cmp_flip, cmp_key,
  key_cmp,
}

pub Ordering-cases : (o : Ordering) → (o ≡ lt) ⊎ ((o ≡ eq) ⊎ (o ≡ gt))
Ordering-cases lt = inl refl
Ordering-cases eq = inr (inl refl)
Ordering-cases gt = inr (inr refl)

pub Below-trans :
    (p q : PriorityTup) (set : List PriorityTup) → cmp p q ≡ lt → Below q set → Below p set
unfolding Below
Below-trans p q [] h b = b
Below-trans p q (r ∷ set) h b = (cmp_trans p q r h b.0, Below-trans p q set h b.1)

pub Below-insert :
    (r p : PriorityTup) (set : List PriorityTup)
    → cmp r p ≡ lt
    → Below r set
    → Below r (insert p set)
unfolding Below insert
Below-insert r p [] h b = (h, b)
Below-insert r p (q ∷ set) h b = elim (Ordering-cases (cmp p q)) [
  | inl e ↦ rw (e, Below) (h, b)
  | inr (inl e) ↦ rw (e, Below) b
  | inr (inr e) ↦ rw (e, Below) (b.0, Below-insert r p set h b.1)
]

pub Sorted-insert : (p : PriorityTup) (set : List PriorityTup) → Sorted set → Sorted (insert p set)
unfolding Sorted insert Below
Sorted-insert p [] h = (tt, tt)
Sorted-insert p (q ∷ set) h = elim (Ordering-cases (cmp p q)) [
  | inl e ↦ rw (e, Sorted, Below) ((e, Below-trans p q set e h.0), h)
  | inr (inl e) ↦ rw (e, Sorted, Below) h
  | inr (inr e) ↦
      rw (e, Sorted, Below) (Below-insert q p set (cmp_flip p q e) h.0, Sorted-insert p set h.1)
]

pub Below-remove :
    (r p : PriorityTup) (set : List PriorityTup) → Below r set → Below r (remove p set)
unfolding Below remove
Below-remove r p [] b = b
Below-remove r p (q ∷ set) b = elim (Ordering-cases (cmp p q)) [
  | inl e ↦ rw (e, Below) b
  | inr (inl e) ↦ rw (e, Below) b.1
  | inr (inr e) ↦ rw (e, Below) (b.0, Below-remove r p set b.1)
]

pub Sorted-remove : (p : PriorityTup) (set : List PriorityTup) → Sorted set → Sorted (remove p set)
unfolding Sorted remove
Sorted-remove p [] h = h
Sorted-remove p (q ∷ set) h = elim (Ordering-cases (cmp p q)) [
  | inl e ↦ rw (e, Sorted) h
  | inr (inl e) ↦ rw (e, Sorted) h.1
  | inr (inr e) ↦ rw (e, Sorted) (Below-remove q p set h.0, Sorted-remove p set h.1)
]

-- How many elements are for the task.
unfoldable pub entries : ℕ → List PriorityTup → ℕ
entries t [] = 0
entries t (q ∷ set) = (if q.task == t then 1 else 0) + entries t set

-- An element has the key of p exactly if it is for the task of p.
unfoldable pub Matches : PriorityTup → List PriorityTup → Type 0
Matches p [] = Unit
Matches p (q ∷ set) = (same_key p q ≡ (q.task == p.task)) × Matches p set

entries-Below :
    (p : PriorityTup) (set : List PriorityTup)
    → Below p set
    → Matches p set
    → entries p.task set ≡ 0
unfolding entries Matches Below
entries-Below p [] b m = refl
entries-Below p (q ∷ set) b m = ground (arith, entries-Below p set b.1 m.1, key_cmp p q, m.0, b.0)

pub contains-entries :
    (p : PriorityTup) (set : List PriorityTup)
    → Matches p set
    → entries p.task set ≡ 0
    → contains p set ≡ false
unfolding entries Matches contains
contains-entries p [] m h = refl
contains-entries p (q ∷ set) m h =
    ground (arith, Ordering-cases (cmp p q), cmp_key p q, m.0, contains-entries p set m.1)

pub entries-insert :
    (t : ℕ) (p : PriorityTup) (set : List PriorityTup)
    → contains p set ≡ false
    → entries t (insert p set) ≡ (if p.task == t then 1 else 0) + entries t set
unfolding entries insert contains
entries-insert t p [] h = refl
entries-insert t p (q ∷ set) h = ground (arith, Ordering-cases (cmp p q), entries-insert t p set)

same_task :
    (p : PriorityTup) (t : ℕ) (set : List PriorityTup)
    → p.task ≡ t
    → entries p.task set ≡ entries t set
same_task p t set h = ap (λ x. entries x set) h

pub entries-remove :
    (t : ℕ) (p : PriorityTup) (set : List PriorityTup)
    → Sorted set
    → Matches p set
    → entries t (remove p set) ≡ entries t set - (if p.task == t then 1 else 0)
unfolding entries remove Matches Sorted Below
entries-remove t p [] s m = ground arith
entries-remove t p (q ∷ set) s m = elim (Ordering-cases (cmp p q)) [
  | inl e ↦ ground (
    arith,
    e,
    key_cmp p q,
    m.0,
    entries-Below p set (Below-trans p q set e s.0) m.1,
    same_task p t set,
  )
  | inr (inl e) ↦ ground (arith, e, cmp_key p q, m.0)
  | inr (inr e) ↦ ground (arith, e, key_cmp p q, m.0, entries-remove t p set s.1 m.1)
]
