-- ===== src/Scheduler/PrioritySet.antt =====
-- priority_tup.rs, and the sets of PriorityTup that scheduler.rs keeps. A BTreeSet of them is the
-- list of its elements in order. A task is known by an identity, which stands for the weak pointer.
-- A priority is an i32 shifted by 2 ^ 31, so that the order of the numbers is the order of the
-- priorities.
use rd.Prelude.{
  ℕ, ◌<◌, ◌==◌, Bool, true, false, ◌&&◌, List, [], ◌∷◌, Ordering, compare, lt, eq, gt, ◌≡◌, ◌⊎◌,
  arith,
}

pub record PriorityTup : Type 0 where
  pub priority : ℕ
  pub stable_serial : ℕ
  pub task : ℕ

-- Ord::cmp
unfoldable pub cmp : PriorityTup → PriorityTup → Ordering
cmp p q = elim (compare p.priority q.priority) [
  | lt ↦ lt
  | eq ↦ compare p.stable_serial q.stable_serial
  | gt ↦ gt
]

-- PartialEq::eq
unfoldable pub same_key : PriorityTup → PriorityTup → Bool
same_key p q = (p.priority == q.priority) && (p.stable_serial == q.stable_serial)

-- BTreeSet::insert, which leaves an element with an equal key as it is
unfoldable pub insert : PriorityTup → List PriorityTup → List PriorityTup
insert p [] = p ∷ []
insert p (q ∷ set) =
    let rest = insert p set in elim (cmp p q) [ lt ↦ p ∷ q ∷ set | eq ↦ q ∷ set | gt ↦ q ∷ rest ]

-- BTreeSet::remove
unfoldable pub remove : PriorityTup → List PriorityTup → List PriorityTup
remove p [] = []
remove p (q ∷ set) =
    let rest = remove p set in elim (cmp p q) [ lt ↦ q ∷ set | eq ↦ set | gt ↦ q ∷ rest ]

-- BTreeSet::contains
unfoldable pub contains : PriorityTup → List PriorityTup → Bool
contains p [] = false
contains p (q ∷ set) =
    let rest = contains p set in elim (cmp p q) [ lt ↦ false | eq ↦ true | gt ↦ rest ]

-- p is less than every element.
unfoldable pub Below : PriorityTup → List PriorityTup → Type 0
Below p [] = Unit
Below p (q ∷ set) = (cmp p q ≡ lt) × Below p set

unfoldable pub Sorted : List PriorityTup → Type 0
Sorted [] = Unit
Sorted (p ∷ set) = Below p set × Sorted set

Less : PriorityTup → PriorityTup → Type 0
Less p q =
    (p.priority < q.priority) ⊎ ((p.priority ≡ q.priority) × (p.stable_serial < q.stable_serial))

pub cmp_trans : (p q r : PriorityTup) → cmp p q ≡ lt → cmp q r ≡ lt → cmp p r ≡ lt
unfolding cmp
cmp_trans p q r h k = ground arith

pub cmp_flip : (p q : PriorityTup) → cmp p q ≡ gt → cmp q p ≡ lt
unfolding cmp
cmp_flip p q h = ground arith

pub cmp_key : (p q : PriorityTup) → cmp p q ≡ eq → same_key p q ≡ true
unfolding cmp same_key
cmp_key p q h = ground arith

pub key_cmp : (p q : PriorityTup) → same_key p q ≡ true → cmp p q ≡ eq
unfolding cmp same_key
key_cmp p q h = ground arith
