-- ===== src/AddressSpace/DontFork.antt =====
-- session/address_space.rs: the set of the ranges that madvise marks DONTFORK, a BTreeSet of
-- MemoryRange in its derived order: by start, then by end. The set is a list without a double.
use rd.Prelude.{
  ℕ, zero, suc, ◌≡◌, Bool, true, false, ◌&&◌, Option, none, some, List, [], ◌∷◌, if◌then◌else◌, ltb,
  ◌==◌, arith, refl, inl, inr, Bool-cases,
}
use rd.MemoryRange.{MemoryRange}

-- Ord::cmp is Equal
abbrev pub range_eq : MemoryRange → MemoryRange → Bool
range_eq a b = a.start == b.start && a.end == b.end

unfoldable pub set_get : MemoryRange → List MemoryRange → Option MemoryRange
set_get r [] = none
set_get r (x ∷ xs) = if range_eq x r then some x else set_get r xs

unfoldable pub set_remove : MemoryRange → List MemoryRange → List MemoryRange
set_remove r [] = []
set_remove r (x ∷ xs) = if range_eq x r then xs else x ∷ set_remove r xs

range_less : MemoryRange → MemoryRange → Bool
range_less a b = if a.start == b.start then ltb a.end b.end else ltb a.start b.start

unfoldable pub set_insert : MemoryRange → List MemoryRange → List MemoryRange
unfolding range_less
set_insert r [] = r ∷ []
set_insert r (x ∷ xs) =
    if range_eq x r then x ∷ xs else if range_less r x then r ∷ x ∷ xs else x ∷ set_insert r xs

-- The loop of `remove_range` on fuel.
unfoldable pub remove_range_loop : ℕ → List MemoryRange → MemoryRange → Option (List MemoryRange)
unfolding set_get set_remove set_insert
remove_range_loop zero ranges range = none
remove_range_loop (suc fuel) ranges range = elim (set_get range ranges) [
  | none ↦ some ranges
  | some matched_range ↦
      (let rest = set_remove matched_range ranges in
        let low =
          if ltb matched_range.start range.start
          then set_insert (record { start = matched_range.start; end = range.start }) rest
          else rest in
        let high =
          if ltb range.end matched_range.end
          then set_insert (record { start = range.end; end = matched_range.end }) low
          else low in
        remove_range_loop fuel high range)
]

-- Two rounds are enough: the second one finds nothing.
unfoldable pub remove_range : List MemoryRange → MemoryRange → Option (List MemoryRange)
unfolding remove_range_loop
remove_range ranges range = remove_range_loop 2 ranges range

unfoldable pub add_range : List MemoryRange → MemoryRange → Option (List MemoryRange)
unfolding remove_range set_insert
add_range ranges range = elim (remove_range ranges range) [
  | none ↦ none
  | some rest ↦ some (set_insert range rest)
]

abbrev pub has : MemoryRange → List MemoryRange → Bool
has r [] = false
has r (x ∷ xs) = if range_eq x r then true else has r xs

abbrev pub Distinct : List MemoryRange → Type 0
Distinct [] = Unit
Distinct (x ∷ xs) = (has x xs ≡ false) × Distinct xs

get_none : (r : MemoryRange) (xs : List MemoryRange) → has r xs ≡ false → set_get r xs ≡ none
unfolding set_get
get_none r [] h = refl
get_none r (x ∷ xs) h = ground (arith, get_none r xs)

get_some : (r : MemoryRange) (xs : List MemoryRange) → has r xs ≡ true → set_get r xs ≡ some r
unfolding set_get
get_some r [] h = absurd (cc)
get_some r (x ∷ xs) h = ground (arith, get_some r xs)

-- Without a double, what is removed is gone and nothing else.
has-remove :
    (r t : MemoryRange) (xs : List MemoryRange)
    → Distinct xs
    → has t (set_remove r xs) ≡ (if range_eq t r then false else has t xs)
unfolding set_remove
has-remove r t [] d = ground arith
has-remove r t (x ∷ xs) d = ground (arith, has-remove r t xs d.1, d.0)

has-insert :
    (r t : MemoryRange) (xs : List MemoryRange)
    → has t (set_insert r xs) ≡ (if range_eq t r then true else has t xs)
unfolding set_insert
has-insert r t [] = ground arith
has-insert r t (x ∷ xs) = ground (arith, has-insert r t xs)

-- What `remove_range` leaves: the set as it is, or without the one range.
rest_of : List MemoryRange → MemoryRange → List MemoryRange
rest_of ranges range = if has range ranges then set_remove range ranges else ranges

remove_range_lem :
    (ranges : List MemoryRange) (range : MemoryRange)
    → Distinct ranges
    → remove_range ranges range ≡ some (rest_of ranges range)
unfolding remove_range rest_of
remove_range_lem ranges range d = elim (Bool-cases (has range ranges)) [
  | inr away ↦ ground (arith, get_none range ranges away)
  | inl there ↦ ground (
    arith,
    get_some range ranges there,
    has-remove range range ranges d,
    get_none range (set_remove range ranges),
  )
]

-- In a set without a double, both operations end. After `remove_range` the set holds what it held
-- except the range itself: a range that only overlaps it stays as it is. After `add_range` it holds
-- what it held and the range.
pub remove_range-add_range :
    (ranges : List MemoryRange) (range : MemoryRange)
    → Distinct ranges
    → (rest : List MemoryRange) × (more : List MemoryRange) × (remove_range ranges range
        ≡ some rest)
      × (add_range ranges range ≡ some more)
      × ((t : MemoryRange) → has t rest ≡ (if range_eq t range then false else has t ranges))
      × ((t : MemoryRange) → has t more ≡ (if range_eq t range then true else has t ranges))
unfolding add_range rest_of
remove_range-add_range ranges range d = (
  rest_of ranges range,
  set_insert range (rest_of ranges range),
  remove_range_lem ranges range d,
  rw (remove_range_lem ranges range d, add_range) refl,
  λ t. ground (arith, has-remove range t ranges d),
  λ t. ground (arith, has-remove range t ranges d, has-insert range t (rest_of ranges range)),
)
