-- ===== src/GdbConnection/ByteSearch.antt =====
-- `memchr` of the memchr crate, as its documentation has it: the index of the first byte that is
-- equal to the needle, or none.
use rd.Prelude.{
  ℕ, suc, ◌≡◌, ◌≢◌, refl, Option, none, some, List, [], ◌∷◌, ◌++◌, arith, length, ◌==◌,
  if◌then◌else◌,
}

-- The index of the first `needle`.
abbrev pub first_index : ℕ → List ℕ → Option ℕ
first_index needle [] = none
first_index needle (b ∷ bs) =
    if b == needle
    then some 0
    else elim (first_index needle bs) [ none ↦ none | some i ↦ some (suc i) ]

pub record Memchr : Type 0 where
  pub memchr : ℕ → List ℕ → Option ℕ
  pub memchr_lem :
      (needle : ℕ) (haystack : List ℕ) → memchr needle haystack ≡ first_index needle haystack

-- No byte of the list is `c`.
abbrev pub Lacks : ℕ → List ℕ → Type 0
Lacks c [] = Unit
Lacks c (b ∷ bs) = (b ≢ c) × Lacks c bs

pub first_index-Lacks : (c : ℕ) (bs : List ℕ) → Lacks c bs → first_index c bs ≡ none
first_index-Lacks c [] h = refl
first_index-Lacks c (b ∷ bs) h = ground (arith, first_index-Lacks c bs h.1)

pub first_index-append :
    (c : ℕ) (bs rest : List ℕ) → Lacks c bs → first_index c (bs ++ c ∷ rest) ≡ some (length bs)
first_index-append c [] rest h = ground arith
first_index-append c (b ∷ bs) rest h = ground (arith, first_index-append c bs rest h.1)

pub Lacks-append : (c : ℕ) (bs cs : List ℕ) → Lacks c bs → Lacks c cs → Lacks c (bs ++ cs)
Lacks-append c [] cs h k = k
Lacks-append c (b ∷ bs) cs h k = (h.0, Lacks-append c bs cs h.1 k)
