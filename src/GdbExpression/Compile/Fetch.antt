-- ===== src/GdbExpression/Compile/Fetch.antt =====
-- Reading bytecode at a place: what a fetch returns there.
use rd.Prelude.{
  ℕ, zero, suc, ◌+◌, ◌*◌, ◌%◌, ◌^◌, ◌≤◌, ◌<◌, ◌≡◌, refl, ap, ◌∙◌, some, List, [], ◌∷◌, ◌++◌, arith,
  bit_or, length, get_elem?, drop, drop-add, drop-length, length-drop, length-append,
}
use mathlib.Core.List.{append_assoc}
use native.Mathlib.Nat.{
  pow-suc, one-le-pow, le_of_eq, mod-eq_of_lt, mul-le-mul_left, mul-le-mul_right,
}
use native.Mathlib.Numerals.{towards_suc}
use rd.Prelude.Bits.{bit_or-shifted}
use rd.GdbExpression.State.{State, fetch, fetch_bytes, fetch_u8}
use rd.GdbExpression.Panics.{fetch_u8-here}
use rd.GdbExpression.Compile.{be_value, ByteList}

-- `code` has `frag` from `pc` on.
pub record At (code : List ℕ) (pc : ℕ) (frag : List ℕ) : Type 0 where
  pub rest : List ℕ
  pub here : drop pc code ≡ frag ++ rest

pub At-append_left : {code : List ℕ} {pc : ℕ} (f g : List ℕ) → At code pc (f ++ g) → At code pc f
At-append_left f g a = record { rest = g ++ a.rest; here = a.here ∙ append_assoc f g a.rest }

pub At-append_right :
    {code : List ℕ} {pc : ℕ} (f g : List ℕ) → At code pc (f ++ g) → At code (pc + length f) g
At-append_right {code} {pc} f g a = record {
  rest = a.rest;
  here =
      drop-add pc (length f) code
      ∙ (ap (drop (length f)) (a.here ∙ append_assoc f g a.rest) ∙ drop-length f (g ++ a.rest));
}

get_elem?-drop {ℓ} :
    {A : Type ℓ} (n : ℕ) (xs : List A) {x : A} {rest : List A}
    → drop n xs ≡ x ∷ rest
    → get_elem? xs n ≡ some x
get_elem?-drop zero [] h = cc
get_elem?-drop zero (y ∷ ys) h = cc
get_elem?-drop (suc n) [] h = cc
get_elem?-drop (suc n) (y ∷ ys) h = get_elem?-drop n ys h

pub At-head :
    {code : List ℕ} {pc b : ℕ} {bs : List ℕ} → At code pc (b ∷ bs) → get_elem? code pc ≡ some b
At-head {code} {pc} a = get_elem?-drop pc code a.here

pub At-tail : {code : List ℕ} {pc b : ℕ} {bs : List ℕ} → At code pc (b ∷ bs) → At code (pc + 1) bs
At-tail {b} {bs} a = At-append_right (b ∷ []) bs a

pub At-fits :
    {code : List ℕ} {pc : ℕ} (f : List ℕ)
    → At code pc f
    → 0 < length f
    → pc + length f ≤ length code
At-fits {code} {pc} f a pos =
    omega (arith, length-drop pc code, length-append f a.rest, ap (length {A = ℕ}) a.here)

room :
    (v b p q : ℕ)
    → 0 < p
    → (v + 1) * (p * 256) ≤ q
    → b < 256
    → (v * 256 < q) × ((v * 256 + b + 1) * p ≤ q)
room v b p q pos h small =
    (omega (arith, mul-le-mul_left v pos), omega (arith, mul-le-mul_right p small))

-- The bytes at `pc` are read as a number, where it fits.
fetch_bytes-At :
    (bits : ℕ) (bs : List ℕ) (pc v : ℕ) (code : List ℕ)
    → At code pc bs
    → ByteList bs
    → (v + 1) * 256 ^ length bs ≤ 2 ^ bits
    → fetch_bytes bits (length bs) pc v code ≡ some (be_value v bs)
unfolding fetch_bytes
fetch_bytes-At bits [] pc v code a h fits = refl
fetch_bytes-At bits (b ∷ bs) pc v code a h fits =
    let p = 256 ^ length bs in
    let pos : 0 < p = one-le-pow (length bs) 256 (omega arith) in
    let step : (v + 1) * (p * 256) ≤ 2 ^ bits = rw (← pow-suc 256 (length bs)) fits in
    let small = room v b p (2 ^ bits) pos step h.0 in
    let joined : bit_or (v * 2 ^ 8 % 2 ^ bits) b ≡ v * 256 + b =
      rw (mod-eq_of_lt small.0) (bit_or-shifted 8 v b h.0) in
    ground (
      arith,
      At-head a,
      joined,
      fetch_bytes-At bits bs (pc + 1) (v * 256 + b) code (At-tail a) h.1 small.1,
    )

add_eight : (k : ℕ) → 2 ^ (k + 8) ≡ 256 * 2 ^ k
add_eight k = simp (towards_suc, pow-suc) (omega arith)

bytes_pow : (n : ℕ) → 256 ^ n ≡ 2 ^ (8 * n)
bytes_pow zero = refl
bytes_pow (suc n) =
    let split : 8 * suc n ≡ 8 * n + 8 = omega arith in
    rw (split, add_eight (8 * n), pow-suc) (omega (arith, bytes_pow n))

-- What the four fetches return where their bytes stand.
module _ (s : State) where
  pub fetch_u8-At :
      (b : ℕ) {bs : List ℕ}
      → At s.bytecode s.pc (b ∷ bs)
      → fetch_u8 s ≡ some (b, record s { pc = s.pc + 1 })
  fetch_u8-At b a = fetch_u8-here s b (At-head a)

  pub fetch-At :
      (bs : List ℕ)
      → At s.bytecode s.pc bs
      → ByteList bs
      → 0 < length bs
      → fetch (length bs) s ≡ some (be_value 0 bs, record s { pc = s.pc + length bs })
  fetch-At bs a h pos =
      let fits = At-fits bs a pos in
      let whole : 256 ^ length bs ≤ 2 ^ (8 * length bs) = le_of_eq (bytes_pow (length bs)) in
      ground (arith, fetch_bytes-At (8 * length bs) bs s.pc 0 s.bytecode a h (omega (arith, whole)))
