-- ===== src/Watchpoints/Split.antt =====
-- session/address_space.rs: `split_range`, which cuts a range into pieces that a debug register can
-- watch: of 8, 4, 2 or 1 bytes, at a multiple of their size.
use rd.Prelude.{
  ℕ, zero, suc, ◌+◌, ◌-◌, ◌/◌, ◌%◌, ◌≤◌, ◌<◌, ◌^◌, ◌≡◌, ◌≢◌, true, false, not, ◌||◌, Option, none,
  some, List, [], ◌∷◌, ltb, ◌==◌, if◌then◌else◌, bit_and, arith, refl, ◌⊎◌, inl, inr, Bool-cases,
  ltb→lt, subst,
}
use rd.Prelude.Bits.{bit_and-zero}
use rd.Prelude.Digits.{bit_and-one}
use rd.RemotePtr.{ptr_add, ptr_add_lem, ptr_sub_lem}
use rd.MemoryRange.{MemoryRange, new_range, size}

-- The piece and what is left, if a piece of `bytes` bytes can be cut off.
unfoldable pub try_split_unaligned_range : MemoryRange → ℕ → Option (MemoryRange × MemoryRange)
unfolding size new_range
try_split_unaligned_range range bytes =
    if not (bit_and range.start (bytes - 1) == 0) || ltb (size range) bytes
    then none
    else some (new_range range.start bytes, record range { start = ptr_add range.start bytes })

-- The first of the sizes that can be cut off.
unfoldable pub split_one : MemoryRange → Option (MemoryRange × MemoryRange)
split_one r = elim (try_split_unaligned_range r 8) [
  | some cut ↦ some cut
  | none ↦ elim (try_split_unaligned_range r 4) [
    | some cut ↦ some cut
    | none ↦ elim (try_split_unaligned_range r 2) [
      | some cut ↦ some cut
      | none ↦ try_split_unaligned_range r 1
    ]
  ]
]

-- The loop on fuel; `none` when the fuel is out or the last attempt, which is asserted, fails.
unfoldable pub split_from : ℕ → MemoryRange → Option (List MemoryRange)
unfolding split_one size
split_from zero r = none
split_from (suc fuel) r = elim (ltb 0 (size r)) [
  | false ↦ some []
  | true ↦ elim (split_one r) [
    | none ↦ none
    | some (piece, rest) ↦ elim (split_from fuel rest) [
      | none ↦ none
      | some pieces ↦ some (piece ∷ pieces)
    ]
  ]
]

-- A round cuts off a byte at least.
unfoldable pub split_range : MemoryRange → Option (List MemoryRange)
unfolding split_from size
split_range range = split_from (suc (size range)) range

-- What a debug register can watch.
abbrev pub IsPiece : MemoryRange → Type 0
IsPiece p =
    ((p.end ≡ p.start + 8) × (p.start % 8 ≡ 0))
    ⊎ ((p.end ≡ p.start + 4) × (p.start % 4 ≡ 0))
    ⊎ ((p.end ≡ p.start + 2) × (p.start % 2 ≡ 0))
    ⊎ (p.end ≡ p.start + 1)

-- The pieces follow each other from `a` to `b`.
abbrev pub Tiles : ℕ → ℕ → List MemoryRange → Type 0
Tiles a b [] = a ≡ b
Tiles a b (p ∷ ps) = (p.start ≡ a) × IsPiece p × Tiles p.end b ps

mask_one : (a : ℕ) → bit_and a 1 ≡ a % 2
mask_one a = omega (arith, bit_and-one a 0, bit_and-zero (a / 2))

mask_three : (a : ℕ) → bit_and a 3 ≡ a % 4
mask_three a = omega (arith, bit_and-one a 1, mask_one (a / 2))

mask_seven : (a : ℕ) → bit_and a 7 ≡ a % 8
mask_seven a = omega (arith, bit_and-one a 3, mask_three (a / 2))

size_lem : (r : MemoryRange) → r.start ≤ r.end → r.end < 2 ^ 64 → size r ≡ r.end - r.start
unfolding size
size_lem r h b = ptr_sub_lem r.end r.start h b

-- One piece cut off at the head.
record Cut (r : MemoryRange) (c : Option (MemoryRange × MemoryRange)) : Type 0 where
  piece : MemoryRange
  rest : MemoryRange
  done : c ≡ some (piece, rest)
  first : piece.start ≡ r.start
  shape : IsPiece piece
  next : rest.start ≡ piece.end
  end : rest.end ≡ r.end
  within : piece.end ≤ r.end

refusal :
    (n : ℕ) (r : MemoryRange)
    → (not (bit_and r.start (n - 1) == 0) || ltb (size r) n) ≡ true
    → (bit_and r.start (n - 1) ≢ 0) ⊎ (size r < n)
refusal n r h = elim (Bool-cases (bit_and r.start (n - 1) == 0)) [
  | inl aligned ↦ inr (ground arith)
  | inr odd ↦ inl (λ e. ground arith)
]

piece_grows : (p : MemoryRange) (a : ℕ) → p.start ≡ a → IsPiece p → a < p.end
piece_grows p a h (inl e) = omega arith
piece_grows p a h (inr (inl e)) = omega arith
piece_grows p a h (inr (inr (inl e))) = omega arith
piece_grows p a h (inr (inr (inr e))) = omega arith

attempt :
    (n : ℕ) (r : MemoryRange)
    → r.start < r.end
    → r.end < 2 ^ 64
    → (bit_and r.start (n - 1) ≡ 0 → IsPiece (record { start = r.start; end = r.start + n }))
    → ((try_split_unaligned_range r n ≡ none) × ((bit_and r.start (n - 1) ≢ 0) ⊎ (size r < n)))
      ⊎ Cut r (try_split_unaligned_range r n)
unfolding try_split_unaligned_range new_range
attempt n r h b shape = elim (Bool-cases (not (bit_and r.start (n - 1) == 0) || ltb (size r) n)) [
  | inl refused ↦ inl (rw refused refl, refusal n r refused)
  | inr fits ↦
      let bytes = size_lem r (omega arith) b in
      let enough : n ≤ r.end - r.start = ground arith in
      let aligned : bit_and r.start (n - 1) ≡ 0 = ground arith in
      let sum : ptr_add r.start n ≡ r.start + n = ptr_add_lem r.start n (omega arith) in
      inr (record {
        piece = record { start = r.start; end = r.start + n };
        rest = record r { start = r.start + n };
        done = rw fits (rw sum refl);
        first = refl;
        shape = shape aligned;
        next = refl;
        end = refl;
        within = omega arith;
      })
]

as-Cut :
    (r : MemoryRange) {c : Option (MemoryRange × MemoryRange)} (cut : Cut r c)
    (d : Option (MemoryRange × MemoryRange))
    → d ≡ some (cut.piece, cut.rest)
    → Cut r d
as-Cut r cut d e = record {
  piece = cut.piece;
  rest = cut.rest;
  done = e;
  first = cut.first;
  shape = cut.shape;
  next = cut.next;
  end = cut.end;
  within = cut.within;
}

split_one-Cut : (r : MemoryRange) → r.start < r.end → r.end < 2 ^ 64 → Cut r (split_one r)
unfolding split_one
split_one-Cut r h b = elim (attempt 8 r h b (λ e. inl (refl, omega (arith, mask_seven r.start)))) [
  | inr cut ↦ as-Cut r cut (split_one r) (ground (arith, cut.done))
  | inl (no8, _) ↦
      elim (attempt 4 r h b (λ e. inr (inl (refl, omega (arith, mask_three r.start))))) [
        | inr cut ↦ as-Cut r cut (split_one r) (ground (arith, no8, cut.done))
        | inl (no4, _) ↦
            elim (attempt 2 r h b (λ e. inr (inr (inl (refl, omega (arith, mask_one r.start)))))) [
              | inr cut ↦ as-Cut r cut (split_one r) (ground (arith, no8, no4, cut.done))
              | inl (no2, _) ↦ elim (attempt 1 r h b (λ e. inr (inr (inr refl)))) [
                | inr cut ↦ as-Cut r cut (split_one r) (ground (arith, no8, no4, no2, cut.done))
                | inl (no1, why) ↦ absurd (elim why [
                  | inl odd ↦ odd (bit_and-zero r.start)
                  | inr small ↦ omega (arith, size_lem r (omega arith) b)
                ])
              ]
            ]
      ]
]

split_from-Tiles :
    (fuel : ℕ) (r : MemoryRange)
    → r.start ≤ r.end
    → r.end < 2 ^ 64
    → r.end - r.start < fuel
    → (pieces : List MemoryRange) × (split_from fuel r ≡ some pieces) × Tiles r.start r.end pieces
unfolding split_from
split_from-Tiles zero r h b enough = absurd (omega arith)
split_from-Tiles (suc fuel) r h b enough = elim (Bool-cases (ltb r.start r.end)) [
  | inr empty ↦ ([], ground (arith, size_lem r h b), ground arith)
  | inl more ↦
      let l : r.start < r.end = ltb→lt r.start r.end more in
      let cut = split_one-Cut r l b in
      let grows : r.start < cut.piece.end = piece_grows cut.piece r.start cut.first cut.shape in
      let first = cut.first in
      let next = cut.next in
      let same = cut.end in
      let within = cut.within in
      let (pieces, done, tiles) =
        split_from-Tiles fuel cut.rest (omega arith) (omega arith) (omega arith) in
      (
        cut.piece ∷ pieces,
        ground (arith, size_lem r h b, cut.done, done),
        (
          first,
          cut.shape,
          subst (λ (t : ℕ). Tiles t r.end pieces) next
              (subst (λ (t : ℕ). Tiles cut.rest.start t pieces) same tiles),
        ),
      )
]

-- split_range of a range in order within 64 bits returns aligned pieces that lie side by side from its
-- start to its end.
pub split_range-Tiles :
    (range : MemoryRange)
    → range.start ≤ range.end
    → range.end < 2 ^ 64
    → (pieces : List MemoryRange) × (split_range range ≡ some pieces)
      × Tiles range.start range.end pieces
unfolding split_range
split_range-Tiles range h b =
    split_from-Tiles (suc (size range)) range h b (omega (arith, size_lem range h b))
