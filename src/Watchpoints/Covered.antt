-- ===== src/Watchpoints/Covered.antt =====
-- session/address_space.rs: the registers that `configure_watch_registers` asks for watch all of the
-- range.
use rd.Prelude.{
  ℕ, ◌+◌, ◌-◌, ◌≤◌, ◌<◌, ◌^◌, ◌≡◌, true, false, ◌&&◌, none, some, List, [], ◌∷◌, ◌++◌, ltb,
  if◌then◌else◌, arith, refl, inl, inr, Bool-cases, ap, sym, length, ◌∙◌, append-nil, length-append,
}
use rd.Prelude.Options.{◌>>=◌, ◌>>◌, assert}
use rd.MemoryRange.{MemoryRange, from_range, size}
use rd.Watchpoints.Split.{split_range, split_range-Tiles, Tiles}
use rd.Watchpoints.Registers.{
  WatchType, WatchConfig, is_write, alignment, align_down, align_down_bounds, watched_pieces,
  config_of, push_configs, push_only, configure_watch_registers,
}

-- The pieces cover the range, with less than 8 bytes more at either end, and nothing more unless
-- writes are watched; they are not more than those of the range itself.
pub record Covers (range : MemoryRange) (watchtype : WatchType) (pieces : List MemoryRange)
    : Type 0 where
  pub first : ℕ
  pub last : ℕ
  pub tiles : Tiles first last pieces
  pub low : (first ≤ range.start) × (range.start < first + 8)
  pub high : (range.end ≤ last) × (last < range.end + 8)
  pub exact : is_write watchtype ≡ false → (first ≡ range.start) × (last ≡ range.end)
  pub no_more : (own : List MemoryRange) → split_range range ≡ some own → length pieces ≤ length own

Covers-own :
    (range : MemoryRange) (watchtype : WatchType) (own : List MemoryRange)
    → split_range range ≡ some own
    → Tiles range.start range.end own
    → Covers range watchtype own
Covers-own range watchtype own done tiles = record {
  first = range.start;
  last = range.end;
  tiles = tiles;
  low = omega arith;
  high = omega arith;
  exact = λ h. (refl, refl);
  no_more = λ other e. ground (arith, done);
}

-- A range that is widened to the alignment of its size.
widened :
    (range : MemoryRange) (watchtype : WatchType)
    → is_write watchtype ≡ true
    → range.start ≤ range.end
    → range.end + 16 < 2 ^ 64
    → (own : List MemoryRange) → split_range range ≡ some own
    → Tiles range.start range.end own
    → let align = alignment (size range) in
      (pieces : List MemoryRange) × ((assert (ltb (range.end + (align - 1)) (2 ^ 64))
          >> from_range (align_down range.start align) (align_down (range.end + (align - 1)) align)
          >>= λ aligned.
              (split_range aligned >>= λ split.
              some (if ltb (length split) (length own) then split else own)))
        ≡ some pieces)
      × Covers range watchtype pieces
unfolding from_range
widened range watchtype w h b own done tiles =
    let align = alignment (size range) in
    let down = align_down_bounds range.start (size range) (omega arith) in
    let up = align_down_bounds (range.end + (align - 1)) (size range) (omega (arith, down)) in
    let a = align_down range.start align in
    let c = align_down (range.end + (align - 1)) align in
    let (split, did, around) =
      split_range-Tiles (record { start = a; end = c }) (omega (arith, down, up))
        (omega (arith, down, up)) in
    elim (Bool-cases (ltb (length split) (length own))) [
      | inr more ↦
          (own, ground (arith, down, up, did, more), Covers-own range watchtype own done tiles)
      | inl fewer ↦ (
        split,
        ground (arith, down, up, did, fewer),
        record {
          first = a;
          last = c;
          tiles = around;
          low = omega (arith, down, up);
          high = omega (arith, down, up);
          exact = λ no_write. absurd (cc);
          no_more = λ other e. ground (arith, done, fewer);
        },
      )
    ]

pub watched_pieces-Covers :
    (range : MemoryRange) (watchtype : WatchType)
    → range.start ≤ range.end
    → range.end + 16 < 2 ^ 64
    → (pieces : List MemoryRange) × (watched_pieces range watchtype ≡ some pieces)
      × Covers range watchtype pieces
unfolding watched_pieces
watched_pieces-Covers range watchtype h b =
    let (own, done, tiles) = split_range-Tiles range h (omega arith) in
    elim (Bool-cases (is_write watchtype && ltb 1 (size range))) [
      | inr plain ↦ (own, ground (arith, done, plain), Covers-own range watchtype own done tiles)
      | inl wide ↦
          let (pieces, did, covers) = widened range watchtype (ground arith) h b own done tiles in
          (pieces, ground (arith, done, wide, did), covers)
    ]

pub configs : WatchType → List MemoryRange → List WatchConfig
configs watchtype [] = []
configs watchtype (r ∷ rs) = config_of watchtype r ∷ configs watchtype rs

pub numbers : ℕ → List MemoryRange → List ℕ
numbers n [] = []
numbers n (r ∷ rs) = n ∷ numbers (n + 1) rs

append_cons : {A : Type 0} (xs : List A) (y : A) (ys : List A) → (xs ++ y ∷ []) ++ ys ≡ xs ++ y ∷ ys
append_cons [] y ys = refl
append_cons (x ∷ xs) y ys = ap (λ l. x ∷ l) (append_cons xs y ys)

push_only_lem :
    (watchtype : WatchType) (rs : List MemoryRange) (regs : List WatchConfig)
    → push_only watchtype rs regs ≡ regs ++ configs watchtype rs
unfolding push_only configs
push_only_lem watchtype [] regs = sym (append-nil regs)
push_only_lem watchtype (r ∷ rs) regs =
    push_only_lem watchtype rs (regs ++ config_of watchtype r ∷ [])
    ∙ append_cons regs (config_of watchtype r) (configs watchtype rs)

push_configs_lem :
    (watchtype : WatchType) (rs : List MemoryRange) (regs : List WatchConfig) (assigned : List ℕ)
    → length regs + length rs ≤ 256
    → push_configs watchtype rs regs assigned
      ≡ some (regs ++ configs watchtype rs, assigned ++ numbers (length regs) rs)
unfolding push_configs configs numbers
push_configs_lem watchtype [] regs assigned h =
    λ i. some (sym (append-nil regs) i, sym (append-nil assigned) i)
push_configs_lem watchtype (r ∷ rs) regs assigned h =
    let longer : length (regs ++ config_of watchtype r ∷ []) ≡ length regs + 1 =
      omega (arith, length-append regs (config_of watchtype r ∷ [])) in
    let rest =
      push_configs_lem watchtype rs (regs ++ config_of watchtype r ∷ [])
        (assigned ++ length regs ∷ []) (omega (arith, longer)) in
    let here : ltb (length regs) 256 ≡ true = ground arith in
    rw here (
      rest ∙ (λ i. some (
        append_cons regs (config_of watchtype r) (configs watchtype rs) i,
        (ap (λ (n : ℕ). (assigned ++ length regs ∷ []) ++ numbers n rs) longer
              ∙ append_cons assigned (length regs) (numbers (length regs + 1) rs))
            i,
      )))

-- For a range in order that ends 16 bytes before 2 ^ 64, and at most 256 registers with those its own
-- split needs, configure_watch_registers returns with the registers it had and one for each of some
-- pieces, in order. The pieces are aligned, of 1, 2, 4 or 8 bytes, and lie side by side; they cover
-- the range with less than 8 bytes more at each end, and exactly it unless writes are watched; they
-- are not more than those of the range itself. The numbers that are assigned are those of the new
-- registers.
pub configure_watch_registers-Covers :
    (regs : List WatchConfig) (range : MemoryRange) (watchtype : WatchType) (assigned : List ℕ)
    → range.start ≤ range.end
    → range.end + 16 < 2 ^ 64
    → ((own : List MemoryRange) → split_range range ≡ some own → length regs + length own ≤ 256)
    → (pieces : List MemoryRange) × Covers range watchtype pieces
      × (configure_watch_registers regs range watchtype none
          ≡ some (regs ++ configs watchtype pieces, none))
      × (configure_watch_registers regs range watchtype (some assigned)
          ≡ some
              (regs ++ configs watchtype pieces, some (assigned ++ numbers (length regs) pieces)))
unfolding configure_watch_registers
configure_watch_registers-Covers regs range watchtype assigned h b room =
    let (pieces, did, covers) = watched_pieces-Covers range watchtype h b in
    let (own, done, tiles) = split_range-Tiles range h (omega arith) in
    let fits : length regs + length pieces ≤ 256 =
      omega (arith, room own done, covers.no_more own done) in
    (
      pieces,
      covers,
      rw did (ap (λ (l : List WatchConfig). some (l, none)) (push_only_lem watchtype pieces regs)),
      rw did (rw (push_configs_lem watchtype pieces regs assigned fits) refl),
    )
