-- ===== src/Compressed/Reads.antt =====
-- trace/compressed_reader.rs: reading and skipping give the data in order, whatever the blocks.
use rd.Prelude.{
  ℕ, zero, suc, ◌+◌, ◌-◌, ◌*◌, ◌≤◌, ◌<◌, min, leb, Bool-cases, true, false, some, List, [], ◌∷◌,
  ◌++◌, length, length-append, length-drop, take, take-add, take-append_of_le, drop, drop-add,
  drop-append_of_le, List-cases, ◌⊎◌, inl, inr, ◌≡◌, refl, sym, ap, ◌∙◌, subst, arith,
}
use rd.Compressed.File.{Brotli, File}
use rd.Compressed.Reader.{CompressedReader, refill_buffer, available, read, new}
use rd.Compressed.Blocks.{concat, Blocks, is_nil, file_bytes, Holds, ends_at_lem, refill_buffer_lem}

-- Whether a round that takes bytes from the buffer comes next.
abbrev rounds : ℕ → List ℕ → ℕ
rounds zero xs = 0
rounds (suc n) [] = 0
rounds (suc n) (x ∷ xs) = 1

rounds-le : (n : ℕ) (xs : List ℕ) → rounds n xs ≤ 1
rounds-le zero xs = omega arith
rounds-le (suc n) [] = omega arith
rounds-le (suc n) (x ∷ xs) = omega arith

rounds-nil : (n : ℕ) (xs : List ℕ) → length xs ≡ 0 → rounds n xs ≡ 0
rounds-nil zero xs h = refl
rounds-nil (suc n) [] h = refl
rounds-nil (suc n) (x ∷ xs) h = absurd (omega arith)

-- After k bytes either no more is asked for or nothing is available.
rounds_after : (left k : ℕ) (xs : List ℕ) → (left ≡ k) ⊎ (length xs ≡ 0) → rounds (left - k) xs ≡ 0
rounds_after left k xs (inl e) = let none_left : left - k ≡ 0 = omega arith in rw none_left refl
rounds_after left k xs (inr e) = rounds-nil (left - k) xs e

length-Blocks : (blocks : List (List ℕ)) → Blocks blocks → length blocks ≤ length (concat blocks)
unfolding Blocks concat
length-Blocks [] w = omega arith
length-Blocks (p ∷ ps) w = omega (arith, length-Blocks ps w.2, length-append p (concat ps))

module _ (b : Brotli) where
  -- The reader r is at a place of a file of blocks where this data follows.
  abbrev pub Reading : File → List ℕ → CompressedReader → Type 0
  Reading f rest r = (blocks : List (List ℕ)) × Blocks blocks × Holds b f blocks rest r

  -- Giving k of the bytes that are available.
  Holds-advance :
      (f : File) (blocks : List (List ℕ)) (rest : List ℕ) (r : CompressedReader) (k : ℕ)
      → Holds b f blocks rest r
      → k ≤ length r.buffer - r.buffer_read_pos
      → (Holds b f blocks (drop k rest) (record r { buffer_read_pos = r.buffer_read_pos + k }))
        × (take k (available b r) ≡ take k rest)
  unfolding available
  Holds-advance f blocks rest r k h fits =
      let room : k ≤ length (available b r) =
        omega (arith, length-drop r.buffer_read_pos r.buffer) in
      (
        record {
          the_file = h.the_file;
          ahead = h.ahead;
          ended = h.ended;
          whole =
              ap (λ l. l ++ concat blocks) (drop-add r.buffer_read_pos k r.buffer)
              ∙ sym (drop-append_of_le k (available b r) (concat blocks) room)
              ∙ ap (drop k) h.whole;
          inside = omega (arith, h.inside);
        },
        sym (take-append_of_le k (available b r) (concat blocks) room) ∙ ap (take k) h.whole,
      )

  -- Nothing is available at the end of the file, and the last block is behind.
  at_the_end :
      (f : File) (blocks : List (List ℕ)) (rest : List ℕ) (r : CompressedReader)
      → Holds b f blocks rest r
      → available b r ≡ []
      → r.eof ≡ true
      → rest ≡ []
  unfolding concat is_nil
  at_the_end f [] rest r h e end = sym h.whole ∙ rw e refl
  at_the_end f (p ∷ ps) rest r h e end = absurd (ground (arith, h.ended))

  -- Before that, the next block can be had.
  refilled :
      (f : File) (blocks : List (List ℕ)) (rest : List ℕ) (r : CompressedReader)
      → Blocks blocks
      → Holds b f blocks rest r
      → available b r ≡ []
      → r.eof ≡ false
      → (p : List ℕ) × (ps : List (List ℕ)) × (r' : CompressedReader) × (blocks ≡ p ∷ ps)
        × (refill_buffer b r ≡ some r')
        × Blocks ps
        × Holds b f ps rest r'
  unfolding concat is_nil Blocks
  refilled f [] rest r w h e more = absurd (ground (arith, h.ended))
  refilled f (p ∷ ps) rest r w h e more =
      let (r', went, next) = refill_buffer_lem b f p ps r h.the_file h.ahead w.1 in
      let same : p ++ concat ps ≡ rest = sym (rw e refl) ∙ h.whole in
      (p, ps, r', refl, went, w.2, subst (λ l. Holds b f ps l r') same next)

  pub read_again :
      (n left : ℕ) (r r' : CompressedReader)
      → available b r ≡ []
      → r.eof ≡ false
      → refill_buffer b r ≡ some r'
      → read b (suc n) (suc left) r ≡ read b n (suc left) r'
  unfolding read
  read_again n left r r' e more went = rw (read, e) (simp (more, went) refl)

  pub read_given :
      (n left x : ℕ) (xs out : List ℕ) (r r2 : CompressedReader)
      → available b r ≡ x ∷ xs
      → (let k = min (suc left) (length r.buffer - r.buffer_read_pos) in
          read b n (suc left - k) (record r { buffer_read_pos = r.buffer_read_pos + k })
          ≡ some (out, r2))
      → read b (suc n) (suc left) r
        ≡ some
            (take (min (suc left) (length r.buffer - r.buffer_read_pos)) (available b r) ++ out, r2)
  unfolding read
  read_given n left x xs out r r2 e ran = rw (read, e) (rw ran refl)

  pub length-available :
      (r : CompressedReader) → length (available b r) ≡ length r.buffer - r.buffer_read_pos
  unfolding available
  length-available r = length-drop r.buffer_read_pos r.buffer

  -- A round gives all that is asked for, or all that is available.
  one_round :
      (left : ℕ) (r : CompressedReader)
      → (let k = min left (length r.buffer - r.buffer_read_pos) in
          (left ≡ k)
          ⊎ (length (available b (record r { buffer_read_pos = r.buffer_read_pos + k })) ≡ 0))
  one_round left r = elim (Bool-cases (leb left (length r.buffer - r.buffer_read_pos))) [
    | inl e ↦ inl (ground arith)
    | inr e ↦
        let k = min left (length r.buffer - r.buffer_read_pos) in
        inr
          (ground (arith, length-available (record r { buffer_read_pos = r.buffer_read_pos + k })))
  ]

  read-Blocks :
      (n left : ℕ) (f : File) (blocks : List (List ℕ)) (rest : List ℕ) (r : CompressedReader)
      → Blocks blocks
      → Holds b f blocks rest r
      → 2 * length blocks + rounds left (available b r) < n
      → (r' : CompressedReader) × (read b n left r ≡ some (take left rest, r'))
        × Reading f (drop left rest) r'
  unfolding read
  read-Blocks zero left f blocks rest r w h fuel = absurd (omega arith)
  read-Blocks (suc n) zero f blocks rest r w h fuel = (r, refl, (blocks, w, h))
  read-Blocks (suc n) (suc left) f blocks rest r w h fuel = elim (List-cases (available b r)) [
    | inl e ↦ elim (Bool-cases r.eof) [
      | inl end ↦
          let done = at_the_end f blocks rest r h e end in
          (
            r,
            rw (read, e, end, done) refl,
            (
              blocks,
              w,
              subst (λ l. Holds b f blocks l r) (done ∙ sym (ap (drop (suc left)) done)) h,
            ),
          )
      | inr more ↦
          let (p, ps, r', same, went, w', h') = refilled f blocks rest r w h e more in
          let less : length blocks ≡ suc (length ps) = ap length same in
          let (r2, ran, after) =
            read-Blocks n (suc left) f ps rest r' w' h'
              (omega (arith, rounds-le (suc left) (available b r'))) in
          (r2, read_again n left r r' e more went ∙ ran, after)
    ]
    | inr (x, xs, e) ↦
        let k = min (suc left) (length r.buffer - r.buffer_read_pos) in
        let r1 : CompressedReader = record r { buffer_read_pos = r.buffer_read_pos + k } in
        let room : length (available b r) ≡ length r.buffer - r.buffer_read_pos =
          length-available r in
        let (h', given) = Holds-advance f blocks rest r k h (omega arith) in
        let quiet : rounds (suc left - k) (available b r1) ≡ 0 =
          rounds_after (suc left) k (available b r1) (one_round (suc left) r) in
        let some_more : rounds (suc left) (available b r) ≡ 1 = rw e refl in
        let (r2, ran, (blocks2, w2, h2)) =
          read-Blocks n (suc left - k) f blocks (drop k rest) r1 w h' (omega arith) in
        let total : k + (suc left - k) ≡ suc left = omega arith in
        (
          r2,
          read_given n left x xs (take (suc left - k) (drop k rest)) r r2 e ran
              ∙ ap (λ l. some (l, r2))
                  (ap (λ l. l ++ take (suc left - k) (drop k rest)) given
                    ∙ take-add k (suc left - k) rest
                    ∙ ap (λ m. take m rest) total),
          (
            blocks2,
            w2,
            subst (λ l. Holds b f blocks2 l r2)
                (sym (drop-add k (suc left - k) rest) ∙ ap (λ m. drop m rest) total) h2,
          ),
        )
  ]

  -- At a place of a file of blocks, with fuel for more than two rounds a byte that is left and two more, a
  -- read gives the next bytes of the data, all that are asked for or all that are left, however the data is
  -- cut into blocks and however short each `pread` is, and leaves the reader behind them.
  pub read_lem :
      (n left : ℕ) (f : File) (rest : List ℕ) (r : CompressedReader)
      → Reading f rest r
      → 2 * length rest + 2 < n
      → (r' : CompressedReader) × (read b n left r ≡ some (take left rest, r'))
        × Reading f (drop left rest) r'
  read_lem n left f rest r (blocks, w, h) fuel = read-Blocks n left f blocks rest r w h (
      omega (
        arith,
        rounds-le left (available b r),
        length-Blocks blocks w,
        length-append (available b r) (concat blocks),
        ap length h.whole,
      ))

  pub new-Reading :
      (f : File) (blocks : List (List ℕ))
      → Blocks blocks
      → f.bytes ≡ file_bytes b blocks
      → Reading f (concat blocks) (new f)
  unfolding new available
  new-Reading f blocks w e = (
    blocks,
    w,
    record {
      the_file = refl;
      ahead = e;
      ended = ends_at_lem b f 0 blocks e;
      whole = refl;
      inside = omega arith;
    },
  )
