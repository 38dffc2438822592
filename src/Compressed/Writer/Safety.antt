-- ===== src/Compressed/Writer/Safety.antt =====
-- trace/compressed_writer.rs: what holds in every state that a writer reaches.
use rd.Prelude.{
  ℕ, ◌+◌, ◌*◌, ◌%◌, ◌^◌, ◌≤◌, ◌<◌, Bool-cases, ltb, Option-cases, true, false, none, some, List,
  length, ◌≡◌, ◌≢◌, sym, ap, subst, ◌∙◌, arith, inl, inr, take,
}
use rd.Compressed.File.{Brotli, File}
use rd.Compressed.Blocks.{concat, Blocks, file_bytes}
use rd.Compressed.Reader.{CompressedReader, read}
use rd.Compressed.Reader as R
use rd.Compressed.Reads.{Reading, read_lem, new-Reading}
use rd.Compressed.Writer.State.{Writer, Phase, Producer, slice}
use rd.Compressed.Writer.Produce.{buffer_len}
use rd.Compressed.Writer.Steps.{Reach}
use rd.Compressed.Writer.Slices.{mod-apart, length-slice}
use rd.Compressed.Writer.Invariant.{span, is_writing, is_closing, Front}
use rd.Compressed.Writer.Working.{one_front}
use rd.Compressed.Writer.Filing.{writing-cases}
use rd.Compressed.Writer.Kept.{Holds}
use rd.Compressed.Writer.Reached.{Reach-Inv}

module _ (b : Brotli) (stream : ℕ → ℕ) (block_size num_threads : ℕ)
    (block_fits : block_size < 2 ^ 31) (block_some : 0 < block_size) (w : Writer)
    (reach : Reach block_size num_threads b stream w) where
  inv : Holds b stream block_size num_threads w
  inv = Reach-Inv b stream block_size num_threads block_fits block_some w reach

  -- In a state that a writer with blocks of 1 to 2 ^ 31 - 1 bytes reaches, two threads never write to the
  -- file at the same time.
  pub one_writer :
      (i j : ℕ) → is_writing (w.threads i) ≡ true → is_writing (w.threads j) ≡ true → i ≡ j
  one_writer i j e e' = elim (writing-cases (w.threads i)) [
    | inl quiet ↦ absurd (ground (arith, sym e ∙ quiet))
    | inr (a, c, out, f) ↦ elim (writing-cases (w.threads j)) [
      | inl quiet ↦ absurd (ground (arith, sym e' ∙ quiet))
      | inr (a', c', out', f') ↦
          let (start, _) = subst (Front b stream w.file inv.blocks) f (inv.written.front i) in
          let (start', _) = subst (Front b stream w.file inv.blocks) f' (inv.written.front j) in
          one_front b stream block_size num_threads _ _ _ _ inv.working i j c c'
            (ap span f ∙ ap (λ s. some (s, c)) start) (ap span f' ∙ ap (λ s. some (s, c')) start')
    ]
  ]

  -- In a state that a writer with blocks of 1 to 2 ^ 31 - 1 bytes reaches, the place in the ring buffer of
  -- a byte of the block that a thread compresses is none of those where the producer may put bytes without
  -- asking for room.
  pub no_race :
      (i start end_pos stream_offset : ℕ) (fed : List ℕ)
      → w.threads i ≡ Phase.compressing start end_pos stream_offset fed
      → (p : ℕ) → start ≤ p
      → p < end_pos
      → (q : ℕ) → w.producer_reserved_write_pos ≤ q
      → q < w.producer_reserved_upto_pos
      → p % buffer_len block_size num_threads ≢ q % buffer_len block_size num_threads
  no_race i start end_pos stream_offset fed e p low high q after before =
      let x = inv.working.spans.bounds i start end_pos (ap span e) in
      mod-apart p q (buffer_len block_size num_threads)
        (omega (arith, x.2, inv.ring.dispatched, inv.ring.pending))
        (omega (arith, x.0, inv.ring.room))

  -- When a writer with a thread, and with blocks of 1 to 2 ^ 31 - 1 bytes, is closed, it has no error, and
  -- its file is a row of blocks that hold all the bytes that were written, in order.
  pub closed-file :
      0 < num_threads
      → w.producer ≡ Producer.closed
      → (w.error ≡ false)
        × ((blocks : List (List ℕ)) × Blocks blocks
            × (w.file ≡ file_bytes b blocks)
            × (concat blocks ≡ slice stream 0 w.producer_reserved_write_pos))
  closed-file some_thread closes =
      let stops = inv.ends.all_stopped closes in
      let all = (inv.ends.after 0 (stops 0 some_thread)).1 in
      let ended = inv.ends.finished (inv.ends.flag ∙ ap is_closing closes) in
      let quiet : (i : ℕ) → span (w.threads i) ≡ none = λ i. elim (Bool-cases (ltb i num_threads)) [
        | inl e ↦ ap span (stops i (ground arith))
        | inr e ↦ elim (Option-cases (span (w.threads i))) [
          | inl free ↦ free
          | inr ((a, c), f) ↦ absurd (ground (arith, inv.working.spans.known i a c f))
        ]
      ] in
      let silent : (i : ℕ) → is_writing (w.threads i) ≡ false = λ i.
        elim (writing-cases (w.threads i)) [
          | inl e ↦ e
          | inr (a, c, out, f) ↦ absurd (ground (arith, sym (quiet i) ∙ ap span f))
        ] in
      let at_end : length (concat inv.blocks) ≡ w.producer_reserved_write_pos =
        elim inv.working.spans.first [
          | inl e ↦ e ∙ all ∙ ended
          | inr (j, c, f) ↦ absurd (ground (arith, sym (quiet j) ∙ f))
        ] in
      (
        inv.ends.no_error,
        (
          inv.blocks,
          inv.written.blocks_fit,
          inv.written.settled silent,
          inv.written.whole ∙ ap (slice stream 0) at_end,
        ),
      )

  -- What was written to a writer with a thread, and with blocks of 1 to 2 ^ 31 - 1 bytes, that is closed is
  -- what a read of its file gives, from the first byte on, with fuel for more than two rounds a byte and two
  -- more, however many threads there were, however they took turns and however short each `pread` is.
  pub write-read :
      (most : ℕ → ℕ) (n left : ℕ)
      → 0 < num_threads
      → w.producer ≡ Producer.closed
      → 2 * w.producer_reserved_write_pos + 2 < n
      → (r : CompressedReader) × (read b n left (R.new (record { bytes = w.file; most = most }))
          ≡ some (take left (slice stream 0 w.producer_reserved_write_pos), r))
  write-read most n left some_thread closes fuel =
      let (_, (blocks, fit, file, all)) = closed-file some_thread closes in
      let f : File = record { bytes = w.file; most = most } in
      let start : Reading b f (slice stream 0 w.producer_reserved_write_pos) (R.new f) =
        subst (λ l. Reading b f l (R.new f)) all (new-Reading b f blocks fit file) in
      let (r, ran, _) =
        read_lem b n left f (slice stream 0 w.producer_reserved_write_pos) (R.new f) start
          (omega (arith, length-slice stream 0 w.producer_reserved_write_pos)) in
      (r, ran)
