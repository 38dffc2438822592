-- ===== src/Compressed/Writer/Room.antt =====
-- trace/compressed_writer.rs: the ring buffer through the steps, and what a thread reads of it.
use rd.Prelude.{
  ℕ, ◌+◌, ◌-◌, ◌%◌, ◌≤◌, ltb, Bool-cases, List, ◌++◌, length, ◌≡◌, refl, sym, ap, subst, ◌∙◌, arith,
  inl, inr,
}
use rd.Compressed.File.{Brotli, header_bytes, block_bytes}
use rd.Compressed.Writer.State.{Phase, slice}
use rd.Compressed.Writer.Produce.{buffer_len, copied}
use rd.Compressed.Writer.Compress.{feed_amount}
use rd.Compressed.Writer.Slices.{
  slice-append, length-slice, slice-same, mod-add_of_lt, copied_new, copied_old,
}
use rd.Compressed.Writer.Invariant.{part, Content, Ring}

module _ (b : Brotli) (stream : ℕ → ℕ) (block_size num_threads : ℕ) where
  abbrev len : ℕ
  len = buffer_len block_size num_threads

  -- The producer copies what fits, into places that no thread is to read.
  pub Ring-put :
      (buffer : ℕ → ℕ) (done next end_pos write_pos reserved upto amount : ℕ)
      → Ring b stream block_size num_threads buffer done next end_pos write_pos reserved upto
      → amount ≤ len - write_pos % len
      → amount ≤ upto - write_pos
      → Ring b stream block_size num_threads
          (copied block_size num_threads stream write_pos amount buffer)
          done
          next
          end_pos
          (write_pos + amount)
          reserved
          upto
  Ring-put buffer done next end_pos write_pos reserved upto amount r fits free =
      let later : ℕ → ℕ = copied block_size num_threads stream write_pos amount buffer in
      record {
        dispatched = r.dispatched;
        published = r.published;
        pending = omega (arith, r.pending);
        reservation = omega (arith, r.reservation);
        room = r.room;
        holds = λ p low high. elim (Bool-cases (ltb p write_pos)) [
          | inl old ↦
              copied_old block_size num_threads stream buffer write_pos amount p fits (ground arith)
                (omega (arith, r.reservation, r.room))
              ∙ r.holds p low (ground arith)
          | inr new ↦
              let there : write_pos + (p - write_pos) ≡ p = ground arith in
              subst (λ q. later (q % len) ≡ stream q) there
                (copied_new block_size num_threads stream buffer write_pos amount (p - write_pos)
                  fits (ground arith))
        ];
      }

  -- More of the data is in the file, and more of it is dispatched.
  pub Ring-advance :
      (buffer : ℕ → ℕ) (done done' next next' end_pos write_pos reserved upto : ℕ)
      → Ring b stream block_size num_threads buffer done next end_pos write_pos reserved upto
      → done ≤ done'
      → next' ≤ end_pos
      → Ring b stream block_size num_threads buffer done' next' end_pos write_pos reserved upto
  Ring-advance buffer done done' next next' end_pos write_pos reserved upto r later fits = record {
    dispatched = fits;
    published = r.published;
    pending = r.pending;
    reservation = r.reservation;
    room = omega (arith, r.room);
    holds = λ p low high. r.holds p (omega arith) high;
  }

  -- All that was written is dispatched.
  pub Ring-publish :
      (buffer : ℕ → ℕ) (done next end_pos write_pos reserved upto : ℕ)
      → Ring b stream block_size num_threads buffer done next end_pos write_pos reserved upto
      → Ring b stream block_size num_threads buffer done next write_pos write_pos write_pos upto
  Ring-publish buffer done next end_pos write_pos reserved upto r = record {
    dispatched = omega (arith, r.dispatched, r.pending);
    published = refl;
    pending = omega arith;
    reservation = r.reservation;
    room = r.room;
    holds = r.holds;
  }

  -- The reservation is made anew.
  pub Ring-reserve :
      (buffer : ℕ → ℕ) (done next end_pos write_pos reserved upto : ℕ)
      → Ring b stream block_size num_threads buffer done next end_pos write_pos reserved upto
      → Ring b stream block_size num_threads buffer done next end_pos write_pos reserved
          (done + len)
  Ring-reserve buffer done next end_pos write_pos reserved upto r = record {
    dispatched = r.dispatched;
    published = r.published;
    pending = r.pending;
    reservation = omega (arith, r.reservation, r.room);
    room = omega arith;
    holds = r.holds;
  }

  -- What the encoder is fed from the ring is the next part of the stream.
  pub Content-feed :
      (buffer : ℕ → ℕ) (done next end_pos write_pos reserved upto : ℕ)
      (start stop offset consumed : ℕ) (fed : List ℕ)
      → Ring b stream block_size num_threads buffer done next end_pos write_pos reserved upto
      → Content b stream (Phase.compressing start stop offset fed)
      → done ≤ start
      → stop ≤ next
      → consumed ≤ feed_amount len offset stop
      → Content b stream (
          Phase.compressing start stop
            (offset + consumed)
            (fed ++ slice buffer (offset % len) consumed))
  unfolding Content feed_amount
  Content-feed buffer done next end_pos write_pos reserved upto start stop offset consumed fed r
        (low, high, so_far) after before fits =
      let read : slice buffer (offset % len) consumed ≡ slice stream offset consumed =
        slice-same buffer stream (offset % len) offset consumed (λ k less.
          ap buffer (sym (mod-add_of_lt offset k len (omega arith)))
          ∙ r.holds (offset + k) (omega arith) (omega (arith, r.dispatched, r.pending))) in
      let there : start + (offset - start) ≡ offset = omega arith in
      let total : offset - start + consumed ≡ offset + consumed - start = omega arith in
      (
        omega arith,
        omega arith,
        ap (λ l. fed ++ l) read
            ∙ ap (λ l. l ++ slice stream offset consumed) so_far
            ∙ ap (λ o. slice stream start (offset - start) ++ slice stream o consumed) (sym there)
            ∙ slice-append stream start (offset - start) consumed
            ∙ ap (slice stream start) total,
      )

  -- What the thread makes of its block is the block of the file.
  pub Content-compressed :
      (start stop : ℕ) (fed : List ℕ)
      → Content b stream (Phase.compressing start stop stop fed)
      → Content b stream (
          Phase.waiting start stop (
            header_bytes (record {
              compressed_length = length (b.compress fed);
              uncompressed_length = stop - start;
            })
            ++ b.compress fed))
  unfolding Content block_bytes
  Content-compressed start stop fed (low, high, all) =
      ap
        (λ plain.
          header_bytes (record {
            compressed_length = length (b.compress plain);
            uncompressed_length = stop - start;
          })
          ++ b.compress plain)
        all
      ∙ ap
          (λ n.
            header_bytes (record {
              compressed_length = length (b.compress (part b stream start stop));
              uncompressed_length = n;
            })
            ++ b.compress (part b stream start stop))
          (sym (length-slice stream start (stop - start)))
