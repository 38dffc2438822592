-- ===== src/Compressed/Writer/Kept.antt =====
-- trace/compressed_writer.rs: every step keeps the invariant.
use rd.Prelude.{
  ℕ, ◌+◌, ◌-◌, ◌/◌, ◌<◌, ltb, leb, ◌==◌, not, ◌&&◌, ◌||◌, if◌then◌else◌, Bool, true, false, length,
  ◌≡◌, refl, sym, ap, subst, ◌∙◌, arith, if-both,
}
use rd.Compressed.File.{Brotli}
use rd.Compressed.Blocks.{concat}
use rd.Compressed.Writer.State.{Writer, Phase, Producer}
use rd.Compressed.Writer.Produce.{
  buffer_len, poll, update_reservation, put_amount, write_round, end_write, begin_close, end_close,
}
use rd.Compressed.Writer.Order.{completed_pos_lem}
use rd.Compressed.Writer.Invariant.{span, is_closing, Ends, Inv}
use rd.Compressed.Writer.Room.{Ring-put, Ring-publish, Ring-reserve}
use rd.Compressed.Writer.Closing.{Ends-producer, Ends-close, Ends-closed}

module _ (b : Brotli) (stream : ℕ → ℕ) (block_size num_threads : ℕ) where
  abbrev pub len : ℕ
  len = buffer_len block_size num_threads

  abbrev pub Holds : Writer → Type 0
  Holds = Inv b stream block_size num_threads

  module _ (w : Writer) (r : Holds w) where
    abbrev pub done : ℕ
    done = length (concat r.blocks)

    -- What a round of the loop of `update_reservation` makes of the writer.
    abbrev pub reserved : Producer → Writer
    reserved p = record w { producer_reserved_upto_pos = done + len; producer = p }

    pub poll_lem :
        (wait_flag : Bool) (blocks next : Producer)
        → poll block_size num_threads wait_flag blocks next w
          ≡ reserved
              (if ltb w.producer_reserved_pos (done + len) || not wait_flag then next else blocks)
    unfolding poll
    poll_lem wait_flag blocks next =
        let edge =
          completed_pos_lem block_size num_threads w done (λ i. span (w.threads i)) r.working.spans
            r.working.positions in
        simp (r.ends.no_error, r.ends.no_write_error, edge) refl

    Inv-reserved : (p : Producer) → w.closing ≡ false → is_closing p ≡ false → Holds (reserved p)
    Inv-reserved p open_ working = record {
      blocks = r.blocks;
      working = r.working;
      written = r.written;
      ring = Ring-reserve b stream block_size num_threads _ _ _ _ _ _ _ r.ring;
      ends =
          Ends-producer b stream block_size num_threads _ _ _ _ _ _ _ _ r.ends p _ _ open_ working;
    }

    pub Inv-poll :
        (wait_flag : Bool) (blocks next : Producer)
        → w.closing ≡ false
        → is_closing blocks ≡ false
        → is_closing next ≡ false
        → Holds (poll block_size num_threads wait_flag blocks next w)
    Inv-poll wait_flag blocks next open_ waits goes =
        let test = ltb w.producer_reserved_pos (done + len) || not wait_flag in
        subst Holds (sym (poll_lem wait_flag blocks next)) (
          if-both (λ p. Holds (reserved p)) test next blocks (λ _. Inv-reserved next open_ goes)
            (λ _. Inv-reserved blocks open_ waits))

    abbrev published : Writer
    published = record w {
      next_thread_end_pos = w.producer_reserved_write_pos;
      producer_reserved_pos = w.producer_reserved_write_pos;
    }

    Inv-published : w.closing ≡ false → is_closing w.producer ≡ false → Holds published
    Inv-published open_ working = record {
      blocks = r.blocks;
      working = r.working;
      written = r.written;
      ring = Ring-publish b stream block_size num_threads _ _ _ _ _ _ _ r.ring;
      ends =
          Ends-producer b stream block_size num_threads _ _ _ _ _ _ _ _ r.ends w.producer _ _ open_
            working;
    }

    -- The producer is at work, so the writer is not being closed.
    pub still_open : (p : Producer) → w.producer ≡ p → is_closing p ≡ false → w.closing ≡ false
    still_open p e working = r.ends.flag ∙ ap is_closing e ∙ working

  Inv-update_reservation :
      (w : Writer) (r : Holds w) (wait_flag : Bool) (blocks next : Producer)
      → w.closing ≡ false
      → is_closing w.producer ≡ false
      → is_closing blocks ≡ false
      → is_closing next ≡ false
      → Holds (update_reservation block_size num_threads wait_flag blocks next w)
  unfolding update_reservation
  Inv-update_reservation w r wait_flag blocks next open_ working waits goes =
      Inv-poll (published w r) (Inv-published w r open_ working) wait_flag blocks next open_ waits
        goes

  pub Inv-producer :
      (w : Writer)
      → Holds w
      → (p : Producer) → w.closing ≡ false
      → is_closing p ≡ false
      → Holds (record w { producer = p })
  Inv-producer w r p open_ working = record {
    blocks = r.blocks;
    working = r.working;
    written = r.written;
    ring = r.ring;
    ends = Ends-producer b stream block_size num_threads _ _ _ _ _ _ _ _ r.ends p _ _ open_ working;
  }

  pub Inv-write_round :
      (w : Writer) (size : ℕ)
      → Holds w
      → w.producer ≡ Producer.in_write size
      → Holds (write_round block_size num_threads stream size w)
  unfolding write_round put_amount
  Inv-write_round w size r e =
      let amount = put_amount block_size num_threads size w in
      let open_ = still_open w r (Producer.in_write size) e refl in
      if-both Holds (w.producer_reserved_upto_pos - w.producer_reserved_write_pos == 0)
        (update_reservation block_size num_threads true (Producer.blocked size)
          (Producer.in_write size) w)
        _
        (λ _.
          Inv-update_reservation w r true (Producer.blocked size) (Producer.in_write size) open_
            (ap is_closing e) refl refl)
        (λ _. record {
          blocks = r.blocks;
          working = r.working;
          written = r.written;
          ring =
              Ring-put b stream block_size num_threads _ _ _ _ _ _ _ amount r.ring (omega arith)
                (omega arith);
          ends =
              Ends-producer b stream block_size num_threads _ _ _ _ _ _ _ _ r.ends
                (Producer.in_write (size - amount)) _ _ open_ refl;
        })

  pub Inv-end_write :
      (w : Writer) (size : ℕ)
      → Holds w
      → w.producer ≡ Producer.in_write size
      → Holds (end_write block_size num_threads w)
  unfolding end_write
  Inv-end_write w size r e =
      let open_ = still_open w r (Producer.in_write size) e refl in
      if-both Holds
        (not w.error && leb (len / 2) (w.producer_reserved_write_pos - w.producer_reserved_pos))
        (update_reservation block_size num_threads false Producer.ready Producer.ready w)
        (record w { producer = Producer.ready })
        (λ _.
          Inv-update_reservation w r false Producer.ready Producer.ready open_ (ap is_closing e)
            refl refl)
        (λ _. Inv-producer w r Producer.ready open_ refl)

  pub Inv-begin_close :
      (w : Writer)
      → Holds w
      → w.producer ≡ Producer.ready
      → Holds (begin_close block_size num_threads w)
  unfolding begin_close update_reservation
  Inv-begin_close w r e =
      let open_ = still_open w r Producer.ready e refl in
      let r1 = Inv-published w r open_ (ap is_closing e) in
      let closes : Holds
          (record (reserved (published w r) r1 Producer.joining) { closing = true }) =
        record {
          blocks = r1.blocks;
          working = r1.working;
          written = r1.written;
          ring = Ring-reserve b stream block_size num_threads _ _ _ _ _ _ _ r1.ring;
          ends = Ends-close b stream block_size num_threads _ _ _ _ _ _ _ _ r1.ends open_;
        } in
      let test = ltb w.producer_reserved_write_pos (done (published w r) r1 + len) || not false in
      subst (λ v. Holds (record v { closing = true }))
        (sym (poll_lem (published w r) r1 false Producer.joining Producer.joining))
        (if-both (λ p. Holds (record (reserved (published w r) r1 p) { closing = true })) test
          Producer.joining Producer.joining (λ _. closes) (λ _. closes))

  pub Inv-end_close :
      (w : Writer)
      → Holds w
      → w.producer ≡ Producer.joining
      → ((i : ℕ) → i < num_threads → w.threads i ≡ Phase.stopped)
      → Holds (end_close w)
  unfolding end_close
  Inv-end_close w r e all =
      let fine : (w.error || w.write_error) ≡ w.error =
        ground (arith, r.ends.no_error, r.ends.no_write_error) in
      record {
        blocks = r.blocks;
        working = r.working;
        written = r.written;
        ring = r.ring;
        ends =
            subst
              (λ x.
                Ends b stream block_size num_threads w.closing w.write_error x Producer.closed
                  w.next_thread_pos w.next_thread_end_pos w.producer_reserved_write_pos w.threads)
              (sym fine) (Ends-closed b stream block_size num_threads _ _ _ _ _ _ _ _ r.ends e all);
      }
