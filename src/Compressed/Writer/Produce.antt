-- ===== src/Compressed/Writer/Produce.antt =====
-- trace/compressed_writer.rs: write, update_reservation and close, which one thread calls.
use rd.Prelude.{
  ℕ, ◌+◌, ◌-◌, ◌*◌, ◌/◌, ◌%◌, min, ltb, leb, ◌==◌, if◌then◌else◌, Bool, true, false, not, ◌&&◌,
  ◌||◌,
}
use rd.Compressed.Writer.State.{Writer, Producer, completed_pos}

module _ (block_size num_threads : ℕ) where
  abbrev pub buffer_len : ℕ
  buffer_len = block_size * (num_threads + 2)

  -- Where the loop of `update_reservation` breaks, and the state after a round of it. The producer
  -- goes on in `done`, or waits in `wait` when the flag is Wait and no room was found.
  unfoldable pub poll : Bool → Producer → Producer → Writer → Writer
  poll wait_flag blocks done w =
      if w.error
      then record w { producer = done }
      else if w.write_error
      then record w { error = true; producer = done }
      else let upto = completed_pos num_threads w + buffer_len in
        record w {
          producer_reserved_upto_pos = upto;
          producer = if ltb w.producer_reserved_pos upto || not wait_flag then done else blocks;
        }

  unfoldable pub update_reservation : Bool → Producer → Producer → Writer → Writer
  update_reservation wait_flag blocks done w = poll wait_flag blocks done (record w {
    next_thread_end_pos = w.producer_reserved_write_pos;
    producer_reserved_pos = w.producer_reserved_write_pos;
  })

  -- How much a round of the loop of `write` copies.
  unfoldable pub put_amount : ℕ → Writer → ℕ
  put_amount size w =
      min (buffer_len - w.producer_reserved_write_pos % buffer_len)
        (min (w.producer_reserved_upto_pos - w.producer_reserved_write_pos) size)

  -- The stream is what all the calls of `write` are given, one after another.
  unfoldable pub copied : (ℕ → ℕ) → ℕ → ℕ → (ℕ → ℕ) → ℕ → ℕ
  copied stream pos amount buffer i =
      let offset = pos % buffer_len in
      if leb offset i && ltb i (offset + amount) then stream (pos + (i - offset)) else buffer i

  -- A round of the loop of `write`.
  unfoldable pub write_round : (ℕ → ℕ) → ℕ → Writer → Writer
  write_round stream size w =
      if w.producer_reserved_upto_pos - w.producer_reserved_write_pos == 0
      then update_reservation true (Producer.blocked size) (Producer.in_write size) w
      else let amount = put_amount size w in
        record w {
          buffer = copied stream w.producer_reserved_write_pos amount w.buffer;
          producer_reserved_write_pos = w.producer_reserved_write_pos + amount;
          producer = Producer.in_write (size - amount);
        }

  -- `write` after its loop.
  unfoldable pub end_write : Writer → Writer
  end_write w =
      if not w.error
        && leb (buffer_len / 2) (w.producer_reserved_write_pos - w.producer_reserved_pos)
      then update_reservation false Producer.ready Producer.ready w
      else record w { producer = Producer.ready }

  -- `close` up to where it waits for the threads, and after that.
  unfoldable pub begin_close : Writer → Writer
  begin_close w = record (update_reservation false Producer.joining Producer.joining w) {
    closing = true;
  }

unfoldable pub end_close : Writer → Writer
end_close w = record w { error = w.error || w.write_error; producer = Producer.closed }
