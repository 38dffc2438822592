-- ===== src/Compressed/Writer/Compress.antt =====
-- trace/compressed_writer.rs, util.rs: what a thread does with a block.
use rd.Prelude.{
  ℕ, ◌+◌, ◌-◌, ◌%◌, min, ltb, leb, ◌==◌, Bool, not, ◌&&◌, ◌||◌, none, some, List, [], ◌++◌, length,
  take, drop,
}
use rd.Compressed.File.{header_bytes}
use rd.Compressed.Writer.State.{Writer, Phase, update, slice}

unfoldable pub can_take : ℕ → Writer → Bool
can_take block_size w =
    not w.write_error
    && ltb w.next_thread_pos w.next_thread_end_pos
    && (w.closing || leb (w.next_thread_pos + block_size) w.next_thread_end_pos)

-- A thread takes the next block.
unfoldable pub take_block : ℕ → ℕ → Writer → Writer
take_block block_size i w =
    let end_pos = min w.next_thread_end_pos (w.next_thread_pos + block_size) in
    record w {
      thread_pos = update i (some w.next_thread_pos) w.thread_pos;
      next_thread_pos = end_pos;
      threads =
          update i (Phase.compressing w.next_thread_pos end_pos w.next_thread_pos []) w.threads;
    }

unfoldable pub can_stop : Writer → Bool
can_stop w = w.closing && (w.write_error || (w.next_thread_pos == w.next_thread_end_pos))

unfoldable pub stop : ℕ → Writer → Writer
stop i w = record w { threads = update i Phase.stopped w.threads }

-- How much a round of the loop of `do_compress` offers to the encoder.
unfoldable pub feed_amount : ℕ → ℕ → ℕ → ℕ
feed_amount buffer_len stream_offset end_pos =
    min (end_pos - stream_offset) (buffer_len - stream_offset % buffer_len)

-- A round in which the encoder takes some of it.
unfoldable pub feed : ℕ → ℕ → ℕ → ℕ → ℕ → List ℕ → ℕ → Writer → Writer
feed buffer_len i start end_pos stream_offset fed consumed w = record w {
  threads =
      update i
        (Phase.compressing start end_pos (stream_offset + consumed)
          (fed ++ slice w.buffer (stream_offset % buffer_len) consumed))
        w.threads;
}

-- A thread has the lock again after `do_compress`, which gave `packed`.
unfoldable pub compressed : ℕ → ℕ → ℕ → List ℕ → Writer → Writer
compressed i start end_pos packed w = record w {
  write_error = w.write_error || (length packed == 0);
  threads =
      update i
        (Phase.waiting start end_pos (
          header_bytes
            (record { compressed_length = length packed; uncompressed_length = end_pos - start })
          ++ packed))
        w.threads;
}

unfoldable pub start_write : ℕ → ℕ → ℕ → List ℕ → Writer → Writer
start_write i start end_pos outputbuf w = record w {
  threads = update i (Phase.writing start end_pos outputbuf) w.threads;
}

-- write_all of util.rs: a round of its loop, of which `write` writes some of what is left.
unfoldable pub write_some : ℕ → ℕ → ℕ → List ℕ → ℕ → Writer → Writer
write_some i start end_pos outputbuf written w = record w {
  file = w.file ++ take written outputbuf;
  threads = update i (Phase.writing start end_pos (drop written outputbuf)) w.threads;
}

-- The end of a round of a thread's loop.
unfoldable pub end_round : ℕ → Writer → Writer
end_round i w = record w {
  thread_pos = update i none w.thread_pos;
  threads = update i Phase.idle w.threads;
}
