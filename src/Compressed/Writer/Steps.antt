-- ===== src/Compressed/Writer/Steps.antt =====
-- trace/compressed_writer.rs: the steps of a writer, in any order.
use rd.Prelude.{ℕ, ◌≤◌, ◌<◌, ◌==◌, true, false, ◌||◌, List, [], length, ◌≡◌}
use rd.Compressed.File.{Brotli}
use rd.Compressed.Writer.State.{Writer, Phase, Producer, new, other_thread_write_first}
use rd.Compressed.Writer.Produce.{buffer_len, poll, write_round, end_write, begin_close, end_close}
use rd.Compressed.Writer.Compress.{
  can_take, take_block, can_stop, stop, feed_amount, feed, compressed, start_write, write_some,
  end_round,
}

module _ (block_size num_threads : ℕ) where
  -- What the producer or a thread may do next. What a thread does under the lock is one step, and so is
  -- what it does without it to data that no other has.
  pub data Step (b : Brotli) (stream : ℕ → ℕ) (w : Writer) : Writer → Type 0 where
    begins_write :
        (size : ℕ)
        → w.producer ≡ Producer.ready
        → Step b stream w (record w { producer = Producer.in_write size })
    writes :
        (size : ℕ)
        → w.producer ≡ Producer.in_write size
        → w.error ≡ false
        → 0 < size
        → Step b stream w (write_round block_size num_threads stream size w)
    polls :
        (size : ℕ)
        → w.producer ≡ Producer.blocked size
        → Step b stream w
            (poll block_size num_threads true (Producer.blocked size) (Producer.in_write size) w)
    ends_write :
        (size : ℕ)
        → w.producer ≡ Producer.in_write size
        → (w.error || (size == 0)) ≡ true
        → Step b stream w (end_write block_size num_threads w)
    begins_close :
        w.producer ≡ Producer.ready → Step b stream w (begin_close block_size num_threads w)
    ends_close :
        w.producer ≡ Producer.joining
        → ((i : ℕ) → i < num_threads → w.threads i ≡ Phase.stopped)
        → Step b stream w (end_close w)
    takes :
        (i : ℕ)
        → i < num_threads
        → w.threads i ≡ Phase.idle
        → can_take block_size w ≡ true
        → Step b stream w (take_block block_size i w)
    stops :
        (i : ℕ)
        → i < num_threads
        → w.threads i ≡ Phase.idle
        → can_take block_size w ≡ false
        → can_stop w ≡ true
        → Step b stream w (stop i w)
    feeds :
        (i start end_pos stream_offset : ℕ) (fed : List ℕ) (consumed : ℕ)
        → w.threads i ≡ Phase.compressing start end_pos stream_offset fed
        → stream_offset < end_pos
        → consumed ≤ feed_amount (buffer_len block_size num_threads) stream_offset end_pos
        → Step b stream w
            (feed (buffer_len block_size num_threads) i start end_pos stream_offset fed consumed w)
    compresses :
        (i start end_pos : ℕ) (fed : List ℕ)
        → w.threads i ≡ Phase.compressing start end_pos end_pos fed
        → Step b stream w (compressed i start end_pos (b.compress fed) w)
    starts_writing :
        (i start end_pos : ℕ) (outputbuf : List ℕ)
        → w.threads i ≡ Phase.waiting start end_pos outputbuf
        → w.write_error ≡ false
        → other_thread_write_first num_threads w start ≡ false
        → Step b stream w (start_write i start end_pos outputbuf w)
    gives_up :
        (i start end_pos : ℕ) (outputbuf : List ℕ)
        → w.threads i ≡ Phase.waiting start end_pos outputbuf
        → w.write_error ≡ true
        → Step b stream w (end_round i w)
    writes_some :
        (i start end_pos : ℕ) (outputbuf : List ℕ) (written : ℕ)
        → w.threads i ≡ Phase.writing start end_pos outputbuf
        → 0 < written
        → written ≤ length outputbuf
        → Step b stream w (write_some i start end_pos outputbuf written w)
    ends_writing :
        (i start end_pos : ℕ)
        → w.threads i ≡ Phase.writing start end_pos []
        → Step b stream w (end_round i w)

  -- The states that are reached from a new writer.
  pub data Reach (b : Brotli) (stream : ℕ → ℕ) : Writer → Type 0 where
    starts : Reach b stream new
    steps : {w w' : Writer} → Reach b stream w → Step b stream w w' → Reach b stream w'
