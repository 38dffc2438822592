-- ===== src/Compressed/Writer/Reached.antt =====
-- trace/compressed_writer.rs: every step, and so every run, keeps the invariant.
use rd.Prelude.{ℕ, ◌^◌, ◌<◌, true, [], refl, arith}
use rd.Compressed.File.{Brotli}
use rd.Compressed.Blocks.{concat, Blocks, file_bytes}
use rd.Compressed.Writer.State.{Writer, Producer, new, slice}
use rd.Compressed.Writer.Compress.{stop}
use rd.Compressed.Writer.Steps.{
  Step, begins_write, writes, polls, ends_write, begins_close, ends_close, takes, stops, feeds,
  compresses, starts_writing, gives_up, writes_some, ends_writing, Reach, starts, steps,
}
use rd.Compressed.Writer.Spans.{Spans-none}
use rd.Compressed.Writer.Invariant.{Content}
use rd.Compressed.Writer.Kept.{
  Holds, still_open, Inv-producer, Inv-poll, Inv-write_round, Inv-end_write, Inv-begin_close,
  Inv-end_close,
}
use rd.Compressed.Writer.Runs.{
  Inv-take_block, Inv-stop, Inv-feed, Inv-compressed, Inv-start_write, Inv-write_some,
  Inv-end_round,
}

module _ (b : Brotli) (stream : ℕ → ℕ) (block_size num_threads : ℕ)
    (block_fits : block_size < 2 ^ 31) (block_some : 0 < block_size) where
  -- Every step keeps the invariant.
  pub Step-Inv :
      (w w' : Writer)
      → Step block_size num_threads b stream w w'
      → Holds b stream block_size num_threads w
      → Holds b stream block_size num_threads w'
  Step-Inv w _ (begins_write size e) r =
      Inv-producer b stream block_size num_threads w r (Producer.in_write size)
        (still_open b stream block_size num_threads w r Producer.ready e refl) refl
  Step-Inv w _ (writes size e _ _) r = Inv-write_round b stream block_size num_threads w size r e
  Step-Inv w _ (polls size e) r =
      Inv-poll b stream block_size num_threads w r true (Producer.blocked size)
        (Producer.in_write size)
        (still_open b stream block_size num_threads w r (Producer.blocked size) e refl) refl refl
  Step-Inv w _ (ends_write size e _) r = Inv-end_write b stream block_size num_threads w size r e
  Step-Inv w _ (begins_close e) r = Inv-begin_close b stream block_size num_threads w r e
  Step-Inv w _ (ends_close e all) r = Inv-end_close b stream block_size num_threads w r e all
  Step-Inv w _ (takes i small e can) r =
      Inv-take_block b stream block_size num_threads block_fits block_some w r i small e can
  Step-Inv w _ (stops i small e _ can) r =
      Inv-stop b stream block_size num_threads block_fits block_some w r i small e can
  Step-Inv w _ (feeds i start stop offset fed consumed e _ fits) r =
      Inv-feed b stream block_size num_threads block_fits block_some w r i start stop offset fed
        consumed e fits
  Step-Inv w _ (compresses i start stop fed e) r =
      Inv-compressed b stream block_size num_threads block_fits block_some w r i start stop fed e
  Step-Inv w _ (starts_writing i start stop out e _ first) r =
      Inv-start_write b stream block_size num_threads block_fits block_some w r i start stop out e
        first
  Step-Inv w _ (gives_up i start stop out e failed) r =
      absurd (ground (arith, failed, r.ends.no_write_error))
  Step-Inv w _ (writes_some i start stop out k e _ _) r =
      Inv-write_some b stream block_size num_threads block_fits block_some w r i start stop out k e
  Step-Inv w _ (ends_writing i start stop e) r =
      Inv-end_round b stream block_size num_threads block_fits block_some w r i start stop e

  Inv-new : Holds b stream block_size num_threads new
  unfolding new Content concat Blocks file_bytes slice
  Inv-new = record {
    blocks = [];
    working = record {
      positions = λ i. refl;
      spans = Spans-none block_size num_threads;
      content = λ i. tt;
    };
    written = record { front = λ i. tt; settled = λ h. refl; whole = refl; blocks_fit = tt };
    ring = record {
      dispatched = omega arith;
      published = refl;
      pending = omega arith;
      reservation = omega arith;
      room = omega arith;
      holds = λ p low high. absurd (omega arith);
    };
    ends = record {
      flag = refl;
      no_write_error = refl;
      no_error = refl;
      finished = λ h. absurd (ground (arith, h));
      after = λ i h. absurd (ground (arith, h));
      all_stopped = λ h. absurd (ground (arith, h));
    };
  }

  pub Reach-Inv :
      (w : Writer)
      → Reach block_size num_threads b stream w
      → Holds b stream block_size num_threads w
  Reach-Inv _ starts = Inv-new
  Reach-Inv w (steps {w = v} r st) = Step-Inv v w st (Reach-Inv v r)
