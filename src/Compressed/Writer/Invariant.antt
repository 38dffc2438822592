-- ===== src/Compressed/Writer/Invariant.antt =====
-- trace/compressed_writer.rs: what holds of a writer whenever no thread is within a step.
use rd.Prelude.{
  ℕ, ◌+◌, ◌-◌, ◌%◌, ◌≤◌, ◌<◌, Bool, true, false, Option, none, some, List, ◌++◌, length, ◌≡◌,
}
use rd.Compressed.File.{Brotli, block_bytes}
use rd.Compressed.Blocks.{concat, Blocks, file_bytes}
use rd.Compressed.Writer.State.{Writer, Phase, Producer, slice}
use rd.Compressed.Writer.Produce.{buffer_len}
use rd.Compressed.Writer.Spans.{Spans}

-- The block of the stream that a thread works on.
abbrev pub span : Phase → Option (ℕ × ℕ)
span Phase.idle = none
span (Phase.compressing start end_pos _ _) = some (start, end_pos)
span (Phase.waiting start end_pos _) = some (start, end_pos)
span (Phase.writing start end_pos _) = some (start, end_pos)
span Phase.stopped = none

abbrev pub span_start : Option (ℕ × ℕ) → Option ℕ
span_start none = none
span_start (some (start, _)) = some start

abbrev pub is_writing : Phase → Bool
is_writing (Phase.writing _ _ _) = true
is_writing _ = false

abbrev pub is_closing : Producer → Bool
is_closing Producer.joining = true
is_closing Producer.closed = true
is_closing _ = false

module _ (b : Brotli) (stream : ℕ → ℕ) where
  abbrev pub part : ℕ → ℕ → List ℕ
  part start end_pos = slice stream start (end_pos - start)

  -- What a thread was fed, or has to write.
  unfoldable pub Content : Phase → Type 0
  Content (Phase.compressing start end_pos stream_offset fed) =
      (start ≤ stream_offset) × (stream_offset ≤ end_pos) × (fed ≡ part start stream_offset)
  Content (Phase.waiting start end_pos outputbuf) = outputbuf ≡ block_bytes b (part start end_pos)
  Content _ = Unit

  -- A thread that writes has the next block for the file, and some of it is in the file.
  abbrev pub Front : List ℕ → List (List ℕ) → Phase → Type 0
  Front file blocks (Phase.writing start end_pos out) =
      (start ≡ length (concat blocks))
      × (file ++ out ≡ file_bytes b blocks ++ block_bytes b (part start end_pos))
  Front file blocks _ = Unit

  -- The file: the finished blocks and, while a thread writes, some of the next.
  pub record Written (threads : ℕ → Phase) (file : List ℕ) (blocks : List (List ℕ)) : Type 0 where
    pub front : (i : ℕ) → Front file blocks (threads i)
    pub settled : ((i : ℕ) → is_writing (threads i) ≡ false) → file ≡ file_bytes b blocks
    pub whole : concat blocks ≡ slice stream 0 (length (concat blocks))
    pub blocks_fit : Blocks blocks

  module _ (block_size num_threads : ℕ) where
    abbrev len : ℕ
    len = buffer_len block_size num_threads

    pub record Threads (thread_pos : ℕ → Option ℕ) (threads : ℕ → Phase) (done next : ℕ)
        : Type 0 where
      pub positions : (i : ℕ) → thread_pos i ≡ span_start (span (threads i))
      pub spans : Spans block_size num_threads done next (λ i. span (threads i))
      pub content : (i : ℕ) → Content (threads i)

    -- The ring buffer: what it holds, and how much of it is in use.
    pub record Ring (buffer : ℕ → ℕ) (done next end_pos write_pos reserved upto : ℕ) : Type 0 where
      pub dispatched : next ≤ end_pos
      pub published : reserved ≡ end_pos
      pub pending : end_pos ≤ write_pos
      pub reservation : write_pos ≤ upto
      pub room : upto ≤ done + len
      pub holds : (p : ℕ) → done ≤ p → p < write_pos → buffer (p % len) ≡ stream p

    pub record Ends (closing write_error error : Bool) (producer : Producer)
        (next end_pos write_pos : ℕ) (threads : ℕ → Phase) : Type 0 where
      pub flag : closing ≡ is_closing producer
      pub no_write_error : write_error ≡ false
      pub no_error : error ≡ false
      pub finished : closing ≡ true → end_pos ≡ write_pos
      pub after : (i : ℕ) → threads i ≡ Phase.stopped → (closing ≡ true) × (next ≡ end_pos)
      pub all_stopped :
          producer ≡ Producer.closed → (i : ℕ) → i < num_threads → threads i ≡ Phase.stopped

    pub record Inv (w : Writer) : Type 0 where
      pub blocks : List (List ℕ)
      pub working : Threads w.thread_pos w.threads (length (concat blocks)) w.next_thread_pos
      pub written : Written w.threads w.file blocks
      pub ring :
          Ring w.buffer
            (length (concat blocks))
            w.next_thread_pos
            w.next_thread_end_pos
            w.producer_reserved_write_pos
            w.producer_reserved_pos
            w.producer_reserved_upto_pos
      pub ends :
          Ends w.closing w.write_error w.error w.producer w.next_thread_pos w.next_thread_end_pos
            w.producer_reserved_write_pos w.threads
