-- ===== src/Compressed/Writer/State.antt =====
-- trace/compressed_writer.rs: the state of a writer.
use rd.Prelude.{
  ℕ, zero, suc, min, ltb, ◌==◌, if◌then◌else◌, Bool, false, ◌||◌, Option, none, some, List, [], ◌∷◌,
}

unfoldable pub update {ℓ} : {A : Type ℓ} → ℕ → A → (ℕ → A) → ℕ → A
update i a f j = if i == j then a else f j

-- The n items of f from the item a on.
unfoldable pub slice : (ℕ → ℕ) → ℕ → ℕ → List ℕ
slice f a zero = []
slice f a (suc n) = f a ∷ slice f (suc a) n

-- Where a thread stands, with its local variables: the block of the stream that it works on, how far
-- the encoder has come in it and what it was fed, or the bytes that are left to write.
pub data Phase : Type 0 where
  idle : Phase
  compressing : (start end_pos stream_offset : ℕ) (fed : List ℕ) → Phase
  waiting : (start end_pos : ℕ) (outputbuf : List ℕ) → Phase
  writing : (start end_pos : ℕ) (outputbuf : List ℕ) → Phase
  stopped : Phase

-- Where the producer stands: between calls, in the loop of `write` with so much left to write, in the
-- loop of `update_reservation` in that loop, in `close` while the threads end, or after it.
pub data Producer : Type 0 where
  ready : Producer
  in_write : (size : ℕ) → Producer
  blocked : (size : ℕ) → Producer
  joining : Producer
  closed : Producer

-- CompressedWriter and CompressedWriterData, and the bytes of the file.
pub record Writer : Type 0 where
  pub thread_pos : ℕ → Option ℕ
  pub next_thread_pos : ℕ
  pub next_thread_end_pos : ℕ
  pub closing : Bool
  pub write_error : Bool
  pub producer_reserved_pos : ℕ
  pub producer_reserved_write_pos : ℕ
  pub producer_reserved_upto_pos : ℕ
  pub error : Bool
  pub buffer : ℕ → ℕ
  pub file : List ℕ
  pub threads : ℕ → Phase
  pub producer : Producer

-- CompressedWriter::new, of a file that could be made
unfoldable pub new : Writer
new = record {
  thread_pos = λ i. none;
  next_thread_pos = 0;
  next_thread_end_pos = 0;
  closing = false;
  write_error = false;
  producer_reserved_pos = 0;
  producer_reserved_write_pos = 0;
  producer_reserved_upto_pos = 0;
  error = false;
  buffer = λ i. 0;
  file = [];
  threads = λ i. Phase.idle;
  producer = Producer.ready;
}

-- The earlier of a position and that of a thread, if it has one.
unfoldable pub earlier : ℕ → Option ℕ → ℕ
earlier pos none = pos
earlier pos (some other) = min pos other

-- The loop of `update_reservation` over the first threads.
unfoldable pub completed_pos : ℕ → Writer → ℕ
completed_pos zero w = w.next_thread_pos
completed_pos (suc n) w = earlier (completed_pos n w) (w.thread_pos n)

unfoldable pub is_before : Option ℕ → ℕ → Bool
is_before none pos = false
is_before (some other) pos = ltb other pos

-- The loop that a thread waits in, over the first threads.
unfoldable pub other_thread_write_first : ℕ → Writer → ℕ → Bool
other_thread_write_first zero w pos = false
other_thread_write_first (suc n) w pos =
    is_before (w.thread_pos n) pos || other_thread_write_first n w pos
