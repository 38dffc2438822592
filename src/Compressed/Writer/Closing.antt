-- ===== src/Compressed/Writer/Closing.antt =====
-- trace/compressed_writer.rs: the flags, and the threads that have stopped, through the steps.
use rd.Prelude.{ℕ, ◌<◌, Bool, true, false, ◌≡◌, refl, sym, ap, ◌∙◌, arith, ◌⊎◌, inl, inr}
use rd.Compressed.Writer.State.{Phase, Producer, update}
use rd.Compressed.Writer.Spans.{update-cases}
use rd.Compressed.Writer.Invariant.{is_closing, Ends}
use rd.Compressed.File.{Brotli}

abbrev pub is_stopped : Phase → Bool
is_stopped Phase.stopped = true
is_stopped _ = false

module _ (b : Brotli) (stream : ℕ → ℕ) (block_size num_threads : ℕ) where
  module _ (closing write_error error : Bool) (producer : Producer) (next end_pos write_pos : ℕ)
      (threads : ℕ → Phase)
      (e : Ends b stream block_size num_threads closing write_error error producer next end_pos
        write_pos threads) where
    -- While the writer is not being closed, no thread has stopped.
    pub Ends-producer :
        (p : Producer) (end' write' : ℕ)
        → closing ≡ false
        → is_closing p ≡ false
        → Ends b stream block_size num_threads closing write_error error p next end' write' threads
    Ends-producer p end' write' open_ working = record {
      flag = open_ ∙ sym working;
      no_write_error = e.no_write_error;
      no_error = e.no_error;
      finished = λ h. absurd (ground (arith, h, open_));
      after = λ i h. absurd (ground (arith, (e.after i h).0, open_));
      all_stopped = λ h. absurd (ground (arith, h, working));
    }

    pub Ends-close :
        closing ≡ false
        → Ends b stream block_size num_threads true write_error error Producer.joining next
            write_pos write_pos threads
    Ends-close open_ = record {
      flag = refl;
      no_write_error = e.no_write_error;
      no_error = e.no_error;
      finished = λ h. refl;
      after = λ i h. absurd (ground (arith, (e.after i h).0, open_));
      all_stopped = λ h. absurd (ground (arith, h));
    }

    -- A thread goes on.
    pub Ends-phase :
        (i next' : ℕ) (p : Phase)
        → i < num_threads
        → is_stopped (threads i) ≡ false
        → is_stopped p ≡ false
        → (next' ≡ next) ⊎ (next < end_pos)
        → Ends b stream block_size num_threads closing write_error error producer next' end_pos
            write_pos
            (update i p threads)
    Ends-phase i next' p small was runs moved = record {
      flag = e.flag;
      no_write_error = e.no_write_error;
      no_error = e.no_error;
      finished = e.finished;
      after = λ j h. elim (update-cases i j p threads) [
        | inl (_, e') ↦ absurd (ground (arith, sym runs ∙ ap is_stopped (sym e' ∙ h)))
        | inr (_, e') ↦
            let (closes, all) = e.after j (sym e' ∙ h) in
            (closes, elim moved [ inl same ↦ same ∙ all | inr less ↦ absurd (omega arith) ])
      ];
      all_stopped = λ h. absurd (ground (arith, sym was ∙ ap is_stopped (e.all_stopped h i small)));
    }

    pub Ends-stop :
        (i : ℕ)
        → closing ≡ true
        → next ≡ end_pos
        → Ends b stream block_size num_threads closing write_error error producer next end_pos
            write_pos
            (update i Phase.stopped threads)
    Ends-stop i closes all = record {
      flag = e.flag;
      no_write_error = e.no_write_error;
      no_error = e.no_error;
      finished = e.finished;
      after = λ j h. (closes, all);
      all_stopped = λ h j small. elim (update-cases i j Phase.stopped threads) [
        | inl (_, e') ↦ e'
        | inr (_, e') ↦ e' ∙ e.all_stopped h j small
      ];
    }

    pub Ends-closed :
        producer ≡ Producer.joining
        → ((i : ℕ) → i < num_threads → threads i ≡ Phase.stopped)
        → Ends b stream block_size num_threads closing write_error error Producer.closed next
            end_pos write_pos threads
    Ends-closed joins all = record {
      flag = e.flag ∙ ap is_closing joins;
      no_write_error = e.no_write_error;
      no_error = e.no_error;
      finished = e.finished;
      after = e.after;
      all_stopped = λ h. all;
    }
