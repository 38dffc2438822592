-- ===== src/Compressed/Writer/Sleep.antt =====
-- trace/compressed_writer.rs: the condition variable. The steps of a writer, with who sleeps in
-- `cond_var.wait` and who is woken by `cond_var.notify_all`.
use rd.Prelude.{ℕ, ◌-◌, ◌/◌, leb, ◌==◌, if◌then◌else◌, Bool, true, false, not, ◌&&◌, ◌||◌, ◌≡◌}
use rd.Compressed.File.{Brotli}
use rd.Compressed.Writer.State.{Writer, Phase, Producer, new, other_thread_write_first}
use rd.Compressed.Writer.Produce.{buffer_len, poll}
use rd.Compressed.Writer.Compress.{can_take, can_stop}
use rd.Compressed.Writer.Steps.{
  Step, begins_write, writes, polls, ends_write, begins_close, ends_close, takes, stops, feeds,
  compresses, starts_writing, gives_up, writes_some, ends_writing,
}

pub data Actor : Type 0 where
  the_producer : Actor
  thread : ℕ → Actor

-- Who sleeps.
pub record Sleepers : Type 0 where
  pub of_threads : ℕ → Bool
  pub of_producer : Bool

abbrev pub nobody : Sleepers
nobody = record { of_threads = λ i. false; of_producer = false }

abbrev pub is_asleep : Actor → Sleepers → Bool
is_asleep the_producer z = z.of_producer
is_asleep (thread i) z = z.of_threads i

abbrev pub set_asleep : Bool → Actor → Sleepers → Sleepers
set_asleep asleep the_producer z = record z { of_producer = asleep }
set_asleep asleep (thread i) z = record z {
  of_threads = λ j. if i == j then asleep else z.of_threads j;
}

abbrev pub is_blocked : Producer → Bool
is_blocked (Producer.blocked _) = true
is_blocked _ = false

module _ (block_size num_threads : ℕ) where
  -- A thread comes to its `cond_var.wait`: it finds no block and may not stop, or another has to write
  -- first.
  unfoldable pub thread_must_wait : Writer → Phase → Bool
  thread_must_wait w Phase.idle = not (can_take block_size w || can_stop w)
  thread_must_wait w (Phase.compressing _ _ _ _) = false
  thread_must_wait w (Phase.waiting start _ _) =
      not w.write_error && other_thread_write_first num_threads w start
  thread_must_wait w (Phase.writing _ _ _) = false
  thread_must_wait w Phase.stopped = false

  -- The producer comes to that of `update_reservation`: another look finds no room.
  unfoldable pub producer_must_wait : Writer → Producer → Bool
  producer_must_wait w (Producer.blocked size) =
      is_blocked
        (poll block_size num_threads true (Producer.blocked size) (Producer.in_write size)
          w).producer
  producer_must_wait w _ = false

  abbrev pub must_wait : Writer → Actor → Bool
  must_wait w the_producer = producer_must_wait w w.producer
  must_wait w (thread i) = thread_must_wait w (w.threads i)

  module _ {b : Brotli} {stream : ℕ → ℕ} where
    -- Whose step it is.
    unfoldable pub actor : {w w' : Writer} → Step block_size num_threads b stream w w' → Actor
    actor (begins_write _ _) = the_producer
    actor (writes _ _ _ _) = the_producer
    actor (polls _ _) = the_producer
    actor (ends_write _ _ _) = the_producer
    actor (begins_close _) = the_producer
    actor (ends_close _ _) = the_producer
    actor (takes i _ _ _) = thread i
    actor (stops i _ _ _ _) = thread i
    actor (feeds i _ _ _ _ _ _ _ _) = thread i
    actor (compresses i _ _ _ _) = thread i
    actor (starts_writing i _ _ _ _ _ _) = thread i
    actor (gives_up i _ _ _ _ _) = thread i
    actor (writes_some i _ _ _ _ _ _ _) = thread i
    actor (ends_writing i _ _ _) = thread i

    -- Whether it calls notify_all: in `update_reservation`, which a round of `write` calls when nothing
    -- is reserved and the end of `write` when half of the buffer is full, at the end of a thread's
    -- round, and in `close` after `closing` is set. (The call by `update_reservation` in `close` comes
    -- before that, when a thread may still go to sleep again, and is not counted.)
    unfoldable pub notifies : {w w' : Writer} → Step block_size num_threads b stream w w' → Bool
    notifies (begins_write _ _) = false
    notifies {w} (writes _ _ _ _) =
        w.producer_reserved_upto_pos - w.producer_reserved_write_pos == 0
    notifies (polls _ _) = false
    notifies {w} (ends_write _ _ _) =
        not w.error
        && leb (buffer_len block_size num_threads / 2)
            (w.producer_reserved_write_pos - w.producer_reserved_pos)
    notifies (begins_close _) = true
    notifies (ends_close _ _) = false
    notifies (takes _ _ _ _) = false
    notifies (stops _ _ _ _ _) = false
    notifies (feeds _ _ _ _ _ _ _ _ _) = false
    notifies (compresses _ _ _ _ _) = false
    notifies (starts_writing _ _ _ _ _ _ _) = false
    notifies (gives_up _ _ _ _ _ _) = true
    notifies (writes_some _ _ _ _ _ _ _ _) = false
    notifies (ends_writing _ _ _ _) = true

  -- The states that are reached with sleepers. Who sleeps takes no step; one goes to sleep, with the
  -- lock, where the loop that it is in waits; and it may wake for no reason.
  pub data Runs (b : Brotli) (stream : ℕ → ℕ) : Writer → Sleepers → Type 0 where
    begins : Runs b stream new nobody
    acts :
        {w w' : Writer} {z : Sleepers}
        → Runs b stream w z
        → (step : Step block_size num_threads b stream w w') → is_asleep (actor step) z ≡ false
        → Runs b stream w' (if notifies step then nobody else z)
    sleeps :
        {w : Writer} {z : Sleepers} (a : Actor)
        → Runs b stream w z
        → must_wait w a ≡ true
        → Runs b stream w (set_asleep true a z)
    wakes :
        {w : Writer} {z : Sleepers} (a : Actor)
        → Runs b stream w z
        → Runs b stream w (set_asleep false a z)
