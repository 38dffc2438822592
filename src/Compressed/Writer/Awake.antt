-- ===== src/Compressed/Writer/Awake.antt =====
-- trace/compressed_writer.rs: while the producer waits, somebody who is awake can go on.
use rd.Prelude.{
  ℕ, ◌-◌, ◌/◌, ◌<◌, ◌^◌, leb, ◌==◌, not, ◌&&◌, if◌then◌else◌, Bool, Bool-cases, true, false, length,
  if-both, ◌+◌, ◌++◌, ◌%◌, drop, ◌≡◌, refl, sym, ap, subst, ◌∙◌, arith, ◌⊎◌, inl, inr,
}
use rd.Compressed.File.{Brotli, header_bytes}
use rd.Compressed.Writer.State.{Writer, Phase, Producer, new, slice}
use rd.Compressed.Writer.Produce.{buffer_len, poll, write_round, end_write, end_close}
use rd.Compressed.Writer.Compress.{stop, feed, compressed, start_write, write_some}
use rd.Compressed.Writer.Steps.{
  Step, begins_write, writes, polls, ends_write, begins_close, ends_close, takes, stops, feeds,
  compresses, starts_writing, gives_up, writes_some, ends_writing, Reach, starts, steps,
}
use rd.Compressed.Writer.Sleep.{
  Actor, the_producer, thread, Sleepers, nobody, is_asleep, is_blocked, thread_must_wait,
  producer_must_wait, actor, notifies, Runs, begins, acts, sleeps, wakes,
}
use rd.Compressed.Writer.Invariant.{span, span_start}
use rd.Compressed.Writer.Kept.{Holds}
use rd.Compressed.Writer.Reached.{Reach-Inv}
use rd.Compressed.Writer.Rested.{Shared, NoErrors, Rested, by_producer, by_thread, by_take}
use rd.Compressed.Writer.Liveness.{can_go, blocked-goes, joining-goes, can_go-Step}

shared :
    {w w' : Writer}
    → w'.thread_pos ≡ w.thread_pos
    → w'.next_thread_pos ≡ w.next_thread_pos
    → w'.next_thread_end_pos ≡ w.next_thread_end_pos
    → w'.closing ≡ w.closing
    → w'.write_error ≡ w.write_error
    → Shared w w'
shared a b c d e = record {
  thread_pos = a;
  next_thread_pos = b;
  next_thread_end_pos = c;
  closing = d;
  write_error = e;
}

module _ (b : Brotli) (stream : ℕ → ℕ) (block_size num_threads : ℕ)
    (block_fits : block_size < 2 ^ 31) (block_some : 0 < block_size) where
  -- The states with sleepers are reached without them too.
  Runs-Reach :
      {w : Writer} {z : Sleepers}
      → Runs block_size num_threads b stream w z
      → Reach block_size num_threads b stream w
  Runs-Reach begins = starts
  Runs-Reach (acts r step awake) = steps (Runs-Reach r) step
  Runs-Reach (sleeps a r waits) = Runs-Reach r
  Runs-Reach (wakes a r) = Runs-Reach r

  -- And the other way round, with nobody asleep.
  pub Reach-Runs :
      {w : Writer}
      → Reach block_size num_threads b stream w
      → Runs block_size num_threads b stream w nobody
  Reach-Runs starts = begins
  Reach-Runs (steps {w} {w'} r step) =
      subst (Runs block_size num_threads b stream w') (still (notifies block_size num_threads step))
        (acts (Reach-Runs r) step (nobody_is (actor block_size num_threads step)))
    where
      still : (e : Bool) → (if e then nobody else nobody) ≡ nobody
      still true = refl
      still false = refl

      nobody_is : (a : Actor) → is_asleep a nobody ≡ false
      nobody_is the_producer = refl
      nobody_is (thread i) = refl

  no_errors : (w : Writer) → Holds b stream block_size num_threads w → NoErrors w
  no_errors w r = record { write_error = r.ends.no_write_error; error = r.ends.no_error }

  -- A step without notify_all leaves who sleeps with a reason to.
  Step-Rested :
      (w w' : Writer) (z : Sleepers)
      → Holds b stream block_size num_threads w
      → Holds b stream block_size num_threads w'
      → (step : Step block_size num_threads b stream w w')
      → notifies block_size num_threads step ≡ false
      → is_asleep (actor block_size num_threads step) z ≡ false
      → Rested block_size num_threads w z
      → Rested block_size num_threads w' z
  unfolding actor notifies write_round end_write end_close poll stop feed compressed start_write
      write_some
  Step-Rested w w' z h h' (begins_write size e) quiet awake r =
      by_producer block_size num_threads w w' z r (shared refl refl refl refl refl) (λ i. refl)
        awake
  Step-Rested w w' z h h' (writes size e ok some_left) quiet awake r =
      if-both (λ (v : Writer). Rested block_size num_threads v z)
        (w.producer_reserved_upto_pos - w.producer_reserved_write_pos == 0) _ _
        (λ (c : (w.producer_reserved_upto_pos - w.producer_reserved_write_pos == 0) ≡ true).
          absurd (ground (arith, c, quiet)))
        (λ _.
          by_producer block_size num_threads w _ z r (shared refl refl refl refl refl) (λ i. refl)
            awake)
  Step-Rested w w' z h h' (polls size e) quiet awake r =
      if-both (λ (v : Writer). Rested block_size num_threads v z) w.error _ _
        (λ _.
          by_producer block_size num_threads w _ z r (shared refl refl refl refl refl) (λ i. refl)
            awake)
        (λ _.
          if-both (λ (v : Writer). Rested block_size num_threads v z) w.write_error _ _
            (λ _.
              by_producer block_size num_threads w _ z r (shared refl refl refl refl refl)
                (λ i. refl) awake)
            (λ _.
              by_producer block_size num_threads w _ z r (shared refl refl refl refl refl)
                (λ i. refl) awake))
  Step-Rested w w' z h h' (ends_write size e over) quiet awake r =
      if-both (λ (v : Writer). Rested block_size num_threads v z)
        (not w.error
          && leb (buffer_len block_size num_threads / 2)
              (w.producer_reserved_write_pos - w.producer_reserved_pos))
        _ _ (λ c. absurd (ground (arith, c, quiet)))
        (λ _.
          by_producer block_size num_threads w _ z r (shared refl refl refl refl refl) (λ i. refl)
            awake)
  Step-Rested w w' z h h' (begins_close e) quiet awake r = absurd (cc)
  Step-Rested w w' z h h' (ends_close e all) quiet awake r =
      by_producer block_size num_threads w w' z r (shared refl refl refl refl refl) (λ i. refl)
        awake
  Step-Rested w w' z h h' (takes i small e can) quiet awake r =
      by_take block_size num_threads w w' z r i small (no_errors w h)
        (h.working.positions i ∙ ap span_start (ap span e)) can refl awake
  Step-Rested w w' z h h' (stops i small e full can) quiet awake r =
      by_thread block_size num_threads w w' z r i (Phase.stopped) (shared refl refl refl refl refl)
        (no_errors w h) (no_errors w' h') refl refl refl awake
  Step-Rested w w' z h h' (feeds i start last offset fed consumed e more fits) quiet awake r =
      by_thread block_size num_threads w w' z r i
        (Phase.compressing start last (offset + consumed)
          (fed ++ slice w.buffer (offset % buffer_len block_size num_threads) consumed))
        (shared refl refl refl refl refl) (no_errors w h) (no_errors w' h') refl refl refl awake
  Step-Rested w w' z h h' (compresses i start last fed e) quiet awake r =
      by_thread block_size num_threads w w' z r i
        (Phase.waiting start last (
          header_bytes (record {
            compressed_length = length (b.compress fed);
            uncompressed_length = last - start;
          })
          ++ b.compress fed))
        (shared refl refl refl refl (h'.ends.no_write_error ∙ sym h.ends.no_write_error))
        (no_errors w h) (no_errors w' h') refl refl refl awake
  Step-Rested w w' z h h' (starts_writing i start last out e ok first) quiet awake r =
      by_thread block_size num_threads w w' z r i (Phase.writing start last out)
        (shared refl refl refl refl refl) (no_errors w h) (no_errors w' h') refl refl refl awake
  Step-Rested w w' z h h' (gives_up i start last out e failed) quiet awake r = absurd (cc)
  Step-Rested w w' z h h' (writes_some i start last out k e positive fits) quiet awake r =
      by_thread block_size num_threads w w' z r i (Phase.writing start last (drop k out))
        (shared refl refl refl refl refl) (no_errors w h) (no_errors w' h') refl refl refl awake
  Step-Rested w w' z h h' (ends_writing i start last e) quiet awake r = absurd (cc)

  nobody-Rested : (w : Writer) → Rested block_size num_threads w nobody
  nobody-Rested w = record { threads = λ i h. absurd (cc); producer = λ h. absurd (cc) }

  -- Who sleeps has to wait, in every state that is reached.
  Runs-Rested :
      {w : Writer} {z : Sleepers}
      → Runs block_size num_threads b stream w z
      → Rested block_size num_threads w z
  Runs-Rested begins = nobody-Rested new
  Runs-Rested (acts {w} {w'} {z} r step awake) =
      if-both (Rested block_size num_threads w') (notifies block_size num_threads step) nobody z
        (λ _. nobody-Rested w')
        (λ quiet.
          let reach = Runs-Reach r in
          Step-Rested w w' z
            (Reach-Inv b stream block_size num_threads block_fits block_some w reach)
            (Reach-Inv b stream block_size num_threads block_fits block_some w' (steps reach step))
            step quiet awake (Runs-Rested r))
  Runs-Rested (sleeps {w} {z} the_producer r waits) = record {
    threads = (Runs-Rested r).threads;
    producer = λ h. waits;
  }
  Runs-Rested (sleeps {w} {z} (thread i) r waits) = record {
    threads = λ j h. elim (Bool-cases (i == j)) [
      | inl e ↦
          subst (λ k. thread_must_wait block_size num_threads w (w.threads k) ≡ true) (ground arith)
            waits
      | inr e ↦ (Runs-Rested r).threads j (ground (arith, e, h))
    ];
    producer = (Runs-Rested r).producer;
  }
  Runs-Rested (wakes the_producer r) = record {
    threads = (Runs-Rested r).threads;
    producer = λ h. absurd (cc);
  }
  Runs-Rested (wakes {w} {z} (thread i) r) = record {
    threads = λ j h. (Runs-Rested r).threads j (ground arith);
    producer = (Runs-Rested r).producer;
  }

  goes_or_waits :
      (w : Writer) (p : Phase)
      → thread_must_wait block_size num_threads w p ≡ true
      → can_go block_size num_threads w p ≡ false
  unfolding thread_must_wait can_go
  goes_or_waits w Phase.idle h = ground arith
  goes_or_waits w (Phase.compressing _ _ _ _) h = absurd (cc)
  goes_or_waits w (Phase.waiting _ _ _) h = ground arith
  goes_or_waits w (Phase.writing _ _ _) h = absurd (cc)
  goes_or_waits w Phase.stopped h = refl

  -- A thread that is awake has a step.
  abbrev pub SomeThread : Writer → Sleepers → Type 0
  SomeThread w z =
      (i : ℕ) × (i < num_threads)
      × (z.of_threads i ≡ false)
      × (w' : Writer) × (step : Step block_size num_threads b stream w w') × (actor block_size
            num_threads step
          ≡ thread i)

  module _ (w : Writer) (z : Sleepers) (runs : Runs block_size num_threads b stream w z) where
    awake : (i : ℕ) → can_go block_size num_threads w (w.threads i) ≡ true → z.of_threads i ≡ false
    awake i can = elim (Bool-cases (z.of_threads i)) [
      | inr e ↦ e
      | inl asleep ↦
          let waits = goes_or_waits w (w.threads i) ((Runs-Rested runs).threads i asleep) in
          absurd (ground (arith, can, waits))
    ]

    goes :
        (i : ℕ)
        → i < num_threads
        → can_go block_size num_threads w (w.threads i) ≡ true
        → SomeThread w z
    goes i small can =
        let (w', step, its) =
          can_go-Step b stream block_size num_threads block_fits block_some w (Runs-Reach runs) i
            small can in
        (i, small, awake i can, w', step, its)

    -- In a state that a writer with a thread, and with blocks of 1 to 2 ^ 31 - 1 bytes, reaches with
    -- sleepers, a producer that found no room in the ring buffer is not stuck: some thread that is awake
    -- has a step, or the producer is awake and its next look finds room. Who sleeps in
    -- cond_var.wait takes no step before a notify_all or a spurious wake-up.
    pub blocked-awake :
        (size : ℕ)
        → 0 < num_threads
        → w.producer ≡ Producer.blocked size
        → SomeThread w z
          ⊎ (((poll block_size num_threads true
                  (Producer.blocked size)
                  (Producer.in_write size)
                  w).producer
                ≡ Producer.in_write size)
              × (z.of_producer ≡ false))
    unfolding producer_must_wait
    blocked-awake size some_thread e =
        elim (blocked-goes b stream block_size num_threads block_fits block_some w (Runs-Reach runs)
          size some_thread e) [
            | inl (i, small, can) ↦ inl (goes i small can)
            | inr room ↦ inr (
              room,
              elim (Bool-cases z.of_producer) [
                | inr up ↦ up
                | inl asleep ↦
                    let waits =
                      subst (λ (p : Producer). producer_must_wait block_size num_threads w p ≡ true)
                        e ((Runs-Rested runs).producer asleep) in
                    absurd (ground (arith, ap is_blocked room, waits))
              ],
            )
          ]

    -- In a state that a writer with blocks of 1 to 2 ^ 31 - 1 bytes reaches with sleepers, while the
    -- producer waits in `close` for the threads to end, some thread that is awake has a step, or all
    -- have stopped. Who sleeps in cond_var.wait takes no step before a notify_all or a spurious
    -- wake-up.
    pub joining-awake :
        w.producer ≡ Producer.joining
        → SomeThread w z ⊎ ((i : ℕ) → i < num_threads → w.threads i ≡ Phase.stopped)
    joining-awake e =
        elim (joining-goes b stream block_size num_threads block_fits block_some w (Runs-Reach runs)
          e) [ inl (i, small, can) ↦ inl (goes i small can) | inr all ↦ inr all ]
