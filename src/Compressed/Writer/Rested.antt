-- ===== src/Compressed/Writer/Rested.antt =====
-- trace/compressed_writer.rs: who sleeps has to wait, whatever the others do meanwhile.
use rd.Prelude.{
  ℕ, zero, suc, ◌+◌, ◌<◌, ◌≤◌, min, ltb, ◌==◌, not, if◌then◌else◌, Bool-cases, true, false, Option,
  none, some, ◌≡◌, refl, sym, ap, subst, ◌∙◌, arith, inl, inr,
}
use rd.Compressed.Writer.State.{
  Writer, Phase, Producer, update, completed_pos, earlier, other_thread_write_first, is_before,
}
use rd.Compressed.Writer.Produce.{buffer_len, poll}
use rd.Compressed.Writer.Compress.{can_take, can_stop, take_block}
use rd.Compressed.Writer.Sleep.{Sleepers, thread_must_wait, producer_must_wait}

-- What the threads share is the same.
pub record Shared (w w' : Writer) : Type 0 where
  pub thread_pos : w'.thread_pos ≡ w.thread_pos
  pub next_thread_pos : w'.next_thread_pos ≡ w.next_thread_pos
  pub next_thread_end_pos : w'.next_thread_end_pos ≡ w.next_thread_end_pos
  pub closing : w'.closing ≡ w.closing
  pub write_error : w'.write_error ≡ w.write_error

pub record NoErrors (w : Writer) : Type 0 where
  pub write_error : w.write_error ≡ false
  pub error : w.error ≡ false

other_thread_write_first-Shared :
    (n : ℕ) (w w' : Writer) (pos : ℕ)
    → w'.thread_pos ≡ w.thread_pos
    → other_thread_write_first n w' pos ≡ other_thread_write_first n w pos
unfolding other_thread_write_first
other_thread_write_first-Shared zero w w' pos h = refl
other_thread_write_first-Shared (suc n) w w' pos h =
    ground (arith, other_thread_write_first-Shared n w w' pos h, ap (λ (f : ℕ → Option ℕ). f n) h)

completed_pos-Shared :
    (n : ℕ) (w w' : Writer)
    → w'.thread_pos ≡ w.thread_pos
    → w'.next_thread_pos ≡ w.next_thread_pos
    → completed_pos n w' ≡ completed_pos n w
unfolding completed_pos
completed_pos-Shared zero w w' h k = k
completed_pos-Shared (suc n) w w' h k =
    ground (arith, completed_pos-Shared n w w' h k, ap (λ (f : ℕ → Option ℕ). f n) h)

-- A thread without a block takes one that begins at `p`.
module _ (i p end_pos : ℕ) (w w' : Writer) (took : w'.thread_pos ≡ update i (some p) w.thread_pos)
    (free : w.thread_pos i ≡ none) where
  taken_pos : (n : ℕ) → w'.thread_pos n ≡ (if i == n then some p else w.thread_pos n)
  unfolding update
  taken_pos n = ap (λ (f : ℕ → Option ℕ). f n) took

  freed : (n : ℕ) → (i == n) ≡ true → w.thread_pos n ≡ none
  freed n e = subst (λ (j : ℕ). w.thread_pos j ≡ none) (ground arith) free

  -- Who had to let another write first still has to.
  other_thread_write_first-taken :
      (n pos : ℕ)
      → other_thread_write_first n w pos ≡ true
      → other_thread_write_first n w' pos ≡ true
  unfolding other_thread_write_first is_before
  other_thread_write_first-taken zero pos h = h
  other_thread_write_first-taken (suc n) pos h = elim (Bool-cases (i == n)) [
    | inl e ↦ ground (arith, e, freed n e, taken_pos n, other_thread_write_first-taken n pos)
    | inr e ↦ ground (arith, e, taken_pos n, other_thread_write_first-taken n pos)
  ]

  -- The earliest position is the same, which is not after `p`.
  completed_pos-taken :
      w.next_thread_pos ≡ p
      → p ≤ w'.next_thread_pos
      → (n : ℕ) → min (completed_pos n w') p ≡ completed_pos n w
  unfolding completed_pos earlier
  completed_pos-taken at le zero = ground (arith, at)
  completed_pos-taken at le (suc n) = elim (Bool-cases (i == n)) [
    | inl e ↦ ground (arith, e, freed n e, taken_pos n, completed_pos-taken at le n)
    | inr e ↦ ground (arith, e, taken_pos n, completed_pos-taken at le n)
  ]

  completed_pos-le : (n : ℕ) → i < n → completed_pos n w' ≤ p
  unfolding completed_pos earlier
  completed_pos-le zero h = absurd (omega arith)
  completed_pos-le (suc n) h = elim (Bool-cases (i == n)) [
    | inl e ↦ ground (arith, e, taken_pos n)
    | inr e ↦ ground (arith, e, taken_pos n, completed_pos-le n)
  ]

module _ (block_size num_threads : ℕ) where
  pub thread_must_wait-Shared :
      (w w' : Writer) (p : Phase)
      → Shared w w'
      → thread_must_wait block_size num_threads w p ≡ true
      → thread_must_wait block_size num_threads w' p ≡ true
  unfolding thread_must_wait can_take can_stop
  thread_must_wait-Shared w w' Phase.idle s h =
      ground (arith, s.next_thread_pos, s.next_thread_end_pos, s.closing, s.write_error)
  thread_must_wait-Shared w w' (Phase.compressing _ _ _ _) s h = h
  thread_must_wait-Shared w w' (Phase.waiting start _ _) s h =
      ground
        (arith, s.write_error, other_thread_write_first-Shared num_threads w w' start s.thread_pos)
  thread_must_wait-Shared w w' (Phase.writing _ _ _) s h = h
  thread_must_wait-Shared w w' Phase.stopped s h = h

  producer_must_wait-blocked :
      (w : Writer) (size : ℕ)
      → NoErrors w
      → producer_must_wait block_size num_threads w (Producer.blocked size)
        ≡ not (
            ltb w.producer_reserved_pos
              (completed_pos num_threads w + buffer_len block_size num_threads))
  unfolding producer_must_wait poll
  producer_must_wait-blocked w size ok = ground (arith, ok.write_error, ok.error)

  pub producer_must_wait-Shared :
      (w w' : Writer) (p : Producer)
      → completed_pos num_threads w' ≡ completed_pos num_threads w
      → NoErrors w
      → NoErrors w'
      → w'.producer_reserved_pos ≡ w.producer_reserved_pos
      → producer_must_wait block_size num_threads w p ≡ true
      → producer_must_wait block_size num_threads w' p ≡ true
  unfolding producer_must_wait
  producer_must_wait-Shared w w' Producer.ready s a c e h = h
  producer_must_wait-Shared w w' (Producer.in_write _) s a c e h = h
  producer_must_wait-Shared w w' (Producer.blocked size) s a c e h =
      ground
        (arith, s, e, producer_must_wait-blocked w size a, producer_must_wait-blocked w' size c, h)
  producer_must_wait-Shared w w' Producer.joining s a c e h = h
  producer_must_wait-Shared w w' Producer.closed s a c e h = h

  -- Who sleeps has to wait.
  pub record Rested (w : Writer) (z : Sleepers) : Type 0 where
    pub threads :
        (i : ℕ)
        → z.of_threads i ≡ true
        → thread_must_wait block_size num_threads w (w.threads i) ≡ true
    pub producer :
        z.of_producer ≡ true → producer_must_wait block_size num_threads w w.producer ≡ true

  module _ (w w' : Writer) (z : Sleepers) (r : Rested w z) where
    -- A step of the producer that the threads do not see.
    pub by_producer :
        Shared w w' → ((i : ℕ) → w'.threads i ≡ w.threads i) → z.of_producer ≡ false → Rested w' z
    by_producer s same awake = record {
      threads = λ i h.
          subst (λ (p : Phase). thread_must_wait block_size num_threads w' p ≡ true) (sym (same i))
            (thread_must_wait-Shared w w' (w.threads i) s (r.threads i h));
      producer = λ h. absurd (ground arith);
    }

    -- A step of a thread that changes only where it stands.
    pub by_thread :
        (i : ℕ) (p : Phase)
        → Shared w w'
        → NoErrors w
        → NoErrors w'
        → w'.producer_reserved_pos ≡ w.producer_reserved_pos
        → w'.producer ≡ w.producer
        → w'.threads ≡ update i p w.threads
        → z.of_threads i ≡ false
        → Rested w' z
    unfolding update
    by_thread i p s a c reserved same stands awake = record {
      threads = λ j h.
          let moved : w'.threads j ≡ (if i == j then p else w.threads j) =
            ap (λ (f : ℕ → Phase). f j) stands in
          elim (Bool-cases (i == j)) [
            | inl e ↦
                let it : z.of_threads j ≡ false =
                  subst (λ (k : ℕ). z.of_threads k ≡ false) (ground arith) awake in
                absurd (ground (arith, it, h))
            | inr e ↦
                let stays : w'.threads j ≡ w.threads j = ground (arith, moved, e) in
                subst (λ (q : Phase). thread_must_wait block_size num_threads w' q ≡ true)
                  (sym stays) (thread_must_wait-Shared w w' (w.threads j) s (r.threads j h))
          ];
      producer = λ h.
          subst (λ (q : Producer). producer_must_wait block_size num_threads w' q ≡ true) (sym same)
            (producer_must_wait-Shared w w' w.producer
              (completed_pos-Shared num_threads w w' s.thread_pos s.next_thread_pos) a c reserved
              (r.producer h));
    }

    -- A thread takes a block.
    pub by_take :
        (i : ℕ)
        → i < num_threads
        → NoErrors w
        → w.thread_pos i ≡ none
        → can_take block_size w ≡ true
        → w' ≡ take_block block_size i w
        → z.of_threads i ≡ false
        → Rested w' z
    unfolding take_block update can_take thread_must_wait
    by_take i small a free can e awake = record {
      threads = λ j h. elim (Bool-cases (i == j)) [
        | inl here ↦
            let it : z.of_threads j ≡ false =
              subst (λ (k : ℕ). z.of_threads k ≡ false) (ground arith) awake in
            absurd (ground (arith, it, h))
        | inr away ↦
            let stays : w'.threads j ≡ w.threads j =
              ap (λ (v : Writer). v.threads j) e ∙ rw away refl in
            subst (λ (q : Phase). thread_must_wait block_size num_threads w' q ≡ true) (sym stays)
              (still (w.threads j) (r.threads j h))
      ];
      producer = λ h.
          let at_most : completed_pos num_threads w' ≤ w.next_thread_pos =
            completed_pos-le i w.next_thread_pos end_pos w w' took free num_threads small in
          let same : min (completed_pos num_threads w') w.next_thread_pos
              ≡ completed_pos num_threads w =
            completed_pos-taken i w.next_thread_pos end_pos w w' took free refl further
              num_threads in
          subst (λ (q : Producer). producer_must_wait block_size num_threads w' q ≡ true)
            (sym (ap (λ (v : Writer). v.producer) e))
            (producer_must_wait-Shared w w' w.producer (omega (arith, at_most, same)) a
              (record {
                write_error = ap (λ (v : Writer). v.write_error) e ∙ a.write_error;
                error = ap (λ (v : Writer). v.error) e ∙ a.error;
              })
              (ap (λ (v : Writer). v.producer_reserved_pos) e) (r.producer h));
    }
      where
        end_pos : ℕ
        end_pos = min w.next_thread_end_pos (w.next_thread_pos + block_size)

        took : w'.thread_pos ≡ update i (some w.next_thread_pos) w.thread_pos
        took = ap (λ (v : Writer). v.thread_pos) e

        further : w.next_thread_pos ≤ w'.next_thread_pos
        further = ground (arith, can, ap (λ (v : Writer). v.next_thread_pos) e)

        still :
            (p : Phase)
            → thread_must_wait block_size num_threads w p ≡ true
            → thread_must_wait block_size num_threads w' p ≡ true
        still Phase.idle h = absurd (ground (arith, can, h))
        still (Phase.compressing _ _ _ _) h = h
        still (Phase.waiting start _ _) h = ground (
          arith,
          ap (λ (v : Writer). v.write_error) e,
          other_thread_write_first-taken i w.next_thread_pos end_pos w w' took free num_threads
              start,
        )
        still (Phase.writing _ _ _) h = h
        still Phase.stopped h = h
