-- ===== src/Compressed/Writer/Liveness.antt =====
-- trace/compressed_writer.rs: a producer that waits is not left waiting.
use rd.Prelude.{
  ℕ, zero, suc, ◌+◌, ◌^◌, ◌≤◌, ◌<◌, ltb, ◌==◌, ◌||◌, not, Bool, Bool-cases, true, false,
  Option-cases, none, some, [], ◌∷◌, length, ◌≡◌, refl, sym, ap, subst, ◌∙◌, arith, ◌⊎◌, inl, inr,
}
use native.Mathlib.Nat.{mul-add}
use rd.Compressed.File.{Brotli}
use rd.Compressed.Blocks.{concat}
use rd.Compressed.Writer.State.{Writer, Phase, Producer, other_thread_write_first, is_before}
use rd.Compressed.Writer.Produce.{buffer_len, poll}
use rd.Compressed.Writer.Compress.{
  can_take, can_stop, take_block, stop, feed_amount, feed, compressed, start_write, write_some,
  end_round,
}
use rd.Compressed.Writer.Steps.{
  Step, takes, stops, feeds, compresses, starts_writing, writes_some, ends_writing, Reach,
}
use rd.Compressed.Writer.Sleep.{actor, thread}
use rd.Compressed.Writer.Invariant.{span, span_start, is_closing, Content}
use rd.Compressed.Writer.Kept.{Holds, poll_lem}
use rd.Compressed.Writer.Reached.{Reach-Inv}

module _ (block_size num_threads : ℕ) where
  -- A thread need not wait for another: its next step is open to it.
  unfoldable pub can_go : Writer → Phase → Bool
  can_go w Phase.idle = can_take block_size w || can_stop w
  can_go w (Phase.compressing _ _ _ _) = true
  can_go w (Phase.waiting start _ _) = not (other_thread_write_first num_threads w start)
  can_go w (Phase.writing _ _ _) = true
  can_go w Phase.stopped = false

none_before :
    (n : ℕ) (w : Writer) (pos : ℕ)
    → ((i q : ℕ) → w.thread_pos i ≡ some q → pos ≤ q)
    → other_thread_write_first n w pos ≡ false
unfolding other_thread_write_first is_before
none_before zero w pos h = refl
none_before (suc n) w pos h = elim (Option-cases (w.thread_pos n)) [
  | inl e ↦ ground (arith, e, none_before n w pos h)
  | inr (q, e) ↦ ground (arith, e, h n q e, none_before n w pos h)
]

-- A thread that has no block waits for one or has stopped.
free-cases : (p : Phase) → span p ≡ none → (p ≡ Phase.idle) ⊎ (p ≡ Phase.stopped)
free-cases Phase.idle e = inl refl
free-cases (Phase.compressing _ _ _ _) e = absurd (ground (arith, e))
free-cases (Phase.waiting _ _ _) e = absurd (ground (arith, e))
free-cases (Phase.writing _ _ _) e = absurd (ground (arith, e))
free-cases Phase.stopped e = inr refl

scan {ℓ κ} :
    {A : ℕ → Type ℓ} {B : ℕ → Type κ} (n : ℕ)
    → ((i : ℕ) → i < n → A i ⊎ B i)
    → ((i : ℕ) × (i < n) × A i) ⊎ ((i : ℕ) → i < n → B i)
scan zero h = inr (λ i small. absurd (omega arith))
scan {A} {B} (suc n) h = elim (scan {A = A} {B = B} n (λ i small. h i (omega arith))) [
  | inl (i, small, a) ↦ inl (i, omega arith, a)
  | inr all ↦ elim (h n (omega arith)) [
    | inl a ↦ inl (n, omega arith, a)
    | inr last ↦ inr (λ i small. elim (Bool-cases (i == n)) [
      | inl same ↦ subst B (ground arith) last
      | inr ne ↦ all i (ground arith)
    ])
  ]
]

module _ (b : Brotli) (stream : ℕ → ℕ) (block_size num_threads : ℕ)
    (block_fits : block_size < 2 ^ 31) (block_some : 0 < block_size) (w : Writer)
    (reach : Reach block_size num_threads b stream w) where
  inv : Holds b stream block_size num_threads w
  inv = Reach-Inv b stream block_size num_threads block_fits block_some w reach

  abbrev len : ℕ
  len = buffer_len block_size num_threads

  len-le : block_size ≤ len
  len-le = omega (arith, mul-add block_size num_threads 2)

  abbrev done : ℕ
  done = length (concat inv.blocks)

  -- The thread with the block that is next for the file need not wait.
  first_goes :
      (i c : ℕ)
      → span (w.threads i) ≡ some (done, c)
      → can_go block_size num_threads w (w.threads i) ≡ true
  unfolding can_go
  first_goes i c e = go (w.threads i) e
    where
      earliest : (j q : ℕ) → w.thread_pos j ≡ some q → done ≤ q
      earliest j q f = elim (Option-cases (span (w.threads j))) [
        | inl free ↦ absurd (ground (arith, sym f ∙ inv.working.positions j ∙ ap span_start free))
        | inr ((a, c'), g) ↦
            let same : q ≡ a = ground (arith, sym f ∙ inv.working.positions j ∙ ap span_start g) in
            omega (arith, (inv.working.spans.bounds j a c' g).0)
      ]

      go : (p : Phase) → span p ≡ some (done, c) → can_go block_size num_threads w p ≡ true
      go Phase.idle f = absurd (ground (arith, f))
      go (Phase.compressing _ _ _ _) f = refl
      go (Phase.waiting start _ _) f =
          let same : start ≡ done = ground (arith, f) in
          ap (λ s. not (other_thread_write_first num_threads w s)) same
          ∙ ap not (none_before num_threads w done earliest)
      go (Phase.writing _ _ _) f = refl
      go Phase.stopped f = absurd (ground (arith, f))

  -- When the file has all that was given to the threads, none has a block.
  all_free : done ≡ w.next_thread_pos → (i : ℕ) → span (w.threads i) ≡ none
  all_free e i = elim (Option-cases (span (w.threads i))) [
    | inl free ↦ free
    | inr ((a, c), f) ↦
        let x = inv.working.spans.bounds i a c f in absurd (omega (arith, e, x.0, x.1, x.2))
  ]

  -- A producer that found no room: some thread need not wait, or the next look at the positions of the
  -- threads finds room.
  pub blocked-goes :
      (size : ℕ)
      → 0 < num_threads
      → w.producer ≡ Producer.blocked size
      → ((i : ℕ) × (i < num_threads) × (can_go block_size num_threads w (w.threads i) ≡ true))
        ⊎ ((poll block_size num_threads true
              (Producer.blocked size)
              (Producer.in_write size)
              w).producer
            ≡ Producer.in_write size)
  unfolding can_go can_take
  blocked-goes size some_thread e = elim inv.working.spans.first [
    | inr (j, c, f) ↦ inl (j, inv.working.spans.known j done c f, first_goes j c f)
    | inl all ↦ elim (Bool-cases (ltb w.producer_reserved_pos (done + len))) [
      | inl room ↦ inr (
          ap (λ v. v.producer)
            (poll_lem b stream block_size num_threads w inv true (Producer.blocked size)
              (Producer.in_write size))
          ∙ simp room refl)
      | inr full ↦ elim (free-cases (w.threads 0) (all_free all 0)) [
        | inl idles ↦
            let more : w.next_thread_pos + block_size ≤ w.next_thread_end_pos =
              ground (arith, len-le, inv.ring.published) in
            let can : can_take block_size w ≡ true = ground (arith, inv.ends.no_write_error) in
            inl (
              0,
              some_thread,
              ap (can_go block_size num_threads w) idles ∙ ap (λ t. t || can_stop w) can,
            )
        | inr ended ↦
            absurd (ground (arith, (inv.ends.after 0 ended).0, inv.ends.flag ∙ ap is_closing e))
      ]
    ]
  ]

  -- While the producer waits in `close`, some thread need not wait, or all have stopped.
  pub joining-goes :
      w.producer ≡ Producer.joining
      → ((i : ℕ) × (i < num_threads) × (can_go block_size num_threads w (w.threads i) ≡ true))
        ⊎ ((i : ℕ) → i < num_threads → w.threads i ≡ Phase.stopped)
  unfolding can_go can_take can_stop
  joining-goes e = elim inv.working.spans.first [
    | inr (j, c, f) ↦ inl (j, inv.working.spans.known j done c f, first_goes j c f)
    | inl all ↦ scan num_threads (λ i small. elim (free-cases (w.threads i) (all_free all i)) [
      | inl idles ↦
          let closes : w.closing ≡ true = inv.ends.flag ∙ ap is_closing e in
          let can : (can_take block_size w || can_stop w) ≡ true =
            ground (arith, closes, inv.ends.no_write_error, inv.ring.dispatched) in
          inl (ap (can_go block_size num_threads w) idles ∙ can)
      | inr ended ↦ inr ended
    ])
  ]

  -- A thread that need not wait has a step.
  pub can_go-Step :
      (i : ℕ)
      → i < num_threads
      → can_go block_size num_threads w (w.threads i) ≡ true
      → (w' : Writer) × (step : Step block_size num_threads b stream w w') × (actor block_size
            num_threads step
          ≡ thread i)
  unfolding can_go actor Content
  can_go-Step i small h = go (w.threads i) refl h
    where
      go :
          (p : Phase)
          → w.threads i ≡ p
          → can_go block_size num_threads w p ≡ true
          → (w' : Writer) × (step : Step block_size num_threads b stream w w') × (actor block_size
                num_threads step
              ≡ thread i)
      go Phase.idle e can = elim (Bool-cases (can_take block_size w)) [
        | inl takes_it ↦ (take_block block_size i w, takes i small e takes_it, refl)
        | inr none_left ↦
            (stop i w, stops i small e none_left (ground (arith, can, none_left)), refl)
      ]
      go (Phase.compressing start end_pos offset fed) e can =
          let (low, high, _) = subst (Content b stream) e (inv.working.content i) in
          elim (Bool-cases (ltb offset end_pos)) [
            | inl more ↦ (
              feed len i start end_pos offset fed (feed_amount len offset end_pos) w,
              feeds i start end_pos offset fed (feed_amount len offset end_pos) e (ground arith)
                  (omega arith),
              refl,
            )
            | inr all ↦
                let there : offset ≡ end_pos = ground arith in
                (
                  compressed i start end_pos (b.compress fed) w,
                  compresses i start end_pos fed
                      (e ∙ ap (λ o. Phase.compressing start end_pos o fed) there),
                  refl,
                )
          ]
      go (Phase.waiting start end_pos out) e can = (
        start_write i start end_pos out w,
        starts_writing i start end_pos out e inv.ends.no_write_error (ground (arith, can)),
        refl,
      )
      go (Phase.writing start end_pos []) e can =
          (end_round i w, ends_writing i start end_pos e, refl)
      go (Phase.writing start end_pos (x ∷ xs)) e can = (
        write_some i start end_pos (x ∷ xs) 1 w,
        writes_some i start end_pos (x ∷ xs) 1 e (omega arith) (omega arith),
        refl,
      )
      go Phase.stopped e can = absurd (ground (arith, can))
