-- ===== src/Compressed/Writer/Order.antt =====
-- trace/compressed_writer.rs: the loops over thread_pos find the block that is next for the file.
use rd.Prelude.{
  ℕ, zero, suc, ◌≤◌, ◌<◌, leb, ◌==◌, Bool-cases, false, Option, Option-cases, none, some, ◌≡◌, refl,
  ap, ◌∙◌, arith, ◌⊎◌, inl, inr,
}
use rd.Compressed.Writer.State.{Writer, earlier, completed_pos, is_before, other_thread_write_first}
use rd.Compressed.Writer.Spans.{Family, Spans}
use rd.Compressed.Writer.Invariant.{span_start}

earlier-le : (pos : ℕ) (o : Option ℕ) → earlier pos o ≤ pos
unfolding earlier
earlier-le pos none = omega arith
earlier-le pos (some q) = omega arith

completed_pos-le : (n : ℕ) (w : Writer) → completed_pos n w ≤ w.next_thread_pos
unfolding completed_pos
completed_pos-le zero w = omega arith
completed_pos-le (suc n) w =
    omega (arith, completed_pos-le n w, earlier-le (completed_pos n w) (w.thread_pos n))

completed_pos-thread :
    (n : ℕ) (w : Writer) (i q : ℕ) → i < n → w.thread_pos i ≡ some q → completed_pos n w ≤ q
unfolding completed_pos earlier
completed_pos-thread zero w i q less e = absurd (omega arith)
completed_pos-thread (suc n) w i q less e = elim (Bool-cases (i == n)) [
  | inl same ↦
      let last : w.thread_pos n ≡ some q = ap w.thread_pos (ground arith) ∙ e in
      ground (arith, last)
  | inr ne ↦ omega (
    arith,
    completed_pos-thread n w i q (ground arith) e,
    earlier-le (completed_pos n w) (w.thread_pos n),
  )
]

completed_pos-found :
    (n : ℕ) (w : Writer)
    → (completed_pos n w ≡ w.next_thread_pos)
      ⊎ ((i : ℕ) × (w.thread_pos i ≡ some (completed_pos n w)))
unfolding completed_pos earlier
completed_pos-found zero w = inl refl
completed_pos-found (suc n) w = elim (Option-cases (w.thread_pos n)) [
  | inl e ↦ ground (arith, e, completed_pos-found n w)
  | inr (q, e) ↦ elim (Bool-cases (leb (completed_pos n w) q)) [
    | inl low ↦ ground (arith, e, completed_pos-found n w)
    | inr high ↦ inr (n, ground (arith, e))
  ]
]

none_first :
    (n : ℕ) (w : Writer) (pos i q : ℕ)
    → other_thread_write_first n w pos ≡ false
    → i < n
    → w.thread_pos i ≡ some q
    → pos ≤ q
unfolding other_thread_write_first is_before
none_first zero w pos i q h less e = absurd (omega arith)
none_first (suc n) w pos i q h less e = elim (Bool-cases (i == n)) [
  | inl same ↦
      let last : w.thread_pos n ≡ some q = ap w.thread_pos (ground arith) ∙ e in
      ground (arith, last, h)
  | inr ne ↦ none_first n w pos i q (ground (arith, h)) (ground arith) e
]

module _ (block_size num_threads : ℕ) where
  module _ (w : Writer) (done : ℕ) (spans : Family)
      (s : Spans block_size num_threads done w.next_thread_pos spans)
      (positions : (i : ℕ) → w.thread_pos i ≡ span_start (spans i)) where
    start_of : (i q : ℕ) → w.thread_pos i ≡ some q → (c : ℕ) × (spans i ≡ some (q, c))
    start_of i q e = elim (Option-cases (spans i)) [
      | inl f ↦ absurd (ground (arith, f, positions i, e))
      | inr ((a, c), f) ↦ (c, f ∙ ground (arith, f, positions i, e))
    ]

    has : (i a c : ℕ) → spans i ≡ some (a, c) → w.thread_pos i ≡ some a
    has i a c e = positions i ∙ ap span_start e

    -- All that is before what the loop finds is in the file, and no more.
    pub completed_pos_lem : completed_pos num_threads w ≡ done
    completed_pos_lem = omega (arith, at_least, at_most)
      where
        at_least : done ≤ completed_pos num_threads w
        at_least = elim (completed_pos-found num_threads w) [
          | inl e ↦ omega (arith, s.reached)
          | inr (i, e) ↦
              let (c, f) = start_of i (completed_pos num_threads w) e in
              (s.bounds i (completed_pos num_threads w) c f).0
        ]

        at_most : completed_pos num_threads w ≤ done
        at_most = elim s.first [
          | inl e ↦ omega (arith, completed_pos-le num_threads w)
          | inr (j, c, e) ↦
              completed_pos-thread num_threads w j done (s.known j done c e) (has j done c e)
        ]

    -- A thread that no other has to write before has the next block.
    pub none_first-next :
        (i a c : ℕ)
        → spans i ≡ some (a, c)
        → other_thread_write_first num_threads w a ≡ false
        → a ≡ done
    none_first-next i a c e h =
        let edge = s.bounds i a c e in
        elim s.first [
          | inl last ↦ omega (arith, edge.0, edge.1, edge.2)
          | inr (j, c', f) ↦
              let low =
                none_first num_threads w a j done h (s.known j done c' f) (has j done c' f) in
              omega (arith, low, edge.0)
        ]
