-- ===== src/Compressed/Writer/Working.antt =====
-- trace/compressed_writer.rs: the threads' steps keep what holds of the threads.
use rd.Prelude.{
  ℕ, ◌+◌, ◌-◌, ◌≤◌, ◌<◌, ◌==◌, Bool-cases, Option, none, some, [], ◌≡◌, refl, sym, ap, subst, ◌∙◌,
  arith, inl, inr,
}
use mathlib.Core.Path.{fun_ext}
use rd.Compressed.File.{Brotli}
use rd.Compressed.Writer.State.{Phase, update, slice}
use rd.Compressed.Writer.Spans.{update-cases, Spans, Spans-take, Spans-finish}
use rd.Compressed.Writer.Invariant.{span, span_start, part, Content, Threads}

span-update :
    (i : ℕ) (p : Phase) (f : ℕ → Phase)
    → (λ j. span (update i p f j)) ≡ update i (span p) (λ j. span (f j))
unfolding update
span-update i p f =
    fun_ext (λ j. elim (Bool-cases (i == j)) [ inl e ↦ simp e refl | inr e ↦ simp e refl ])

update_id {ℓ} : {A : Type ℓ} (i : ℕ) (a : A) (f : ℕ → A) → a ≡ f i → update i a f ≡ f
update_id i a f e =
    fun_ext
      (λ j. elim (update-cases i j a f) [ inl (same, e') ↦ e' ∙ e ∙ ap f same | inr (_, e') ↦ e' ])

module _ (b : Brotli) (stream : ℕ → ℕ) (block_size num_threads : ℕ) where
  module _ (thread_pos : ℕ → Option ℕ) (threads : ℕ → Phase) (done next : ℕ)
      (t : Threads b stream block_size num_threads thread_pos threads done next) where
    open t use {positions, spans, content}

    abbrev sp : ℕ → Option (ℕ × ℕ)
    sp i = span (threads i)

    -- A thread goes on with the same block.
    pub Threads-same :
        (i : ℕ) (p : Phase)
        → span p ≡ span (threads i)
        → Content b stream p
        → Threads b stream block_size num_threads thread_pos (update i p threads) done next
    Threads-same i p e c = record {
      positions = λ j. elim (update-cases i j p threads) [
        | inl (same, e') ↦
            positions j
            ∙ ap span_start (sym (e ∙ ap sp same))
            ∙ ap (λ q. span_start (span q)) (sym e')
        | inr (_, e') ↦ positions j ∙ ap (λ q. span_start (span q)) (sym e')
      ];
      spans =
          subst (Spans block_size num_threads done next)
            (sym (span-update i p threads ∙ update_id i (span p) sp e)) spans;
      content = λ j. elim (update-cases i j p threads) [
        | inl (_, e') ↦ subst (Content b stream) (sym e') c
        | inr (_, e') ↦ subst (Content b stream) (sym e') (content j)
      ];
    }

    positions-update :
        (i : ℕ) (o : Option ℕ) (p : Phase)
        → o ≡ span_start (span p)
        → (j : ℕ) → update i o thread_pos j ≡ span_start (span (update i p threads j))
    unfolding update
    positions-update i o p e j = elim (Bool-cases (i == j)) [
      | inl same ↦ simp same e
      | inr ne ↦ simp ne (positions j)
    ]

    pub Threads-take :
        (i next' : ℕ)
        → i < num_threads
        → span (threads i) ≡ none
        → next < next'
        → next' ≤ next + block_size
        → Threads b stream block_size num_threads
            (update i (some next) thread_pos)
            (update i (Phase.compressing next next' next []) threads)
            done
            next'
    unfolding Content slice
    Threads-take i next' less free grows short =
        let p = Phase.compressing next next' next [] in
        let none_yet : next - next ≡ 0 = omega arith in
        let nothing : [] ≡ part b stream next next = sym (ap (slice stream next) none_yet) in
        record {
          positions = positions-update i (some next) p refl;
          spans =
              subst (Spans block_size num_threads done next') (sym (span-update i p threads)) (
                Spans-take block_size num_threads done next next' i sp spans less free grows short);
          content = λ j. elim (update-cases i j p threads) [
            | inl (_, e') ↦ subst (Content b stream) (sym e') (omega arith, omega arith, nothing)
            | inr (_, e') ↦ subst (Content b stream) (sym e') (content j)
          ];
        }

    pub Threads-finish :
        (i c : ℕ)
        → span (threads i) ≡ some (done, c)
        → Threads b stream block_size num_threads
            (update i none thread_pos)
            (update i Phase.idle threads)
            c
            next
    unfolding Content
    Threads-finish i c here = record {
      positions = positions-update i none Phase.idle refl;
      spans =
          subst (Spans block_size num_threads c next) (sym (span-update i Phase.idle threads))
            (Spans-finish block_size num_threads done next c i sp spans here);
      content = λ j. elim (update-cases i j Phase.idle threads) [
        | inl (_, e') ↦ subst (Content b stream) (sym e') tt
        | inr (_, e') ↦ subst (Content b stream) (sym e') (content j)
      ];
    }

    -- No two threads have the next block for the file.
    pub one_front : (i j c c' : ℕ) → sp i ≡ some (done, c) → sp j ≡ some (done, c') → i ≡ j
    one_front i j c c' e e' = elim (Bool-cases (i == j)) [
      | inl same ↦ ground arith
      | inr ne ↦
          let x = spans.bounds i done c e in
          let y = spans.bounds j done c' e' in
          elim (spans.apart i j done c done c' e e' (ground arith)) [
            | inl low ↦ absurd (omega (arith, low, x.1))
            | inr low ↦ absurd (omega (arith, low, y.1))
          ]
    ]
