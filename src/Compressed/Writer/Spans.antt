-- ===== src/Compressed/Writer/Spans.antt =====
-- trace/compressed_writer.rs: the blocks that the threads work on lie side by side, from the first that
-- is not in the file to the next that no thread has.
use rd.Prelude.{
  ℕ, ◌+◌, ◌≤◌, ◌<◌, ◌==◌, Bool-cases, Option, none, some, ◌≡◌, ◌≢◌, refl, sym, ap, ◌∙◌, arith, ◌⊎◌,
  inl, inr,
}
use rd.Compressed.Writer.State.{update}
use rd.Compressed.Writer.Slices.{update_same}

pub update-cases {ℓ} :
    {A : Type ℓ} (i j : ℕ) (a : A) (f : ℕ → A)
    → ((i ≡ j) × (update i a f j ≡ a)) ⊎ ((i ≢ j) × (update i a f j ≡ f j))
unfolding update
update-cases i j a f = elim (Bool-cases (i == j)) [
  | inl e ↦ inl (ground arith, ground arith)
  | inr e ↦ inr (ground arith, ground arith)
]

-- What each thread works on, from where to where.
abbrev pub Family : Type 0
Family = ℕ → Option (ℕ × ℕ)

module _ (block_size num_threads : ℕ) where
  pub record Spans (done next : ℕ) (spans : Family) : Type 0 where
    pub known : (i a c : ℕ) → spans i ≡ some (a, c) → i < num_threads
    pub bounds :
        (i a c : ℕ)
        → spans i ≡ some (a, c)
        → (done ≤ a) × (a < c) × (c ≤ next) × (c ≤ a + block_size)
    pub apart :
        (i j a c a' c' : ℕ)
        → spans i ≡ some (a, c)
        → spans j ≡ some (a', c')
        → i ≢ j
        → (c ≤ a') ⊎ (c' ≤ a)
    pub linked :
        (i a c : ℕ)
        → spans i ≡ some (a, c)
        → (c ≡ next) ⊎ ((j : ℕ) × (c' : ℕ) × (spans j ≡ some (c, c')))
    pub first : (done ≡ next) ⊎ ((j : ℕ) × (c : ℕ) × (spans j ≡ some (done, c)))
    pub reached : done ≤ next

  -- No thread has anything at the start.
  pub Spans-none : Spans 0 0 (λ i. none)
  Spans-none = record {
    known = λ i a c e. absurd (ground (arith, e));
    bounds = λ i a c e. absurd (ground (arith, e));
    apart = λ i j a c a' c' e e' ne. absurd (ground (arith, e));
    linked = λ i a c e. absurd (ground (arith, e));
    first = inl refl;
    reached = omega arith;
  }

  module _ (done next next' i : ℕ) (spans : Family) (s : Spans done next spans) where
    abbrev taken : Family
    taken = update i (some (next, next')) spans

    keeps : spans i ≡ none → (j a c : ℕ) → spans j ≡ some (a, c) → taken j ≡ some (a, c)
    keeps free j a c e = elim (update-cases i j (some (next, next')) spans) [
      | inl (same, e') ↦ absurd (ground (arith, ap spans same))
      | inr (ne, e') ↦ e' ∙ e
    ]

    was :
        (j a c : ℕ)
        → taken j ≡ some (a, c)
        → ((i ≡ j) × (a ≡ next) × (c ≡ next')) ⊎ ((i ≢ j) × (spans j ≡ some (a, c)))
    was j a c e = elim (update-cases i j (some (next, next')) spans) [
      | inl (same, e') ↦ inl (same, ground (arith, sym e' ∙ e), ground (arith, sym e' ∙ e))
      | inr (ne, e') ↦ inr (ne, sym e' ∙ e)
    ]

    -- A thread that has nothing takes the next part.
    pub Spans-take :
        i < num_threads
        → spans i ≡ none
        → next < next'
        → next' ≤ next + block_size
        → Spans done next' taken
    Spans-take small free grows short = record {
      known = λ j a c e. elim (was j a c e) [
        | inl (same, ea, ec) ↦ omega arith
        | inr (_, e') ↦ s.known j a c e'
      ];
      bounds = λ j a c e. elim (was j a c e) [
        | inl (same, ea, ec) ↦ (omega (arith, s.reached), omega arith, omega arith, omega arith)
        | inr (_, e') ↦ ground (arith, s.bounds j a c e')
      ];
      apart = λ j k a c a' c' e e' ne. elim (was j a c e) [
        | inl (same, ea, ec) ↦ elim (was k a' c' e') [
          | inl (same', ea', ec') ↦ absurd (ne (sym same ∙ same'))
          | inr (_, f') ↦ inr (omega (arith, (s.bounds k a' c' f').2))
        ]
        | inr (_, f) ↦ elim (was k a' c' e') [
          | inl (same', ea', ec') ↦ inl (omega (arith, (s.bounds j a c f).2))
          | inr (_, f') ↦ s.apart j k a c a' c' f f' ne
        ]
      ];
      linked = λ j a c e. elim (was j a c e) [
        | inl (same, ea, ec) ↦ inl ec
        | inr (_, f) ↦ elim (s.linked j a c f) [
          | inl last ↦ inr (
            i,
            next',
            update_same i (some (next, next')) spans ∙ ap (λ x. some (x, next')) (sym last),
          )
          | inr (k, c', g) ↦ inr (k, c', keeps free k c c' g)
        ]
      ];
      first = elim s.first [
        | inl last ↦ inr (
          i,
          next',
          update_same i (some (next, next')) spans ∙ ap (λ x. some (x, next')) (sym last),
        )
        | inr (k, c', g) ↦ inr (k, c', keeps free k done c' g)
      ];
      reached = omega (arith, s.reached);
    }

  module _ (done next stop i : ℕ) (spans : Family) (s : Spans done next spans) where
    abbrev dropped : Family
    dropped = update i none spans

    still : (j a c : ℕ) → dropped j ≡ some (a, c) → (i ≢ j) × (spans j ≡ some (a, c))
    still j a c e = elim (update-cases i j none spans) [
      | inl (same, e') ↦ absurd (ground (arith, sym e' ∙ e))
      | inr (ne, e') ↦ (ne, sym e' ∙ e)
    ]

    -- The thread that has the first part is done with it.
    pub Spans-finish : spans i ≡ some (done, stop) → Spans stop next dropped
    Spans-finish here =
        let edge = s.bounds i done stop here in
        let later : (j a c : ℕ) → dropped j ≡ some (a, c) → stop ≤ a = λ j a c e.
          let (ne, f) = still j a c e in
          let low = s.bounds j a c f in
          elim (s.apart i j done stop a c here f ne) [
            | inl before ↦ before
            | inr after ↦ absurd (omega (arith, low.0, low.1))
          ] in
        let stays : (j a c : ℕ) → stop ≤ a → spans j ≡ some (a, c) → dropped j ≡ some (a, c) =
          λ j a c low e. elim (update-cases i j none spans) [
            | inl (same, _) ↦ absurd (ground (arith, edge.1, low, sym here ∙ ap spans same ∙ e))
            | inr (_, e') ↦ e' ∙ e
          ] in
        record {
          known = λ j a c e. s.known j a c (still j a c e).1;
          bounds =
              λ j a c e. let b = s.bounds j a c (still j a c e).1 in (later j a c e, b.1, b.2, b.3);
          apart = λ j k a c a' c' e e' ne.
              s.apart j k a c a' c' (still j a c e).1 (still k a' c' e').1 ne;
          linked = λ j a c e. elim (s.linked j a c (still j a c e).1) [
            | inl last ↦ inl last
            | inr (k, c', g) ↦
                let b = s.bounds j a c (still j a c e).1 in
                inr (k, c', stays k c c' (omega (arith, later j a c e, b.1)) g)
          ];
          first = elim (s.linked i done stop here) [
            | inl last ↦ inl last
            | inr (k, c', g) ↦ inr (k, c', stays k stop c' (omega arith) g)
          ];
          reached = edge.2;
        }
