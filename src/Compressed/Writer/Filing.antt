-- ===== src/Compressed/Writer/Filing.antt =====
-- trace/compressed_writer.rs: the threads' steps keep what holds of the file.
use rd.Prelude.{
  ℕ, ◌+◌, ◌-◌, ◌^◌, ◌<◌, ◌==◌, Bool-cases, false, Option, some, List, [], ◌∷◌, ◌++◌, length,
  length-append, append-nil, take, drop, take-append-drop, ◌≡◌, ◌≢◌, refl, sym, ap, subst, ◌∙◌,
  arith, ◌⊎◌, inl, inr,
}
use mathlib.Core.List.{append_assoc}
use rd.Compressed.File.{Brotli, block_bytes}
use rd.Compressed.Blocks.{concat, Blocks, file_bytes}
use rd.Compressed.Writer.State.{Phase, update, slice}
use rd.Compressed.Writer.Slices.{slice-append, length-slice, update_same}
use rd.Compressed.Writer.Spans.{update-cases}
use rd.Compressed.Writer.Invariant.{span, is_writing, part, Content, Front, Written, Threads}
use rd.Compressed.Writer.Working.{one_front}

pub writing-cases :
    (p : Phase)
    → (is_writing p ≡ false) ⊎ ((a : ℕ) × (c : ℕ) × (out : List ℕ) × (p ≡ Phase.writing a c out))
writing-cases Phase.idle = inl refl
writing-cases (Phase.compressing _ _ _ _) = inl refl
writing-cases (Phase.waiting _ _ _) = inl refl
writing-cases (Phase.writing a c out) = inr (a, c, out, refl)
writing-cases Phase.stopped = inl refl

concat-append : (xs ys : List (List ℕ)) → concat (xs ++ ys) ≡ concat xs ++ concat ys
unfolding concat
concat-append [] ys = refl
concat-append (x ∷ xs) ys =
    ap (λ l. x ++ l) (concat-append xs ys) ∙ sym (append_assoc x (concat xs) (concat ys))

concat-snoc : (xs : List (List ℕ)) (x : List ℕ) → concat (xs ++ x ∷ []) ≡ concat xs ++ x
unfolding concat
concat-snoc xs x = concat-append xs (x ∷ []) ∙ ap (λ l. concat xs ++ l) (append-nil x)

Blocks-snoc :
    (xs : List (List ℕ)) (x : List ℕ)
    → Blocks xs
    → 0 < length x
    → length x < 2 ^ 31
    → Blocks (xs ++ x ∷ [])
unfolding Blocks
Blocks-snoc [] x w low high = (low, high, tt)
Blocks-snoc (y ∷ ys) x w low high = (w.0, w.1, Blocks-snoc ys x w.2 low high)

file_bytes-snoc :
    (b : Brotli) (xs : List (List ℕ)) (x : List ℕ)
    → file_bytes b (xs ++ x ∷ []) ≡ file_bytes b xs ++ block_bytes b x
unfolding file_bytes
file_bytes-snoc b [] x = append-nil (block_bytes b x)
file_bytes-snoc b (y ∷ ys) x =
    ap (λ l. block_bytes b y ++ l) (file_bytes-snoc b ys x)
    ∙ sym (append_assoc (block_bytes b y) (file_bytes b ys) (block_bytes b x))

module _ (b : Brotli) (stream : ℕ → ℕ) (block_size num_threads : ℕ) where
  module _ (thread_pos : ℕ → Option ℕ) (threads : ℕ → Phase) (next : ℕ) (file : List ℕ)
      (blocks : List (List ℕ))
      (t : Threads b stream block_size num_threads thread_pos threads (length (concat blocks)) next)
      (wr : Written b stream threads file blocks) where
    abbrev at : ℕ
    at = length (concat blocks)

    -- While a thread has the next block for the file, no other writes.
    others_quiet :
        (i c : ℕ)
        → span (threads i) ≡ some (at, c)
        → (j : ℕ) → i ≢ j
        → is_writing (threads j) ≡ false
    others_quiet i c here j ne = elim (writing-cases (threads j)) [
      | inl quiet ↦ quiet
      | inr (a', c', out', e) ↦
          let (start, _) = subst (Front b stream file blocks) e (wr.front j) in
          absurd (
            ne (
              one_front b stream block_size num_threads thread_pos threads at next t i j c c' here
                (ap span e ∙ ap (λ x. some (x, c')) start)))
    ]

    Front-quiet :
        (f : List ℕ) (bs : List (List ℕ)) (p : Phase) → is_writing p ≡ false → Front b stream f bs p
    Front-quiet f bs Phase.idle e = tt
    Front-quiet f bs (Phase.compressing _ _ _ _) e = tt
    Front-quiet f bs (Phase.waiting _ _ _) e = tt
    Front-quiet f bs (Phase.writing _ _ _) e = absurd (ground (arith, e))
    Front-quiet f bs Phase.stopped e = tt

    -- When i is the one that may write, the others say nothing of the file.
    front-update :
        (i c : ℕ) (p : Phase) (f : List ℕ) (bs : List (List ℕ))
        → span (threads i) ≡ some (at, c)
        → Front b stream f bs p
        → (j : ℕ) → Front b stream f bs (update i p threads j)
    front-update i c p f bs here new j = elim (update-cases i j p threads) [
      | inl (_, e') ↦ subst (Front b stream f bs) (sym e') new
      | inr (ne, e') ↦
          subst (Front b stream f bs) (sym e')
            (Front-quiet f bs (threads j) (others_quiet i c here j ne))
    ]

    pub Written-same :
        (i : ℕ) (p : Phase)
        → is_writing p ≡ false
        → is_writing (threads i) ≡ false
        → Written b stream (update i p threads) file blocks
    Written-same i p quiet was_quiet = record {
      front = λ j. elim (update-cases i j p threads) [
        | inl (_, e') ↦ Front-quiet file blocks (update i p threads j) (ap is_writing e' ∙ quiet)
        | inr (_, e') ↦ subst (Front b stream file blocks) (sym e') (wr.front j)
      ];
      settled = λ h. wr.settled (λ j. elim (update-cases i j p threads) [
        | inl (same, _) ↦ ap (λ q. is_writing (threads q)) (sym same) ∙ was_quiet
        | inr (_, e') ↦ ap is_writing (sym e') ∙ h j
      ]);
      whole = wr.whole;
      blocks_fit = wr.blocks_fit;
    }

    -- A thread that writes is not silent.
    not_settled {ℓ} :
        (i a c : ℕ) (out : List ℕ) {A : Type ℓ}
        → ((j : ℕ) → is_writing (update i (Phase.writing a c out) threads j) ≡ false)
        → A
    not_settled i a c out h =
        absurd (
          ground (arith, sym (ap is_writing (update_same i (Phase.writing a c out) threads)) ∙ h i))

    pub Written-start :
        (i c : ℕ) (out : List ℕ)
        → threads i ≡ Phase.waiting at c out
        → Written b stream (update i (Phase.writing at c out) threads) file blocks
    unfolding Content
    Written-start i c out e =
        let here : span (threads i) ≡ some (at, c) = ap span e in
        let packed : out ≡ block_bytes b (part b stream at c) =
          subst (Content b stream) e (t.content i) in
        let quiet : (j : ℕ) → is_writing (threads j) ≡ false = λ j. elim (Bool-cases (i == j)) [
          | inl same ↦ ap (λ q. is_writing (threads q)) (sym (ground arith)) ∙ ap is_writing e
          | inr ne ↦ others_quiet i c here j (ground arith)
        ] in
        record {
          front = front-update i c (Phase.writing at c out) file blocks here (
            refl,
            ap (λ f. f ++ out) (wr.settled quiet) ∙ ap (λ o. file_bytes b blocks ++ o) packed,
          );
          settled = λ h. not_settled i at c out h;
          whole = wr.whole;
          blocks_fit = wr.blocks_fit;
        }

    pub Written-some :
        (i a c : ℕ) (out : List ℕ) (k : ℕ)
        → threads i ≡ Phase.writing a c out
        → Written b stream
            (update i (Phase.writing a c (drop k out)) threads)
            (file ++ take k out)
            blocks
    Written-some i a c out k e =
        let (start, so_far) = subst (Front b stream file blocks) e (wr.front i) in
        let here : span (threads i) ≡ some (at, c) = ap span e ∙ ap (λ x. some (x, c)) start in
        record {
          front =
              front-update i c (Phase.writing a c (drop k out)) (file ++ take k out) blocks here (
                start,
                append_assoc file (take k out) (drop k out)
                    ∙ ap (λ o. file ++ o) (take-append-drop k out)
                    ∙ so_far,
              );
          settled = λ h. not_settled i a c (drop k out) h;
          whole = wr.whole;
          blocks_fit = wr.blocks_fit;
        }

    pub Written-finish :
        (i a c : ℕ)
        → threads i ≡ Phase.writing a c []
        → c < a + 2 ^ 31
        → (length (concat (blocks ++ part b stream a c ∷ [])) ≡ c)
          × Written b stream (update i Phase.idle threads) file (blocks ++ part b stream a c ∷ [])
    Written-finish i a c e small =
        let (start, so_far) = subst (Front b stream file blocks) e (wr.front i) in
        let here : span (threads i) ≡ some (at, c) = ap span e ∙ ap (λ x. some (x, c)) start in
        let edge = t.spans.bounds i at c here in
        let p = part b stream a c in
        let size : length p ≡ c - a = length-slice stream a (c - a) in
        let all : concat (blocks ++ p ∷ []) ≡ concat blocks ++ p = concat-snoc blocks p in
        let total : length (concat (blocks ++ p ∷ [])) ≡ c =
          omega (arith, ap length all, length-append (concat blocks) p) in
        (
          total,
          record {
            front = front-update i c Phase.idle file (blocks ++ p ∷ []) here tt;
            settled = λ h. sym (append-nil file) ∙ so_far ∙ sym (file_bytes-snoc b blocks p);
            whole =
                all
                ∙ ap (λ l. l ++ p) wr.whole
                ∙ ap (λ s. slice stream 0 at ++ slice stream s (c - a)) (start ∙ sym (omega arith))
                ∙ slice-append stream 0 at (c - a)
                ∙ ap (slice stream 0) (omega arith);
            blocks_fit = Blocks-snoc blocks p wr.blocks_fit (omega arith) (omega arith);
          },
        )
