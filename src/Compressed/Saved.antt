-- ===== src/Compressed/Saved.antt =====
-- trace/compressed_reader.rs: going back to a saved state, and to the start.
use rd.Prelude.{
  ℕ, zero, suc, ◌+◌, ◌-◌, ◌≤◌, ◌<◌, min, ltb, if◌then◌else◌, Bool-cases, Option-cases, true, false,
  none, some, List, [], ◌∷◌, ◌++◌, length, take, take-nil, List-cases, ◌⊎◌, inl, inr, ◌≡◌, refl,
  sym, ◌∙◌, subst, arith,
}
use rd.Compressed.File.{Brotli, BlockHeader, File, header_of, header_size, pread, read_all}
use rd.Compressed.Reader.{
  CompressedReader, new, ends_at, rewind, get_state, restore_state, refill_block, refill_from,
  refill_buffer, available, read, at_end,
}
use rd.Compressed.Disk.{read_all-at_end}
use rd.Compressed.Reads.{read_again, read_given}

-- r2 is r, or r after it read on in the file.
pub record Later (r r2 : CompressedReader) : Type 0 where
  pub same_file : r2.fd ≡ r.fd
  pub moved :
      ((r2.fd_offset ≡ r.fd_offset) × (r2.eof ≡ r.eof))
      ⊎ ((r.fd_offset < r2.fd_offset) × (r.eof ≡ false))

Later-trans : (r r1 r2 : CompressedReader) → Later r r1 → Later r1 r2 → Later r r2
Later-trans r r1 r2 a c = record {
  same_file = c.same_file ∙ a.same_file;
  moved = both a.moved c.moved;
}
  where
    both :
        ((r1.fd_offset ≡ r.fd_offset) × (r1.eof ≡ r.eof))
          ⊎ ((r.fd_offset < r1.fd_offset) × (r.eof ≡ false))
        → ((r2.fd_offset ≡ r1.fd_offset) × (r2.eof ≡ r1.eof))
          ⊎ ((r1.fd_offset < r2.fd_offset) × (r1.eof ≡ false))
        → ((r2.fd_offset ≡ r.fd_offset) × (r2.eof ≡ r.eof))
          ⊎ ((r.fd_offset < r2.fd_offset) × (r.eof ≡ false))
    both (inl x) (inl y) = inl (y.0 ∙ x.0, y.1 ∙ x.1)
    both (inl x) (inr y) = inr (omega (arith, x.0, y.0), sym x.1 ∙ y.1)
    both (inr x) (inl y) = inr (omega (arith, x.0, y.0), x.1)
    both (inr x) (inr y) = inr (omega (arith, x.0, y.0), x.1)

read_all-offset :
    (f : File) (size offset : ℕ) (out : List ℕ) (next : ℕ)
    → read_all f size offset ≡ some (out, next)
    → next ≡ offset + size
unfolding read_all
read_all-offset f size offset out next e = ground arith

ends_at-empty : (f : File) → f.bytes ≡ [] → ends_at f 0 ≡ true
unfolding ends_at pread
ends_at-empty f e = ground (arith, e, take-nil {A = ℕ} (min 1 (suc (f.most 0))))

module _ (b : Brotli) where
  refill_block-offset :
      (f : File) (h : BlockHeader) (offset : ℕ) (r r2 : CompressedReader)
      → refill_block b f h offset r ≡ some r2
      → (r2.fd ≡ r.fd) × (offset ≤ r2.fd_offset)
  unfolding refill_block
  refill_block-offset f h offset r r2 e =
      elim (Option-cases (read_all f h.compressed_length offset)) [
        | inl fails ↦ ground (arith, e, fails)
        | inr ((packed, next), went) ↦
            ground (arith, e, went, read_all-offset f h.compressed_length offset packed next went)
      ]

  refill_buffer-Later :
      (r r2 : CompressedReader) → r.eof ≡ false → refill_buffer b r ≡ some r2 → Later r r2
  unfolding refill_buffer refill_from
  refill_buffer-Later r r2 more e = elim (Option-cases r.fd) [
    | inl closed ↦ ground (arith, e, closed)
    | inr (f, the) ↦ elim (Option-cases (read_all f header_size r.fd_offset)) [
      | inl fails ↦ ground (arith, e, the, fails)
      | inr ((header, next), went) ↦
          let moved : next ≡ r.fd_offset + header_size =
            read_all-offset f header_size r.fd_offset header next went in
          let step : refill_block b f (header_of header) next r ≡ some r2 =
            ground (arith, e, the, went) in
          let (file, after) = refill_block-offset f (header_of header) next r r2 step in
          record { same_file = file; moved = inr (omega arith, more) }
    ]
  ]

  read-Later :
      (n left : ℕ) (r r2 : CompressedReader) (out : List ℕ)
      → read b n left r ≡ some (out, r2)
      → Later r r2
  unfolding read
  read-Later zero left r r2 out e = absurd (ground arith)
  read-Later (suc n) zero r r2 out e = ground arith
  read-Later (suc n) (suc left) r r2 out e = elim (List-cases (available b r)) [
    | inl empty ↦ elim (Bool-cases r.eof) [
      | inl end ↦
          let same : some ([], r) ≡ some (out, r2) = sym (rw (read, empty, end) refl) ∙ e in
          ground arith
      | inr more ↦ elim (Option-cases (refill_buffer b r)) [
        | inl fails ↦
            let same : none ≡ some (out, r2) =
              sym (rw (read, empty) (simp (more, fails) refl)) ∙ e in
            ground arith
        | inr (r1, went) ↦
            Later-trans r r1 r2 (refill_buffer-Later r r1 more went) (
              read-Later n (suc left) r1 r2 out
                (sym (read_again b n left r r1 empty more went) ∙ e))
      ]
    ]
    | inr (x, xs, some_left) ↦
        let k = min (suc left) (length r.buffer - r.buffer_read_pos) in
        let r1 : CompressedReader = record r { buffer_read_pos = r.buffer_read_pos + k } in
        elim (Option-cases (read b n (suc left - k) r1)) [
          | inl fails ↦
              let same : none ≡ some (out, r2) = sym (rw (read, some_left) (rw fails refl)) ∙ e in
              ground arith
          | inr ((rest, r'), ran) ↦
              let same : some (take k (available b r) ++ rest, r') ≡ some (out, r2) =
                sym (read_given b n left x xs rest r r' some_left ran) ∙ e in
              let there : r' ≡ r2 = ground arith in
              let stays : Later r r1 = record { same_file = refl; moved = inl (refl, refl) } in
              subst (λ q. Later r q) there
                (Later-trans r r1 r' stays (read-Later n (suc left - k) r1 r' rest ran))
        ]
  ]

  -- A state that was saved and is restored after a read gives the reader back as it was, its flag for
  -- the end of the file too.
  pub restore_state-get_state :
      (n left : ℕ) (r r2 : CompressedReader) (out : List ℕ)
      → read b n left r ≡ some (out, r2)
      → restore_state (get_state r) r2 ≡ r
  unfolding restore_state get_state
  restore_state-get_state n left r r2 out e =
      let later = read-Later n left r r2 out e in
      let flag : (if ltb r.fd_offset r2.fd_offset then false else r2.eof) ≡ r.eof =
        ground (arith, later.moved) in
      rw (flag, later.same_file) refl

  -- Rewinding a reader of a file that is not empty makes it a new reader of that file.
  pub rewind-new :
      (f : File) (x : ℕ) (xs : List ℕ) (r : CompressedReader)
      → f.bytes ≡ x ∷ xs
      → r.fd ≡ some f
      → rewind r ≡ new f
  unfolding rewind new ends_at pread
  rewind-new f x xs r e the =
      let one : min 1 (suc (f.most 0)) ≡ 1 = omega arith in
      let more : ends_at f 0 ≡ false = rw (e, ends_at, pread, one) refl in simp (the, more) refl

  rewound-empty : (f : File) → f.bytes ≡ [] → refill_buffer b (rewind (new f)) ≡ none
  unfolding refill_buffer refill_from rewind new
  rewound-empty f e = rw (refill_from, read_all-at_end f 7 0 e) refl

  -- A new reader of an empty file gives no bytes and is at its end. After it is rewound, a read fails.
  pub rewind-empty :
      (f : File) (n left : ℕ)
      → f.bytes ≡ []
      → (read b (suc n) (suc left) (new f) ≡ some ([], new f))
        × (at_end (new f) ≡ true)
        × (read b (suc n) (suc left) (rewind (new f)) ≡ none)
  unfolding rewind new at_end read available
  rewind-empty f n left e =
      let ends = ends_at-empty f e in
      (simp ends refl, simp ends refl, rw (read, rewound-empty f e) refl)
