-- ===== src/Compressed/Skipping.antt =====
-- trace/compressed_reader.rs: skipping, the test for the end, and the count of the bytes.
use rd.Prelude.{
  ℕ, zero, suc, ◌+◌, ◌-◌, ◌≤◌, ◌<◌, min, ◌==◌, if◌then◌else◌, Bool-cases, Option-cases, false,
  Option, none, some, List, [], ◌∷◌, ◌++◌, length, length-append, length-take_of_le, take, drop,
  List-cases, inl, inr, ◌≡◌, refl, sym, ap, ◌∙◌, arith,
}
use mathlib.Core.List.{append_assoc}
use rd.Compressed.File.{
  Brotli, BlockHeader, File, header_bytes, u32_bytes, header_of, header_size, block_bytes,
}
use rd.Compressed.Disk.{read_all_lem, read_all-at_end, header_of-header_bytes}
use rd.Compressed.Reader.{
  CompressedReader, refill_buffer, available, read, skip, at_end, count_from, uncompressed_bytes,
}
use rd.Compressed.Blocks.{concat, Blocks, is_nil, file_bytes}
use rd.Compressed.Reads.{Reading, read_given, length-available}

==-add : (k a n : ℕ) → k ≤ n → (k + a == n) ≡ (a == n - k)
==-add k a n h = ground arith

module _ (b : Brotli) where
  -- What a skip of `size` bytes makes of a read of as many.
  abbrev pub skipped : ℕ → Option (List ℕ × CompressedReader) → Option CompressedReader
  skipped size none = none
  skipped size (some (out, r)) = if length out == size then some r else none

  skip_given :
      (n size x : ℕ) (xs : List ℕ) (r : CompressedReader)
      → available b r ≡ x ∷ xs
      → (let k = min (suc size) (length r.buffer - r.buffer_read_pos) in
          skip b (suc n) (suc size) r
          ≡ skip b n (suc size - k) (record r { buffer_read_pos = r.buffer_read_pos + k }))
  unfolding skip
  skip_given n size x xs r e = rw (skip, e) refl

  -- Skipping succeeds just when a read of as many bytes gives all of them, and leaves the reader where
  -- that read does.
  pub skip-read :
      (n size : ℕ) (r : CompressedReader) → skip b n size r ≡ skipped size (read b n size r)
  unfolding read skip
  skip-read zero size r = refl
  skip-read (suc n) zero r = refl
  skip-read (suc n) (suc size) r = elim (List-cases (available b r)) [
    | inl e ↦ elim (Bool-cases r.eof) [
      | inl end ↦
          let short : (0 == suc size) ≡ false = ground arith in rw (read, skip, e, end, short) refl
      | inr more ↦ elim (Option-cases (refill_buffer b r)) [
        | inl fails ↦ rw (read, skip, e) (simp (more, fails) refl)
        | inr (r', went) ↦ rw (read, skip, e) (simp (more, went) (skip-read n (suc size) r'))
      ]
    ]
    | inr (x, xs, e) ↦
        let k = min (suc size) (length r.buffer - r.buffer_read_pos) in
        let r1 : CompressedReader = record r { buffer_read_pos = r.buffer_read_pos + k } in
        elim (Option-cases (read b n (suc size - k) r1)) [
          | inl fails ↦ rw (read, skip, e) (skip-read n (suc size - k) r1 ∙ rw fails refl)
          | inr ((rest, r'), ran) ↦
              let given = read_given b n size x xs rest r r' e ran in
              let room : k ≤ length (available b r) = omega (arith, length-available b r) in
              let total : length (take k (available b r) ++ rest) ≡ k + length rest = omega (
                arith,
                length-append (take k (available b r)) rest,
                length-take_of_le k (available b r) room,
              ) in
              let test : (length rest == suc size - k)
                  ≡ (length (take k (available b r) ++ rest) == suc size) =
                sym (==-add k (length rest) (suc size) (omega arith))
                ∙ ap (λ m. m == suc size) (sym total) in
              skip_given n size x xs r e
              ∙ skip-read n (suc size - k) r1
              ∙ ap (skipped (suc size - k)) ran
              ∙ ap (λ q. if q then some r' else none) test
              ∙ sym (ap (skipped (suc size)) given)
        ]
  ]

  -- A reader says that it is at the end just when no data is left.
  pub at_end-Reading :
      (f : File) (rest : List ℕ) (r : CompressedReader)
      → Reading b f rest r
      → at_end r ≡ (length rest == 0)
  unfolding at_end Blocks concat is_nil
  at_end-Reading f rest r ([], w, h) =
      let total = ap length (sym h.whole) ∙ length-append (available b r) [] in
      let left = length-available b r in ground (arith, h.ended, h.inside, total, left)
  at_end-Reading f rest r (p ∷ ps, w, h) =
      let total = ap length (sym h.whole) ∙ length-append (available b r) (p ++ concat ps) in
      let more = length-append p (concat ps) in ground (arith, h.ended, total, more, w.0)

  count_from-Blocks :
      (n : ℕ) (f : File) (blocks : List (List ℕ)) (offset total : ℕ)
      → Blocks blocks
      → drop offset f.bytes ≡ file_bytes b blocks
      → length blocks < n
      → count_from b n f offset total ≡ some (total + length (concat blocks))
  unfolding count_from concat Blocks file_bytes block_bytes header_bytes u32_bytes
  count_from-Blocks zero f blocks offset total w e fuel = absurd (omega arith)
  count_from-Blocks (suc n) f [] offset total w e fuel =
      rw (count_from, read_all-at_end f 7 offset e) (ap some (omega arith))
  count_from-Blocks (suc n) f (p ∷ ps) offset total w e fuel =
      let h : BlockHeader = record {
        compressed_length = length (b.compress p);
        uncompressed_length = length p;
      } in
      let header : header_of (header_bytes h) ≡ h =
        header_of-header_bytes h (b.compress_length p w.1) (omega (arith, w.1)) in
      let first =
        read_all_lem f offset (header_bytes h) (b.compress p ++ file_bytes b ps)
          (e ∙ append_assoc (header_bytes h) (b.compress p) (file_bytes b ps)) in
      let second = read_all_lem f (offset + header_size) (b.compress p) (file_bytes b ps) first.1 in
      let rest =
        count_from-Blocks n f ps (offset + header_size + length (b.compress p)) (total + length p)
          w.2 second.1 (omega arith) in
      let sum : total + length p + length (concat ps) ≡ total + length (p ++ concat ps) =
        omega (arith, length-append p (concat ps)) in
      let step : count_from b (suc n) f offset total
          ≡ count_from b n f (offset + header_size + (header_of (header_bytes h)).compressed_length)
              (total + (header_of (header_bytes h)).uncompressed_length) =
        rw (count_from, first.0) refl in
      step
      ∙ ap
          (λ h'.
            count_from b n f (offset + header_size + h'.compressed_length)
              (total + h'.uncompressed_length))
          header
      ∙ rest
      ∙ ap some sum

  length-file_bytes : (blocks : List (List ℕ)) → length blocks ≤ length (file_bytes b blocks)
  unfolding file_bytes block_bytes header_bytes u32_bytes
  length-file_bytes [] = omega arith
  length-file_bytes (p ∷ ps) =
      omega (arith, length-file_bytes ps, length-append (block_bytes b p) (file_bytes b ps))

  -- For a reader of a file of blocks, wherever it is, the count of the bytes is the length of the data.
  pub uncompressed_bytes_lem :
      (f : File) (blocks : List (List ℕ)) (r : CompressedReader)
      → Blocks blocks
      → f.bytes ≡ file_bytes b blocks
      → r.fd ≡ some f
      → uncompressed_bytes b r ≡ some (length (concat blocks))
  unfolding uncompressed_bytes
  uncompressed_bytes_lem f blocks r w e the =
      let fuel : length blocks < suc (length f.bytes) =
        omega (arith, length-file_bytes blocks, ap length e) in
      rw the
        (count_from-Blocks (suc (length f.bytes)) f blocks 0 0 w e fuel ∙ ap some (omega arith))
