-- ===== src/Compressed/Blocks.antt =====
-- trace/compressed_reader.rs: a reader at some place of a file that is a row of blocks.
use rd.Prelude.{
  ℕ, suc, ◌+◌, ◌^◌, ◌≤◌, ◌<◌, min, ==_refl, Bool, true, false, none, some, List, [], ◌∷◌, ◌++◌,
  length, take-nil, drop, ◌≡◌, refl, ap, ◌∙◌, arith,
}
use mathlib.Core.List.{append_assoc}
use rd.Compressed.File.{
  Brotli, BlockHeader, u32_bytes, header_bytes, header_of, header_size, block_bytes, File, pread,
  do_decompress,
}
use rd.Compressed.Disk.{read_all_lem, header_of-header_bytes}
use rd.Compressed.Reader.{
  CompressedReader, ends_at, refill_block, refill_from, refill_buffer, available,
}

unfoldable pub concat : List (List ℕ) → List ℕ
concat [] = []
concat (p ∷ ps) = p ++ concat ps

-- The blocks of a stream: none is empty, and each has a length that the header holds.
unfoldable pub Blocks : List (List ℕ) → Type 0
Blocks [] = Unit
Blocks (p ∷ ps) = (0 < length p) × (length p < 2 ^ 31) × Blocks ps

unfoldable pub is_nil : List (List ℕ) → Bool
is_nil [] = true
is_nil (p ∷ ps) = false

module _ (b : Brotli) where
  -- The bytes of a file with these blocks.
  unfoldable pub file_bytes : List (List ℕ) → List ℕ
  file_bytes [] = []
  file_bytes (p ∷ ps) = block_bytes b p ++ file_bytes ps

  -- The reader r has these blocks of the file before it, and will give this data.
  pub record Holds (f : File) (blocks : List (List ℕ)) (rest : List ℕ) (r : CompressedReader)
      : Type 0 where
    pub the_file : r.fd ≡ some f
    pub ahead : drop r.fd_offset f.bytes ≡ file_bytes blocks
    pub ended : r.eof ≡ is_nil blocks
    pub whole : available b r ++ concat blocks ≡ rest
    pub inside : r.buffer_read_pos ≤ length r.buffer

  pub ends_at_lem :
      (f : File) (offset : ℕ) (blocks : List (List ℕ))
      → drop offset f.bytes ≡ file_bytes blocks
      → ends_at f offset ≡ is_nil blocks
  unfolding ends_at pread file_bytes block_bytes header_bytes u32_bytes is_nil
  ends_at_lem f offset [] e = ground (arith, e, take-nil {A = ℕ} (min 1 (suc (f.most offset))))
  ends_at_lem f offset (p ∷ ps) e =
      let one : min 1 (suc (f.most offset)) ≡ 1 = omega arith in rw (e, ends_at, pread, one) refl

  do_decompress_lem :
      (p : List ℕ) → length p < 2 ^ 31 → do_decompress b (b.compress p) (length p) ≡ some p
  unfolding do_decompress
  do_decompress_lem p h = rw (b.decompress-compress p h, do_decompress, ==_refl) refl

  refill_block_lem :
      (f : File) (p : List ℕ) (ps : List (List ℕ)) (offset : ℕ) (r : CompressedReader)
      → drop offset f.bytes ≡ b.compress p ++ file_bytes ps
      → length p < 2 ^ 31
      → refill_block b f
          (record { compressed_length = length (b.compress p); uncompressed_length = length p })
          offset
          r
        ≡ some (record r {
          fd_offset = offset + length (b.compress p);
          eof = ends_at f (offset + length (b.compress p));
          buffer = p;
          buffer_read_pos = 0;
        })
  unfolding refill_block
  refill_block_lem f p ps offset r e small =
      rw
        (
          refill_block,
          (read_all_lem f offset (b.compress p) (file_bytes ps) e).0,
          do_decompress_lem p small,
        )
        refl

  -- Refilling takes the next block.
  pub refill_buffer_lem :
      (f : File) (p : List ℕ) (ps : List (List ℕ)) (r : CompressedReader)
      → r.fd ≡ some f
      → drop r.fd_offset f.bytes ≡ file_bytes (p ∷ ps)
      → length p < 2 ^ 31
      → (r' : CompressedReader) × (refill_buffer b r ≡ some r') × Holds f ps (p ++ concat ps) r'
  unfolding refill_buffer refill_from file_bytes block_bytes available header_bytes u32_bytes
  refill_buffer_lem f p ps r the e small =
      let h : BlockHeader = record {
        compressed_length = length (b.compress p);
        uncompressed_length = length p;
      } in
      let header : header_of (header_bytes h) ≡ h =
        header_of-header_bytes h (b.compress_length p small) (omega arith) in
      let first =
        read_all_lem f r.fd_offset (header_bytes h) (b.compress p ++ file_bytes ps)
          (e ∙ append_assoc (header_bytes h) (b.compress p) (file_bytes ps)) in
      let second =
        read_all_lem f (r.fd_offset + header_size) (b.compress p) (file_bytes ps) first.1 in
      (
        record {
          fd_offset = r.fd_offset + header_size + length (b.compress p);
          fd = r.fd;
          eof = ends_at f (r.fd_offset + header_size + length (b.compress p));
          buffer = p;
          buffer_read_pos = 0;
        },
        ap (λ fd. elim fd [ none ↦ none | some g ↦ refill_from b g r ]) the
            ∙ (rw (refill_from, first.0)
                (ap (λ h'. refill_block b f h' (r.fd_offset + header_size) r) header
                  ∙ refill_block_lem f p ps (r.fd_offset + header_size) r first.1 small)),
        record {
          the_file = the;
          ahead = second.1;
          ended = ends_at_lem f _ ps second.1;
          whole = refl;
          inside = omega arith;
        },
      )
