-- ===== src/Compressed/Reader.antt =====
-- trace/compressed_reader.rs: the reader. `none` is an error that is returned, or a panic when the
-- reader was closed.
use rd.Prelude.{
  ℕ, zero, suc, ◌+◌, ◌-◌, min, ltb, ◌==◌, if◌then◌else◌, Bool, true, false, ◌&&◌, Option, none,
  some, List, [], ◌∷◌, ◌++◌, length, take, drop,
}
use rd.Compressed.File.{
  Brotli, BlockHeader, header_of, header_size, File, pread, read_all, do_decompress,
}

pub record CompressedReader : Type 0 where
  pub fd_offset : ℕ
  pub fd : Option File
  pub eof : Bool
  pub buffer : List ℕ
  pub buffer_read_pos : ℕ

pub record CompressedReaderState : Type 0 where
  pub saved_fd_offset : ℕ
  pub saved_buffer : List ℕ
  pub saved_buffer_read_pos : ℕ

-- Whether a `pread` of a byte gives none.
unfoldable pub ends_at : File → ℕ → Bool
ends_at f offset = elim (pread f 1 offset) [ [] ↦ true | b ∷ bs ↦ false ]

-- CompressedReader::new, of a file that could be opened
unfoldable pub new : File → CompressedReader
new f = record { fd_offset = 0; fd = some f; eof = ends_at f 0; buffer = []; buffer_read_pos = 0 }

unfoldable pub at_end : CompressedReader → Bool
at_end r = r.eof && (r.buffer_read_pos == length r.buffer)

unfoldable pub rewind : CompressedReader → CompressedReader
rewind r = record r { fd_offset = 0; buffer_read_pos = 0; buffer = []; eof = false }

unfoldable pub close : CompressedReader → CompressedReader
close r = record r { fd = none }

unfoldable pub get_state : CompressedReader → CompressedReaderState
get_state r = record {
  saved_fd_offset = r.fd_offset;
  saved_buffer = r.buffer;
  saved_buffer_read_pos = r.buffer_read_pos;
}

unfoldable pub restore_state : CompressedReaderState → CompressedReader → CompressedReader
restore_state s r = record r {
  eof = if ltb s.saved_fd_offset r.fd_offset then false else r.eof;
  fd_offset = s.saved_fd_offset;
  buffer = s.saved_buffer;
  buffer_read_pos = s.saved_buffer_read_pos;
}

module _ (b : Brotli) where
  -- The part of `refill_buffer` after the header.
  unfoldable pub refill_block : File → BlockHeader → ℕ → CompressedReader → Option CompressedReader
  refill_block f h offset r = elim (read_all f h.compressed_length offset) [
    | none ↦ none
    | some (packed, next) ↦ elim (do_decompress b packed h.uncompressed_length) [
      | none ↦ none
      | some plain ↦
          some (record r {
            fd_offset = next;
            eof = ends_at f next;
            buffer = plain;
            buffer_read_pos = 0;
          })
    ]
  ]

  unfoldable pub refill_from : File → CompressedReader → Option CompressedReader
  refill_from f r = elim (read_all f header_size r.fd_offset) [
    | none ↦ none
    | some (header, next) ↦ refill_block f (header_of header) next r
  ]

  unfoldable pub refill_buffer : CompressedReader → Option CompressedReader
  refill_buffer r = elim r.fd [ none ↦ none | some f ↦ refill_from f r ]

  -- What is left of the buffer.
  unfoldable pub available : CompressedReader → List ℕ
  available r = drop r.buffer_read_pos r.buffer

  -- The loop of `read`: the bytes that it gives.
  unfoldable pub read : ℕ → ℕ → CompressedReader → Option (List ℕ × CompressedReader)
  read zero left r = none
  read (suc n) zero r = some ([], r)
  read (suc n) (suc left) r = elim (available r) [
    | [] ↦
        (if r.eof
          then some ([], r)
          else elim (refill_buffer r) [ none ↦ none | some r' ↦ read n (suc left) r' ])
    | b ∷ bs ↦
        let amount = min (suc left) (length r.buffer - r.buffer_read_pos) in
        elim (read n (suc left - amount)
          (record r { buffer_read_pos = r.buffer_read_pos + amount })) [
            | none ↦ none
            | some (rest, r') ↦ some (take amount (b ∷ bs) ++ rest, r')
          ]
  ]

  -- The loop of `skip`.
  unfoldable pub skip : ℕ → ℕ → CompressedReader → Option CompressedReader
  skip zero size r = none
  skip (suc n) zero r = some r
  skip (suc n) (suc size) r = elim (available r) [
    | [] ↦
        (if r.eof
          then none
          else elim (refill_buffer r) [ none ↦ none | some r' ↦ skip n (suc size) r' ])
    | b ∷ bs ↦
        let amount = min (suc size) (length r.buffer - r.buffer_read_pos) in
        skip n (suc size - amount) (record r { buffer_read_pos = r.buffer_read_pos + amount })
  ]

  -- fill_buf: what may be read, and the reader after it
  unfoldable pub fill_buf : CompressedReader → Option (List ℕ × CompressedReader)
  fill_buf r = elim (available r) [
    | [] ↦
        (if r.eof
          then some ([], r)
          else elim (refill_buffer r) [ none ↦ none | some r' ↦ some (available r', r') ])
    | b ∷ bs ↦ some (b ∷ bs, r)
  ]

  unfoldable pub consume : ℕ → CompressedReader → CompressedReader
  consume amount r = record r { buffer_read_pos = r.buffer_read_pos + amount }

  -- The loop of `uncompressed_bytes`.
  unfoldable pub count_from : ℕ → File → ℕ → ℕ → Option ℕ
  count_from zero f offset total = none
  count_from (suc n) f offset total = elim (read_all f header_size offset) [
    | none ↦ some total
    | some (header, next) ↦
        count_from n f (next + (header_of header).compressed_length)
          (total + (header_of header).uncompressed_length)
  ]

  -- A block takes more than a byte, so there are fewer rounds than bytes.
  unfoldable pub uncompressed_bytes : CompressedReader → Option ℕ
  uncompressed_bytes r = elim r.fd [
    | none ↦ none
    | some f ↦ count_from (suc (length f.bytes)) f 0 0
  ]

unfoldable pub compressed_bytes : CompressedReader → Option ℕ
compressed_bytes r = elim r.fd [ none ↦ none | some f ↦ some (length f.bytes) ]
