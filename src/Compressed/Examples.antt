-- ===== src/Compressed/Examples.antt =====
-- The witnesses for the reader of a compressed stream.
use rd.Prelude.{ℕ, true, false, none, some, List, [], ◌∷◌, ◌≡◌, refl, arith}
use rd.Compressed.File.{
  File, block_bytes, header_bytes, u32_bytes, read_all, read_to_end, pread, header_of, u32_at,
  do_decompress,
}
use rd.Compressed.Blocks.{concat, Blocks, file_bytes}
use rd.Compressed.Reader.{
  CompressedReader, read, skip, at_end, restore_state, get_state, rewind, uncompressed_bytes,
}
use rd.Compressed.Reader as R
use rd.Compressed.Reads.{Reading, read_lem, new-Reading}
use rd.Compressed.Saved.{restore_state-get_state, rewind-empty}
use rd.Compressed.Skipping.{skipped, skip-read}
use rd.Compressed.Codec.{codec}

abbrev two_blocks : List (List ℕ)
two_blocks = (7 ∷ 8 ∷ []) ∷ (9 ∷ []) ∷ []

two_blocks-Blocks : Blocks two_blocks
unfolding Blocks
two_blocks-Blocks = (omega arith, omega arith, (omega arith, omega arith, tt))

-- A file of two blocks that is read a byte at a time.
abbrev sample : File
sample = record { bytes = file_bytes codec two_blocks; most = λ offset. 0 }

sample-Reading : Reading codec sample (7 ∷ 8 ∷ 9 ∷ []) (R.new sample)
unfolding concat
sample-Reading = new-Reading codec sample two_blocks two_blocks-Blocks refl

read_lem_example :
    (r : CompressedReader) × (read codec 9 2 (R.new sample) ≡ some (7 ∷ 8 ∷ [], r))
    × Reading codec sample (9 ∷ []) r
read_lem_example =
    read_lem codec 9 2 sample (7 ∷ 8 ∷ 9 ∷ []) (R.new sample) sample-Reading (omega arith)

skip-read_example : skip codec 9 2 (R.new sample) ≡ skipped codec 2 (read codec 9 2 (R.new sample))
skip-read_example = skip-read codec 9 2 (R.new sample)

-- The reader after it read two bytes.
abbrev after_two : CompressedReader
after_two = record {
  fd_offset = 10;
  fd = some sample;
  eof = false;
  buffer = 7 ∷ 8 ∷ [];
  buffer_read_pos = 2;
}

restore_state-get_state_example : restore_state (get_state (R.new sample)) after_two ≡ R.new sample
unfolding R.new R.ends_at pread file_bytes block_bytes header_bytes u32_bytes read R.available
    R.refill_buffer R.refill_from R.refill_block read_all read_to_end header_of u32_at do_decompress
restore_state-get_state_example =
    restore_state-get_state codec 9 2 (R.new sample) after_two (7 ∷ 8 ∷ []) refl

abbrev empty : File
empty = record { bytes = []; most = λ offset. 0 }

rewind-empty_example :
    (read codec 1 1 (R.new empty) ≡ some ([], R.new empty))
    × (at_end (R.new empty) ≡ true)
    × (read codec 1 1 (rewind (R.new empty)) ≡ none)
rewind-empty_example = rewind-empty codec empty 0 0 refl
