-- ===== src/Compressed/File.antt =====
-- trace/compressed_writer.rs, trace/compressed_reader.rs, util.rs: the file of a compressed stream. It
-- is a row of blocks, each a header and the data as brotli compressed it. A byte is a number below 256.
use rd.Prelude.{
  ℕ, zero, suc, ◌+◌, ◌-◌, ◌*◌, ◌/◌, ◌%◌, ◌^◌, ◌<◌, min, ◌==◌, if◌then◌else◌, Option, none, some,
  List, [], ◌∷◌, ◌++◌, length, take, drop, ◌≡◌,
}

-- The brotli library. What it compresses it gives back, when the room that it has is the length of the
-- data, and what it makes is not empty and, for less than 2 ^ 31 bytes, fits its 32-bit length.
pub record Brotli : Type 0 where
  pub compress : List ℕ → List ℕ
  pub decompress : List ℕ → ℕ → Option (List ℕ)
  pub decompress-compress :
      (plain : List ℕ)
      → length plain < 2 ^ 31
      → decompress (compress plain) (length plain) ≡ some plain
  pub compress_length : (plain : List ℕ) → length plain < 2 ^ 31 → length (compress plain) < 2 ^ 32
  pub compress_nonempty : (plain : List ℕ) → 0 < length (compress plain)

pub record BlockHeader : Type 0 where
  pub compressed_length : ℕ
  pub uncompressed_length : ℕ

-- A `u32` as x86 stores it.
unfoldable pub u32_bytes : ℕ → List ℕ
u32_bytes n = n % 256 ∷ n / 256 % 256 ∷ n / 65536 % 256 ∷ n / 16777216 % 256 ∷ []

unfoldable pub header_bytes : BlockHeader → List ℕ
unfolding u32_bytes
header_bytes h = u32_bytes h.compressed_length ++ u32_bytes h.uncompressed_length

unfoldable pub u32_at : List ℕ → ℕ → ℕ
u32_at (a ∷ b ∷ c ∷ d ∷ rest) zero = a + 256 * b + 65536 * c + 16777216 * d
u32_at (a ∷ b ∷ c ∷ d ∷ rest) (suc n) = u32_at rest n
u32_at _ _ = 0

unfoldable pub header_of : List ℕ → BlockHeader
header_of bytes = record {
  compressed_length = u32_at bytes 0;
  uncompressed_length = u32_at bytes 1;
}

-- size_of::<BlockHeader>()
abbrev pub header_size : ℕ
header_size = 8

-- What one thread writes for a block.
unfoldable pub block_bytes : Brotli → List ℕ → List ℕ
block_bytes b plain =
    header_bytes
      (record { compressed_length = length (b.compress plain); uncompressed_length = length plain })
    ++ b.compress plain

-- A file, and how much a `pread` at an offset gives at most, which is at least a byte.
pub record File : Type 0 where
  pub bytes : List ℕ
  pub most : ℕ → ℕ

unfoldable pub pread : File → ℕ → ℕ → List ℕ
pread f size offset = take (min size (suc (f.most offset))) (drop offset f.bytes)

-- read_to_end of util.rs: its loop, with fuel
unfoldable pub read_to_end : ℕ → File → ℕ → ℕ → List ℕ
read_to_end zero f size offset = []
read_to_end (suc n) f zero offset = []
read_to_end (suc n) f (suc size) offset = elim (pread f (suc size) offset) [
  | [] ↦ []
  | b ∷ bs ↦ (b ∷ bs) ++ read_to_end n f (suc size - length (b ∷ bs)) (offset + length (b ∷ bs))
]

-- read_all: the data and the new offset, `none` at the end of the file
unfoldable pub read_all : File → ℕ → ℕ → Option (List ℕ × ℕ)
read_all f size offset =
    let out = read_to_end (suc size) f size offset in
    if length out == size then some (out, offset + length out) else none

-- do_decompress
unfoldable pub do_decompress : Brotli → List ℕ → ℕ → Option (List ℕ)
do_decompress b packed size = elim (b.decompress packed size) [
  | none ↦ none
  | some out ↦ if length out == size then some out else none
]
