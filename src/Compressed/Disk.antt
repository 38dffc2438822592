-- ===== src/Compressed/Disk.antt =====
-- trace/compressed_reader.rs, util.rs: what is read of a file, however short each `pread` is.
use rd.Prelude.{
  ℕ, zero, suc, ◌+◌, ◌-◌, ◌^◌, ◌≤◌, ◌<◌, min, ==_refl, none, some, take-nil, List, [], ◌∷◌, ◌++◌,
  length, take, take-length, take-nil, List-cases, inl, inr, drop, drop-add, drop-length, ◌≡◌, refl,
  ap, ◌∙◌, arith,
}
use rd.Compressed.File.{
  BlockHeader, u32_bytes, header_bytes, u32_at, header_of, File, pread, read_to_end, read_all,
}

-- A first piece and then the rest of what is asked for.
take_pieces :
    (i size : ℕ) (l : List ℕ)
    → i ≤ size
    → take i l ++ take (size - length (take i l)) (drop (length (take i l)) l) ≡ take size l
take_pieces zero size l h = ground arith
take_pieces (suc i) zero l h = absurd (omega arith)
take_pieces (suc i) (suc size) [] h = ground arith
take_pieces (suc i) (suc size) (x ∷ l) h = ground (arith, take_pieces i size l (omega arith))

pub read_to_end_lem :
    (n : ℕ) (f : File) (size offset : ℕ)
    → size < n
    → read_to_end n f size offset ≡ take size (drop offset f.bytes)
unfolding read_to_end pread
read_to_end_lem zero f size offset h = absurd (omega arith)
read_to_end_lem (suc n) f zero offset h = refl
read_to_end_lem (suc n) f (suc size) offset h = elim (List-cases (drop offset f.bytes)) [
  | inl e ↦ ground (arith, e, take-nil {A = ℕ} (min (suc size) (suc (f.most offset))))
  | inr (x, l, e) ↦
      let k = min size (f.most offset) in
      let least : min (suc size) (suc (f.most offset)) ≡ suc k = omega arith in
      let piece = x ∷ take k l in
      let later =
        read_to_end_lem n f (suc size - length piece) (offset + length piece) (omega arith)
        ∙ ap (take (suc size - length piece))
            (drop-add offset (length piece) f.bytes ∙ ap (drop (length piece)) e) in
      rw (e, read_to_end, pread, least)
        (ap (λ t. piece ++ t) later ∙ take_pieces (suc k) (suc size) (x ∷ l) (omega arith))
]

pub read_all_lem :
    (f : File) (offset : ℕ) (piece rest : List ℕ)
    → drop offset f.bytes ≡ piece ++ rest
    → (read_all f (length piece) offset ≡ some (piece, offset + length piece))
      × (drop (offset + length piece) f.bytes ≡ rest)
unfolding read_all
read_all_lem f offset piece rest e = (
  (let out : read_to_end (suc (length piece)) f (length piece) offset ≡ piece =
        read_to_end_lem (suc (length piece)) f (length piece) offset (omega arith)
        ∙ (ap (take (length piece)) e ∙ take-length piece rest) in
      rw (out, ==_refl) refl),
  drop-add offset (length piece) f.bytes ∙ (ap (drop (length piece)) e ∙ drop-length piece rest),
)

-- A header is read as it was written.
pub header_of-header_bytes :
    (h : BlockHeader)
    → h.compressed_length < 2 ^ 32
    → h.uncompressed_length < 2 ^ 32
    → header_of (header_bytes h) ≡ h
unfolding header_of header_bytes u32_bytes u32_at
header_of-header_bytes h a b = ground arith

-- At the end of the file there is nothing.
pub read_all-at_end :
    (f : File) (size offset : ℕ) → drop offset f.bytes ≡ [] → read_all f (suc size) offset ≡ none
unfolding read_all read_to_end pread
read_all-at_end f size offset e =
    ground (arith, e, take-nil {A = ℕ} (min (suc size) (suc (f.most offset))))
