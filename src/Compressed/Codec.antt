-- ===== src/Compressed/Codec.antt =====
-- A codec that stands for brotli in the witnesses for the streams of a trace.
use rd.Prelude.{ℕ, zero, suc, ◌^◌, ◌<◌, some, List, [], ◌∷◌, length, ◌≡◌, refl, ap, arith}
use rd.Compressed.File.{Brotli}

-- The first byte made one more, so that nothing is told from a zero.
abbrev pub keep : List ℕ → List ℕ
keep [] = 0 ∷ []
keep (x ∷ xs) = suc x ∷ xs

abbrev pub unkeep : List ℕ → List ℕ
unkeep [] = []
unkeep (zero ∷ xs) = []
unkeep (suc x ∷ xs) = x ∷ xs

pub unkeep-keep : (xs : List ℕ) → unkeep (keep xs) ≡ xs
unkeep-keep [] = refl
unkeep-keep (x ∷ xs) = refl

pub length-keep : (xs : List ℕ) → length xs < 2 ^ 31 → length (keep xs) < 2 ^ 32
length-keep [] h = omega arith
length-keep (x ∷ xs) h = omega arith

pub keep_nonempty : (xs : List ℕ) → 0 < length (keep xs)
keep_nonempty [] = omega arith
keep_nonempty (x ∷ xs) = omega arith

abbrev pub codec : Brotli
codec = record {
  compress = keep;
  decompress = λ packed size. some (unkeep packed);
  decompress-compress = λ plain small. ap some (unkeep-keep plain);
  compress_length = length-keep;
  compress_nonempty = keep_nonempty;
}
