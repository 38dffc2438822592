-- ===== src/GdbConnection/Escape.antt =====
-- gdb_connection.rs: binary data is read back as it was escaped.
use rd.Prelude.{
  ℕ, ◌<◌, ◌≡◌, ◌≢◌, refl, ◌||◌, ◌&&◌, not, Bool, true, Option, none, some, List, [], ◌∷◌, bit_xor,
  ◌==◌, if◌then◌else◌, arith, Bool-cases, inl, inr,
}
use rd.Prelude.Bits.{holds_below, holds_below_lem}
use rd.GdbConnection.ByteSearch.{Lacks}
use rd.GdbConnection.Write.{escape, needs_escape}

-- The loop of read_binary_data. `none` is the assert that a byte follows the `}`.
unfoldable pub read_binary_data : List ℕ → Option (List ℕ)
read_binary_data [] = some []
read_binary_data (b ∷ []) = if b'}' == b then none else some (b ∷ [])
read_binary_data (b ∷ next ∷ rest) =
    let escaped = read_binary_data rest in
    let plain = read_binary_data (next ∷ rest) in
    if b'}' == b
    then elim escaped [ none ↦ none | some out ↦ some (bit_xor 0x20 next ∷ out) ]
    else elim plain [ none ↦ none | some out ↦ some (b ∷ out) ]

abbrev pub Bytes : List ℕ → Type 0
Bytes [] = Unit
Bytes (b ∷ bs) = (b < 256) × Bytes bs

-- What an escaped byte becomes: the byte again under the same mask, and neither `#` nor `$`.
unescapes : ℕ → Bool
unescapes b =
    (bit_xor 0x20 (bit_xor b 0x20) == b)
    && (not (needs_escape b) || (not (bit_xor b 0x20 == b'#') && not (bit_xor b 0x20 == b'$')))

unescapes_table : holds_below 256 unescapes ≡ true
unfolding holds_below unescapes
unescapes_table = refl

unescape_byte : (b : ℕ) → b < 256 → bit_xor 0x20 (bit_xor b 0x20) ≡ b
unfolding unescapes
unescape_byte b h = ground (arith, holds_below_lem 256 unescapes b unescapes_table h)

safe_byte :
    (b : ℕ) → b < 256 → needs_escape b ≡ true → (bit_xor b 0x20 ≢ b'#') × (bit_xor b 0x20 ≢ b'$')
unfolding unescapes
safe_byte b h e = ground (arith, holds_below_lem 256 unescapes b unescapes_table h)

-- A byte that is not `}` stands for itself, whatever follows.
read-plain :
    (b : ℕ) (rest out : List ℕ)
    → b ≢ b'}'
    → read_binary_data rest ≡ some out
    → read_binary_data (b ∷ rest) ≡ some (b ∷ out)
unfolding read_binary_data
read-plain b [] out h e = ground arith
read-plain b (next ∷ rest) out h e = ground arith

-- Any bytes, escaped as `write_binary_packet` does, are read back by `read_binary_data`.
pub read_binary_data-escape :
    (bytes : List ℕ) → Bytes bytes → read_binary_data (escape bytes) ≡ some bytes
unfolding escape read_binary_data
read_binary_data-escape [] h = refl
read_binary_data-escape (b ∷ bs) h = elim (Bool-cases (needs_escape b)) [
  | inl e ↦ rw e (rw (read_binary_data-escape bs h.1, unescape_byte b h.0))
  | inr e ↦ rw e (read-plain b (escape bs) bs (ground arith) (read_binary_data-escape bs h.1))
]

-- Escaped data holds no `#`, which would end the packet.
pub escape-Lacks : (bytes : List ℕ) → Bytes bytes → Lacks b'#' (escape bytes)
unfolding escape
escape-Lacks [] h = tt
escape-Lacks (b ∷ bs) h = elim (Bool-cases (needs_escape b)) [
  | inl e ↦ rw e ((λ p. absurd (omega arith)), ((safe_byte b h.0 e).0, escape-Lacks bs h.1))
  | inr e ↦ rw e (ground arith, escape-Lacks bs h.1)
]
