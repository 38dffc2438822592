-- ===== src/GdbConnection/Write.antt =====
-- gdb_connection.rs: the packets that rd sends.
use rd.Prelude.{
  ℕ, ◌+◌, ◌-◌, ◌/◌, ◌%◌, ◌^◌, Bool, Option, none, some, List, [], ◌∷◌, ◌++◌, bit_xor, length, take,
  drop, ltb, ◌==◌, ◌||◌, if◌then◌else◌,
}
use rd.GdbConnection.State.{Connection, write_data_raw}

-- A lower-case hexadecimal digit.
abbrev pub hex_digit : ℕ → ℕ
hex_digit d = if ltb d 10 then b'0' + d else b'a' + (d - 10)

-- `{:02x}` of a byte
abbrev pub hex_byte : ℕ → List ℕ
hex_byte b = hex_digit (b / 16) ∷ hex_digit (b % 16) ∷ []

-- The additions of a `u8` that wraps.
unfoldable pub checksum_from : ℕ → List ℕ → ℕ
checksum_from sum [] = sum
checksum_from sum (b ∷ bs) = checksum_from ((sum + b) % 2 ^ 8) bs

abbrev pub checksum : List ℕ → ℕ
checksum bytes = checksum_from 0 bytes

unfoldable pub write_hex : ℕ → Connection → Connection
unfolding write_data_raw
write_hex hex c = write_data_raw (hex_byte hex) c

unfoldable pub write_packet_bytes : List ℕ → Connection → Connection
unfolding write_data_raw write_hex
write_packet_bytes bytes c =
    let c1 = write_data_raw (b'$' ∷ []) c in
    let c2 = write_data_raw bytes c1 in
    let c3 = write_data_raw (b'#' ∷ []) c2 in write_hex (checksum bytes) c3

abbrev pub needs_escape : ℕ → Bool
needs_escape b = b == b'#' || b == b'$' || b == b'}' || b == b'*'

-- The loop of `write_binary_packet`.
unfoldable pub escape : List ℕ → List ℕ
escape [] = []
escape (b ∷ bs) = if needs_escape b then b'}' ∷ bit_xor b 0x20 ∷ escape bs else b ∷ escape bs

unfoldable pub write_binary_packet : List ℕ → List ℕ → Connection → Connection
unfolding escape write_packet_bytes
write_binary_packet pfx bytes c = write_packet_bytes (pfx ++ escape bytes) c

unfoldable pub hex_bytes : List ℕ → List ℕ
hex_bytes [] = []
hex_bytes (b ∷ bs) = hex_digit (b / 16) ∷ hex_digit (b % 16) ∷ hex_bytes bs

unfoldable pub write_hex_bytes_packet_with_prefix : List ℕ → List ℕ → Connection → Connection
unfolding hex_bytes write_packet_bytes
write_hex_bytes_packet_with_prefix prefix bytes c = write_packet_bytes (prefix ++ hex_bytes bytes) c

unfoldable pub write_hex_bytes_packet : List ℕ → Connection → Connection
unfolding write_hex_bytes_packet_with_prefix
write_hex_bytes_packet bytes c = write_hex_bytes_packet_with_prefix [] bytes c

-- `offset + len` is a `usize`, which wraps in a release build. A slice whose end is before its start
-- is a panic, `none`.
unfoldable pub write_xfer_response : List ℕ → ℕ → ℕ → Connection → Option Connection
unfolding write_packet_bytes write_binary_packet
write_xfer_response bytes offset len c =
    let size = length bytes in
    let end = (offset + len) % 2 ^ 64 in
    if ltb size offset
    then some (write_packet_bytes (b'E' ∷ b'0' ∷ b'1' ∷ []) c)
    else if offset == size
    then some (write_packet_bytes (b'l' ∷ []) c)
    else if ltb end size
    then (if ltb end offset
        then none
        else some (write_binary_packet (b'm' ∷ []) (take (end - offset) (drop offset bytes)) c))
    else some (write_binary_packet (b'l' ∷ []) (drop offset bytes) c)
