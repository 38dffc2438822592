-- ===== src/GdbConnection/Xfer.antt =====
-- gdb_connection.rs: a client that asks for an object piece by piece gets the whole of it.
use rd.Prelude.{
  ℕ, zero, suc, ◌+◌, ◌-◌, ◌%◌, ◌^◌, ◌<◌, ◌≤◌, ◌≡◌, refl, true, Option, none, some, List, [], ◌∷◌,
  ◌++◌, length, take, drop, ltb, ◌==◌, if◌then◌else◌, arith, drop_all, drop-add, take-append-drop,
  length-take_of_le, length-drop,
}
use native.Mathlib.Decide.{dec_lt}
use rd.GdbConnection.State.{Connection}
use rd.GdbConnection.Write.{escape, hex_byte, checksum, write_packet_bytes, write_xfer_response}
use rd.GdbConnection.ByteSearch.{Lacks}
use rd.GdbConnection.Frame.{frame, outbuf-write_packet_bytes}
use rd.GdbConnection.Escape.{Bytes, read_binary_data, read_binary_data-escape, escape-Lacks}

-- What a reply frames: `m` and a piece, `l` and the last piece, or an error.
xfer_payload : List ℕ → ℕ → ℕ → Option (List ℕ)
xfer_payload bytes offset len =
    if ltb (length bytes) offset
    then some (b'E' ∷ b'0' ∷ b'1' ∷ [])
    else if offset == length bytes
    then some (b'l' ∷ [])
    else if ltb ((offset + len) % 2 ^ 64) (length bytes)
    then (if ltb ((offset + len) % 2 ^ 64) offset
        then none
        else some (b'm' ∷ escape (take ((offset + len) % 2 ^ 64 - offset) (drop offset bytes))))
    else some (b'l' ∷ escape (drop offset bytes))

-- The reply is that payload, framed.
write_xfer_response_lem :
    (bytes : List ℕ) (offset len : ℕ) (c : Connection)
    → write_xfer_response bytes offset len c ≡ elim (xfer_payload bytes offset len) [
      | none ↦ none
      | some p ↦ some (write_packet_bytes p c)
    ]
unfolding xfer_payload write_xfer_response
write_xfer_response_lem bytes offset len c = ground arith

-- The connection that a reply is written to, before it.
abbrev pub fresh : Connection
fresh = record {
  inbuf = [];
  packetend = 0;
  outbuf = [];
  connection_alive = true;
  no_ack = true;
  incoming = [];
  accepts = [];
  sent = [];
}

-- What gdb takes from a packet: what stands between its `$` and its `#`.
pub before_hash : List ℕ → List ℕ
before_hash [] = []
before_hash (b ∷ bs) = if b == b'#' then [] else b ∷ before_hash bs

before_hash_lem : (bs rest : List ℕ) → Lacks b'#' bs → before_hash (bs ++ b'#' ∷ rest) ≡ bs
unfolding before_hash
before_hash_lem [] rest h = refl
before_hash_lem (b ∷ bs) rest h = ground (arith, before_hash_lem bs rest h.1)

-- One request of the client: the payload of the reply.
pub ask : List ℕ → ℕ → ℕ → Option (List ℕ)
ask bytes offset len = elim (write_xfer_response bytes offset len fresh) [
  | none ↦ none
  | some c ↦ some (before_hash (drop 1 c.outbuf))
]

-- The client: piece after piece, from where the last one ended, until a reply starts with `l`.
-- `none` is a panic, an error, data that cannot be read, or more rounds than `rounds`.
pub ask_all : ℕ → List ℕ → ℕ → ℕ → Option (List ℕ)
ask_all zero bytes offset len = none
ask_all (suc rounds) bytes offset len = elim (ask bytes offset len) [
  | none ↦ none
  | some [] ↦ none
  | some (kind ∷ body) ↦ elim (read_binary_data body) [
    | none ↦ none
    | some piece ↦
        let more = ask_all rounds bytes (offset + length piece) len in
        if kind == b'l'
        then some piece
        else if kind == b'm'
        then elim more [ none ↦ none | some rest ↦ some (piece ++ rest) ]
        else none
  ]
]

Bytes-take : (n : ℕ) (bs : List ℕ) → Bytes bs → Bytes (take n bs)
Bytes-take zero bs h = tt
Bytes-take (suc n) [] h = tt
Bytes-take (suc n) (b ∷ bs) h = (h.0, Bytes-take n bs h.1)

Bytes-drop : (n : ℕ) (bs : List ℕ) → Bytes bs → Bytes (drop n bs)
Bytes-drop zero bs h = h
Bytes-drop (suc n) [] h = tt
Bytes-drop (suc n) (b ∷ bs) h = Bytes-drop n bs h.1

-- The payload of a reply reaches gdb as it was framed, where it has no `#`.
ask_payload :
    (bytes payload : List ℕ) (offset len : ℕ)
    → xfer_payload bytes offset len ≡ some payload
    → Lacks b'#' payload
    → ask bytes offset len ≡ some payload
unfolding ask frame
ask_payload bytes payload offset len e h = ground (
  arith,
  write_xfer_response_lem bytes offset len fresh,
  outbuf-write_packet_bytes payload fresh,
  before_hash_lem payload (hex_byte (checksum payload)) h,
)

-- The reply that is not the last, and the last.
ask_piece :
    (bytes : List ℕ) (offset len : ℕ)
    → Bytes bytes
    → length bytes + len < 2 ^ 64
    → offset + len < length bytes
    → ask bytes offset len ≡ some (b'm' ∷ escape (take len (drop offset bytes)))
unfolding xfer_payload
ask_piece bytes offset len h fits more =
    ask_payload bytes (b'm' ∷ escape (take len (drop offset bytes))) offset len
      (let fit : (offset + len) % 2 ^ 64 ≡ offset + len = omega arith in
        let size : offset + len - offset ≡ len = omega arith in ground (arith, fit, size))
      ((λ p. absurd (omega arith)), escape-Lacks _ (Bytes-take len _ (Bytes-drop offset bytes h)))

ask_last :
    (bytes : List ℕ) (offset len : ℕ)
    → Bytes bytes
    → length bytes + len < 2 ^ 64
    → offset ≤ length bytes
    → length bytes ≤ offset + len
    → ask bytes offset len ≡ some (b'l' ∷ escape (drop offset bytes))
unfolding xfer_payload escape
ask_last bytes offset len h fits inside last =
    ask_payload bytes (b'l' ∷ escape (drop offset bytes)) offset len
      (let fit : (offset + len) % 2 ^ 64 ≡ offset + len = omega arith in
        ground (arith, fit, drop_all offset bytes))
      ((λ p. absurd (omega arith)), escape-Lacks _ (Bytes-drop offset bytes h))

-- A client that asks for pieces of any size gets the bytes from `offset` on, with as many rounds as
-- there are bytes left and one more. (An object and a piece together are below 2 ^ 64.)
pub ask_all-drop :
    (rounds : ℕ) (bytes : List ℕ) (offset len : ℕ)
    → Bytes bytes
    → 0 < len
    → length bytes + len < 2 ^ 64
    → offset ≤ length bytes
    → length bytes - offset < rounds
    → ask_all rounds bytes offset len ≡ some (drop offset bytes)
unfolding ask_all
ask_all-drop zero bytes offset len h pos fits inside enough = absurd (omega arith)
ask_all-drop (suc rounds) bytes offset len h pos fits inside enough =
    let tail : List ℕ = drop offset bytes in
    let piece : List ℕ = take len tail in
    elim (dec_lt (offset + len) (length bytes)) [
      | yes more ↦
          let size : length piece ≡ len =
            length-take_of_le len tail (omega (arith, length-drop offset bytes)) in
          ground (
            arith,
            ask_piece bytes offset len h fits more,
            read_binary_data-escape piece (Bytes-take len tail (Bytes-drop offset bytes h)),
            size,
            ask_all-drop rounds bytes (offset + len) len h pos fits (omega arith) (omega arith),
            drop-add offset len bytes,
            take-append-drop len tail,
          )
      | no last ↦ ground (
        arith,
        ask_last bytes offset len h fits inside (omega arith),
        read_binary_data-escape tail (Bytes-drop offset bytes h),
      )
    ]
