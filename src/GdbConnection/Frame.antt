-- ===== src/GdbConnection/Frame.antt =====
-- gdb_connection.rs: a packet that arrives in one read is read back as it was framed.
use rd.Prelude.{
  ℕ, ◌+◌, ◌-◌, ◌≡◌, refl, true, some, List, [], ◌∷◌, ◌++◌, length, arith, ap, ◌∙◌, length-append,
  take-length,
}
use mathlib.Core.List.{append_assoc}
use rd.GdbConnection.ByteSearch.{Memchr, Lacks, first_index-append}
use rd.GdbConnection.State.{Connection, read_data_once}
use rd.GdbConnection.Write.{hex_byte, checksum, write_packet_bytes}
use rd.GdbConnection.Read.{
  packet_start, interrupt_char, seek, find_end, read_packet, check_packet, packet_payload,
}

-- The bytes of a packet.
unfoldable pub frame : List ℕ → List ℕ
frame payload = b'$' ∷ payload ++ (b'#' ∷ hex_byte (checksum payload))

pub outbuf-write_packet_bytes :
    (payload : List ℕ) (c : Connection)
    → (write_packet_bytes payload c).outbuf ≡ c.outbuf ++ frame payload
unfolding write_packet_bytes frame
outbuf-write_packet_bytes payload c = simp append_assoc

-- What stands before a packet that is skipped: acknowledgements, and the checksum of the last one.
abbrev pub Noise : List ℕ → Type 0
Noise bytes = Lacks b'$' bytes × Lacks interrupt_char bytes

packet_start-Noise :
    (noise rest : List ℕ) → Noise noise → packet_start (noise ++ b'$' ∷ rest) ≡ b'$' ∷ rest
unfolding packet_start
packet_start-Noise [] rest h = refl
packet_start-Noise (b ∷ bs) rest h = ground (arith, packet_start-Noise bs rest (h.0.1, h.1.1))

-- What `seek` stops at: the buffer holds a start already, or the next read brings it.
pub seek_here :
    (chunks : List (List ℕ)) (c : Connection) (noise rest : List ℕ)
    → Noise noise
    → c.inbuf ≡ noise ++ b'$' ∷ rest
    → seek chunks c ≡ record c { inbuf = b'$' ∷ rest }
unfolding seek
seek_here [] c noise rest h e = ground (arith, packet_start-Noise noise rest h)
seek_here (chunk ∷ chunks) c noise rest h e = ground (arith, packet_start-Noise noise rest h)

-- A read that brings something.
pub read_more :
    (bytes rest : List ℕ) (b : ℕ) (chunks : List (List ℕ)) (c : Connection)
    → c.incoming ≡ (bytes ++ b ∷ rest) ∷ chunks
    → read_data_once c ≡ record c { inbuf = c.inbuf ++ (bytes ++ b ∷ rest); incoming = chunks }
unfolding read_data_once
read_more [] rest b chunks c more = ground arith
read_more (x ∷ bytes) rest b chunks c more = ground arith

pub seek_next :
    (chunks : List (List ℕ)) (c : Connection) (noise rest : List ℕ)
    → Noise noise
    → c.inbuf ≡ []
    → c.connection_alive ≡ true
    → c.incoming ≡ (noise ++ b'$' ∷ rest) ∷ chunks
    → seek c.incoming c ≡ record c { inbuf = b'$' ∷ rest; incoming = chunks }
unfolding seek
seek_next chunks c noise rest h e alive more =
    let c1 : Connection = record c { inbuf = [] } in
    let c2 : Connection = record c { inbuf = noise ++ b'$' ∷ rest; incoming = chunks } in
    rw more (
      ground
        (arith, read_more noise rest b'$' chunks c1 more, seek_here chunks c2 noise rest h refl))

-- The packet, as the buffer has it, with what follows its `#`.
abbrev pub packet : ℕ → List ℕ → List ℕ → List ℕ
packet kind payload rest = b'$' ∷ kind ∷ payload ++ (b'#' ∷ rest)

-- The state after a packet has been read, with `chunks` still to come.
abbrev pub at_packet : Connection → ℕ → List ℕ → List ℕ → List (List ℕ) → Connection
at_packet c kind payload rest chunks = record c {
  inbuf = packet kind payload rest;
  packetend = length payload + 2;
  incoming = chunks;
}

pub packet_payload-packet :
    (c : Connection) (kind : ℕ) (payload rest : List ℕ) (chunks : List (List ℕ))
    → packet_payload (at_packet c kind payload rest chunks) ≡ some (kind, payload)
unfolding packet_payload
packet_payload-packet c kind payload rest chunks =
    let two : length payload + 2 - 2 ≡ length payload = omega arith in
    ground (arith, length-append payload (b'#' ∷ rest), take-length payload (b'#' ∷ rest), two)

module _ (m : Memchr) where
  -- With a `#` at hand the end is found in the first round, and the state is left otherwise.
  pub find_end_here :
      (chunks : List (List ℕ)) (c : Connection) (before after : List ℕ)
      → Lacks b'#' before
      → c.inbuf ≡ before ++ b'#' ∷ after
      → find_end m chunks 0 c ≡ record c { packetend = length before }
  unfolding find_end
  find_end_here [] c before after h e =
      ground (arith, m.memchr_lem b'#' c.inbuf, first_index-append b'#' before after h)
  find_end_here (chunk ∷ chunks) c before after h e =
      ground (arith, m.memchr_lem b'#' c.inbuf, first_index-append b'#' before after h)

  check_packet-packet :
      (c : Connection) (kind : ℕ) (payload rest : List ℕ) (chunks : List (List ℕ))
      → Lacks b'#' (kind ∷ payload)
      → check_packet m (at_packet c kind payload rest chunks) ≡ some tt
  unfolding check_packet
  check_packet-packet c kind payload rest chunks h = ground (
    arith,
    m.memchr_lem b'#' (packet kind payload rest),
    first_index-append b'#' (b'$' ∷ kind ∷ payload) rest ((λ p. absurd (omega arith)), h),
  )

  read_packet_whole :
      (c : Connection) (noise payload rest : List ℕ) (kind : ℕ) (chunks : List (List ℕ))
      → c.connection_alive ≡ true
      → c.no_ack ≡ true
      → c.inbuf ≡ []
      → c.incoming ≡ (noise ++ packet kind payload rest) ∷ chunks
      → Noise noise
      → Lacks b'#' (kind ∷ payload)
      → read_packet m c ≡ some (at_packet c kind payload rest chunks)
  unfolding read_packet
  read_packet_whole c noise payload rest kind chunks alive quick e more quiet h =
      let c1 : Connection = record c { inbuf = packet kind payload rest; incoming = chunks } in
      ground (
        arith,
        seek_next chunks c noise (kind ∷ payload ++ (b'#' ∷ rest)) quiet e alive more,
        find_end_here chunks c1 (b'$' ∷ kind ∷ payload) rest ((λ p. absurd (omega arith)), h) refl,
        length-append payload (b'#' ∷ rest),
      )

  -- A packet that `write_packet_bytes` made, and that arrives in one read, whatever noise stands
  -- before it and whatever comes after, is found by `read_packet`, passes the test of
  -- `process_packet`, and gives back its kind and its payload. (The connection is in no-ack mode and
  -- its buffer is empty; the contents have no `#`, the noise has no start of a packet.)
  pub read_packet-frame :
      (c w : Connection) (noise payload rest : List ℕ) (kind : ℕ) (chunks : List (List ℕ))
      → c.connection_alive ≡ true
      → c.no_ack ≡ true
      → c.inbuf ≡ []
      → w.outbuf ≡ []
      → c.incoming ≡ (noise ++ ((write_packet_bytes (kind ∷ payload) w).outbuf ++ rest)) ∷ chunks
      → Noise noise
      → Lacks b'#' (kind ∷ payload)
      → (c' : Connection) × (read_packet m c ≡ some c')
        × (check_packet m c' ≡ some tt)
        × (packet_payload c' ≡ some (kind, payload))
  unfolding frame
  read_packet-frame c w noise payload rest kind chunks alive quick e new more quiet h =
      let tail : List ℕ = hex_byte (checksum (kind ∷ payload)) ++ rest in
      let whole : (write_packet_bytes (kind ∷ payload) w).outbuf ++ rest
          ≡ packet kind payload tail =
        rw (outbuf-write_packet_bytes (kind ∷ payload) w, new) (simp append_assoc) in
      (
        at_packet c kind payload tail chunks,
        read_packet_whole c noise payload tail kind chunks alive quick e
            (more ∙ ap (λ l. (noise ++ l) ∷ chunks) whole) quiet h,
        check_packet-packet c kind payload tail chunks h,
        packet_payload-packet c kind payload tail chunks,
      )
