-- ===== src/GdbConnection/Read.antt =====
-- gdb_connection.rs: how a packet from gdb is found in the input.
use rd.Prelude.{
  ℕ, ◌+◌, ◌-◌, Bool, true, false, not, ◌||◌, Option, none, some, List, [], ◌∷◌, length, take, drop,
  get_elem?, ltb, ◌==◌, if◌then◌else◌,
}
use rd.GdbConnection.ByteSearch.{Memchr}
use rd.GdbConnection.State.{Connection, read_data_once, write_data_raw, write_flush}

-- INTERRUPT_CHAR
abbrev pub interrupt_char : ℕ
interrupt_char = 0x03

-- The bytes from the first `$` or interrupt on.
unfoldable pub packet_start : List ℕ → List ℕ
packet_start [] = []
packet_start (b ∷ bs) = if b == b'$' || b == interrupt_char then b ∷ bs else packet_start bs

abbrev pub is_empty {ℓ} : {A : Type ℓ} → List A → Bool
is_empty [] = true
is_empty (_ ∷ _) = false

-- With no start of a packet the buffer is cleared, which leaves nothing as well.
unfoldable pub skip_to_packet_start : Connection → Connection × Bool
unfolding packet_start
skip_to_packet_start c =
    let rest = packet_start c.inbuf in (record c { inbuf = rest }, not (is_empty rest))

-- The first loop of `read_packet`. The list is that of the reads to come, `c.incoming`: with each
-- round there is one less, and the one after the last ends the connection.
unfoldable pub seek : List (List ℕ) → Connection → Connection
unfolding skip_to_packet_start read_data_once
seek [] c =
    let (c1, found) = skip_to_packet_start c in
    if found || not c1.connection_alive then c1 else (skip_to_packet_start (read_data_once c1)).0
seek (chunk ∷ chunks) c =
    let (c1, found) = skip_to_packet_start c in
    let rest = seek chunks (read_data_once c1) in
    if found || not c1.connection_alive then c1 else rest

-- A request: its kind and its payload. `none` where the slice `inbuf[2..packetend]` is out of range.
unfoldable pub packet_payload : Connection → Option (ℕ × List ℕ)
packet_payload c = elim (get_elem? c.inbuf 1) [
  | none ↦ none
  | some kind ↦
      if ltb c.packetend 2 || ltb (length c.inbuf) c.packetend
      then none
      else some (kind, take (c.packetend - 2) (drop 2 c.inbuf))
]

-- The packet is erased, and its request consumed if no one has to answer it.
unfoldable pub erase_packet : Connection × Bool → Option (Connection × Bool)
unfolding write_flush
erase_packet (c, ret) =
    let c1 = record c { inbuf = drop (c.packetend + 1) c.inbuf } in
    if ret
    then some (c1, true)
    else elim (write_flush c1) [ none ↦ none | some c2 ↦ some (c2, false) ]

unfoldable pub dispatch_packet :
    (ℕ → List ℕ → Connection → Connection × Bool) → Connection → Option (Connection × Bool)
unfolding packet_payload erase_packet
dispatch_packet handle c = elim (packet_payload c) [
  | none ↦ none
  | some (kind, payload) ↦ erase_packet (handle kind payload c)
]

abbrev pub head_is : ℕ → List ℕ → Bool
head_is b [] = false
head_is b (x ∷ xs) = x == b

module _ (m : Memchr) where
  open m use {memchr}

  -- The second loop of `read_packet`. `packetend` is what `memchr` says of the bytes from
  -- `checkedlen` on.
  unfoldable pub find_end : List (List ℕ) → ℕ → Connection → Connection
  unfolding read_data_once
  find_end [] checkedlen c = elim (memchr b'#' (drop checkedlen c.inbuf)) [
    | some p ↦ record c { packetend = p }
    | none ↦ read_data_once c
  ]
  find_end (chunk ∷ chunks) checkedlen c = elim (memchr b'#' (drop checkedlen c.inbuf)) [
    | some p ↦ record c { packetend = p }
    | none ↦
        let c1 = read_data_once c in
        let rest = find_end chunks (length c.inbuf) c1 in
        if not c1.connection_alive then c1 else rest
  ]

  -- `none` is a failed assert, or a flush that waits for gdb.
  unfoldable pub acknowledge : Connection → Option Connection
  unfolding write_data_raw write_flush
  acknowledge c =
      if not (head_is b'$' c.inbuf) || not (ltb c.packetend (length c.inbuf))
      then none
      else if not c.no_ack
      then write_flush (write_data_raw (b'+' ∷ []) c)
      else some c

  unfoldable pub end_of_packet : Connection → Option Connection
  unfolding find_end acknowledge
  end_of_packet c =
      let c1 = find_end c.incoming 0 c in
      if not c1.connection_alive then some c1 else acknowledge c1

  unfoldable pub read_packet : Connection → Option Connection
  unfolding seek end_of_packet
  read_packet c =
      let c1 = seek c.incoming c in
      if not c1.connection_alive then some c1 else elim c1.inbuf [
        | [] ↦ none
        | b ∷ bs ↦
            if b == interrupt_char then some (record c1 { packetend = 1 }) else end_of_packet c1
      ]

  -- The test at the head of `process_packet`: `none` where `unwrap` or the assert fails.
  unfoldable pub check_packet : Connection → Option (Unit {0})
  check_packet c =
      if head_is interrupt_char c.inbuf
      then some tt
      else if not (head_is b'$' c.inbuf)
      then none
      else elim (memchr b'#' c.inbuf) [
        | none ↦ none
        | some p ↦ if p == c.packetend then some tt else none
      ]

  -- `handle` is the `match` on the request's kind, with its payload; it says whether the target has
  -- something to do. The interrupt and the bounds of the slices are the program's.
  unfoldable pub process_packet :
      (ℕ → List ℕ → Connection → Connection × Bool) → Connection → Option (Connection × Bool)
  unfolding check_packet dispatch_packet write_flush
  process_packet handle c = elim (check_packet c) [
    | none ↦ none
    | some _ ↦
        if head_is interrupt_char c.inbuf
        then some (record c { inbuf = drop 1 c.inbuf }, true)
        else dispatch_packet handle c
  ]
