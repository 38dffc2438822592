-- ===== src/GdbConnection/State.antt =====
-- gdb_connection.rs: the buffers of a connection and the two ends of its socket.
-- A byte is a number below 256. What `read` and `write` of the socket return is not under the
-- program's control: it is given as the lists `incoming` and `accepts`, consumed in order.
use rd.Prelude.{ℕ, Bool, false, Option, none, some, List, [], ◌∷◌, ◌++◌, take, drop}

pub record Connection : Type 0 where
  pub inbuf : List ℕ
  pub packetend : ℕ
  pub outbuf : List ℕ
  pub connection_alive : Bool
  pub no_ack : Bool
  -- what each `read` will return; an empty one is the end of the stream or an error
  pub incoming : List (List ℕ)
  -- what each `write` will take; `none` is an error
  pub accepts : List (Option ℕ)
  -- the bytes that gdb has been sent
  pub sent : List ℕ

-- read_data_once. When nothing more comes, the stream has ended.
unfoldable pub read_data_once : Connection → Connection
read_data_once c = elim c.incoming [
  | [] ↦ record c { connection_alive = false }
  | chunk ∷ rest ↦ elim chunk [
    | [] ↦ record c { connection_alive = false; incoming = rest }
    | b ∷ bs ↦ record c { inbuf = c.inbuf ++ (b ∷ bs); incoming = rest }
  ]
]

unfoldable pub write_data_raw : List ℕ → Connection → Connection
write_data_raw bytes c = record c { outbuf = c.outbuf ++ bytes }

-- The loop of `write_flush`, over what each `write` takes; `unsent` is `outbuf[write_index..]`.
-- `write` takes no more than it is given. `none` when gdb stops reading: the program waits.
unfoldable pub flush_from : List (Option ℕ) → List ℕ → Connection → Option Connection
flush_from accepts [] c = some (record c { outbuf = []; accepts = accepts })
flush_from [] (b ∷ bs) c = none
flush_from (none ∷ accepts) (b ∷ bs) c =
    some (record c { connection_alive = false; outbuf = []; accepts = accepts })
flush_from (some n ∷ accepts) (b ∷ bs) c =
    flush_from accepts (drop n (b ∷ bs)) (record c { sent = c.sent ++ take n (b ∷ bs) })

unfoldable pub write_flush : Connection → Option Connection
write_flush c = flush_from c.accepts c.outbuf c
