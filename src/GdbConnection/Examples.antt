-- ===== src/GdbConnection/Examples.antt =====
-- Packets at work. `scan` shows that the interface of memchr can be met.
use rd.Prelude.{ℕ, ◌≡◌, refl, Bool, false, none, some, List, [], ◌∷◌, ◌++◌, length, arith}
use rd.GdbConnection.ByteSearch.{Memchr, first_index}
use rd.GdbConnection.State.{Connection, write_flush, flush_from}
use rd.GdbConnection.Write.{escape, write_packet_bytes}
use rd.GdbConnection.Read.{read_packet, check_packet, packet_payload, process_packet}
use rd.GdbConnection.Escape.{read_binary_data, read_binary_data-escape}
use rd.GdbConnection.Frame.{read_packet-frame}
use rd.GdbConnection.Split.{process_packet-split}
use rd.GdbConnection.Xfer.{fresh, ask_all, ask_all-drop}
use rd.GdbConnection.Flush.{write_flush-sent}

abbrev scan : Memchr
scan = record { memchr = first_index; memchr_lem = λ c bs. refl }

-- `a}#` in binary
read_binary_data-escape_example :
    read_binary_data (escape (b'a' ∷ b'}' ∷ b'#' ∷ [])) ≡ some (b'a' ∷ b'}' ∷ b'#' ∷ [])
read_binary_data-escape_example = read_binary_data-escape (b'a' ∷ b'}' ∷ b'#' ∷ []) (omega arith)

-- `g` after an acknowledgement
abbrev one_read : Connection
one_read = record fresh {
  incoming =
      (b'+' ∷ [] ++ ((write_packet_bytes (b'g' ∷ b'0' ∷ []) fresh).outbuf ++ b'+' ∷ [])) ∷ [];
}

read_packet-frame_example :
    (c' : Connection) × (read_packet scan one_read ≡ some c')
    × (check_packet scan c' ≡ some tt)
    × (packet_payload c' ≡ some (b'g', b'0' ∷ []))
read_packet-frame_example =
    read_packet-frame scan one_read fresh (b'+' ∷ []) (b'0' ∷ []) (b'+' ∷ []) b'g' [] refl refl refl
      refl refl (omega arith) (omega arith)

-- `$m0,4` and `#fd`
abbrev two_reads : Connection
two_reads = record fresh {
  incoming = ([] ++ b'$' ∷ b'm' ∷ b'0' ∷ b',' ∷ b'4' ∷ []) ∷ ([] ++ b'#' ∷ b'f' ∷ b'd' ∷ []) ∷ [];
}

abbrev ignore : ℕ → List ℕ → Connection → Connection × Bool
ignore kind payload c = (c, false)

process_packet-split_example :
    (c' : Connection) × (read_packet scan two_reads ≡ some c')
    × (c'.packetend ≡ length {A = ℕ} [])
    × (process_packet scan ignore c' ≡ none)
process_packet-split_example =
    process_packet-split scan ignore two_reads [] (b'm' ∷ b'0' ∷ b',' ∷ b'4' ∷ []) []
      (b'f' ∷ b'd' ∷ []) [] refl refl refl refl (omega arith) (omega arith) tt

ask_all-drop_example : ask_all 4 (b'a' ∷ b'#' ∷ b'c' ∷ []) 0 2 ≡ some (b'a' ∷ b'#' ∷ b'c' ∷ [])
ask_all-drop_example =
    ask_all-drop 4 (b'a' ∷ b'#' ∷ b'c' ∷ []) 0 2 (omega arith) (omega arith) (omega arith)
      (omega arith) (omega arith)

abbrev slow_writes : Connection
slow_writes = record fresh { outbuf = b'+' ∷ b'$' ∷ b'#' ∷ []; accepts = some 1 ∷ some 2 ∷ [] }

abbrev flushed : Connection
flushed = record fresh { sent = b'+' ∷ b'$' ∷ b'#' ∷ [] }

write_flush-sent_example :
    (flushed.sent ≡ slow_writes.sent ++ slow_writes.outbuf) × (flushed.outbuf ≡ [])
unfolding write_flush flush_from
write_flush-sent_example = write_flush-sent slow_writes flushed refl refl
