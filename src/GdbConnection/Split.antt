-- ===== src/GdbConnection/Split.antt =====
-- gdb_connection.rs: a packet that arrives in two reads, with its `#` in the second one.
use rd.Prelude.{
  ℕ, ◌≡◌, refl, Bool, true, none, some, List, [], ◌∷◌, ◌++◌, length, drop, arith, ap, sym, ◌∙◌,
  length-append, drop-length,
}
use mathlib.Core.List.{append_assoc}
use rd.GdbConnection.ByteSearch.{
  Memchr, Lacks, Lacks-append, first_index, first_index-append, first_index-Lacks,
}
use rd.GdbConnection.State.{Connection}
use rd.GdbConnection.Read.{find_end, read_packet, check_packet, process_packet}
use rd.GdbConnection.Frame.{Noise, read_more, seek_next}

module _ (m : Memchr) where
  -- The search from `checkedlen` on reports a position in what it searched, not in the buffer.
  find_end_from :
      (chunks : List (List ℕ)) (checkedlen : ℕ) (c : Connection) (before after : List ℕ)
      → Lacks b'#' before
      → drop checkedlen c.inbuf ≡ before ++ b'#' ∷ after
      → find_end m chunks checkedlen c ≡ record c { packetend = length before }
  unfolding find_end
  find_end_from [] k c before after h e =
      ground (arith, m.memchr_lem b'#' (drop k c.inbuf), first_index-append b'#' before after h)
  find_end_from (chunk ∷ chunks) k c before after h e =
      ground (arith, m.memchr_lem b'#' (drop k c.inbuf), first_index-append b'#' before after h)

  -- The state after the two reads.
  abbrev both : Connection → List ℕ → List ℕ → List (List ℕ) → Connection
  both c first second chunks = record c {
    inbuf = (b'$' ∷ first) ++ second;
    packetend = c.packetend;
    incoming = chunks;
  }

  find_end_split :
      (c : Connection) (first second rest : List ℕ) (chunks : List (List ℕ))
      → c.connection_alive ≡ true
      → c.inbuf ≡ b'$' ∷ first
      → c.incoming ≡ (second ++ b'#' ∷ rest) ∷ chunks
      → Lacks b'#' first
      → Lacks b'#' second
      → find_end m c.incoming 0 c ≡ record c {
        inbuf = (b'$' ∷ first) ++ (second ++ b'#' ∷ rest);
        packetend = length second;
        incoming = chunks;
      }
  unfolding find_end
  find_end_split c first second rest chunks alive e more h k =
      let c1 : Connection = record c {
        inbuf = (b'$' ∷ first) ++ (second ++ b'#' ∷ rest);
        incoming = chunks;
      } in
      rw more (
        ground (
          arith,
          m.memchr_lem b'#' c.inbuf,
          first_index-Lacks b'#' (b'$' ∷ first) ((λ p. absurd (omega arith)), h),
          read_more second rest b'#' chunks c more,
          find_end_from chunks (length (b'$' ∷ first)) c1 second rest k
              (drop-length (b'$' ∷ first) (second ++ b'#' ∷ rest)),
        ))

  -- A packet whose `#` comes with the second read is not processed: `read_packet` succeeds and
  -- leaves in `packetend` the place of the `#` in the second read, where the assert at the head of
  -- `process_packet` compares it with its place in the buffer. So `process_packet` fails, whatever
  -- the handler of the requests. (The connection is in no-ack mode and its buffer is empty.)
  pub process_packet-split :
      (handle : ℕ → List ℕ → Connection → Connection × Bool) (c : Connection)
      (noise first second rest : List ℕ) (chunks : List (List ℕ))
      → c.connection_alive ≡ true
      → c.no_ack ≡ true
      → c.inbuf ≡ []
      → c.incoming ≡ (noise ++ b'$' ∷ first) ∷ (second ++ b'#' ∷ rest) ∷ chunks
      → Noise noise
      → Lacks b'#' first
      → Lacks b'#' second
      → (c' : Connection) × (read_packet m c ≡ some c')
        × (c'.packetend ≡ length second)
        × (process_packet m handle c' ≡ none)
  unfolding read_packet check_packet process_packet
  process_packet-split handle c noise first second rest chunks alive quick e more quiet h k =
      let c1 : Connection = record c {
        inbuf = b'$' ∷ first;
        incoming = (second ++ b'#' ∷ rest) ∷ chunks;
      } in
      let whole : List ℕ = (b'$' ∷ first) ++ (second ++ b'#' ∷ rest) in
      let c2 : Connection = record c {
        inbuf = whole;
        packetend = length second;
        incoming = chunks;
      } in
      let found : first_index b'#' whole ≡ some (length ((b'$' ∷ first) ++ second)) =
        ap (first_index b'#') (sym (append_assoc (b'$' ∷ first) second (b'#' ∷ rest)))
        ∙ first_index-append b'#' ((b'$' ∷ first) ++ second) rest
            ((λ p. absurd (omega arith)), Lacks-append b'#' first second h k) in
      (
        c2,
        ground (
          arith,
          seek_next ((second ++ b'#' ∷ rest) ∷ chunks) c noise first quiet e alive more,
          find_end_split c1 first second rest chunks alive refl refl h k,
          length-append first (second ++ b'#' ∷ rest),
          length-append second (b'#' ∷ rest),
        ),
        refl,
        ground (arith, m.memchr_lem b'#' whole, found, length-append first second),
      )
