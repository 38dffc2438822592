-- ===== src/GdbConnection/Flush.antt =====
-- gdb_connection.rs: what gdb has received when `write_flush` returns.
use rd.Prelude.{
  ℕ, ◌≡◌, ◌∙◌, ap, true, Option, none, some, List, [], ◌∷◌, ◌++◌, take, drop, arith,
  take-append-drop,
}
use mathlib.Core.List.{append_assoc, append-nil}
use rd.GdbConnection.State.{Connection, write_flush, flush_from}

flush_from-sent :
    (accepts : List (Option ℕ)) (unsent : List ℕ) (c c' : Connection)
    → flush_from accepts unsent c ≡ some c'
    → c'.connection_alive ≡ true
    → (c'.sent ≡ c.sent ++ unsent) × (c'.outbuf ≡ [])
unfolding flush_from
flush_from-sent [] [] c c' e alive = ground (arith, append-nil c.sent)
flush_from-sent (a ∷ accepts) [] c c' e alive = ground (arith, append-nil c.sent)
flush_from-sent [] (b ∷ bs) c c' e alive = cc
flush_from-sent (none ∷ accepts) (b ∷ bs) c c' e alive = ground arith
flush_from-sent (some n ∷ accepts) (b ∷ bs) c c' e alive =
    let c1 : Connection = record c { sent = c.sent ++ take n (b ∷ bs) } in
    let ih = flush_from-sent accepts (drop n (b ∷ bs)) c1 c' e alive in
    (
      ih.0
          ∙ (append_assoc c.sent (take n (b ∷ bs)) (drop n (b ∷ bs))
              ∙ ap (λ l. c.sent ++ l) (take-append-drop n (b ∷ bs))),
      ih.1,
    )

-- When `write_flush` returns on a connection that is still alive, gdb has received all of `outbuf`,
-- once and in order, however many bytes each `write` took, and `outbuf` is empty.
pub write_flush-sent :
    (c c' : Connection)
    → write_flush c ≡ some c'
    → c'.connection_alive ≡ true
    → (c'.sent ≡ c.sent ++ c.outbuf) × (c'.outbuf ≡ [])
unfolding write_flush
write_flush-sent c c' e alive = flush_from-sent c.accepts c.outbuf c c' e alive
