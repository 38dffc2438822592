-- ===== src/Watchpoints/Examples.antt =====
-- session/address_space.rs: a watch of five bytes that are not aligned.
use rd.Prelude.{◌+◌, ◌≡◌, ◌≤◌, none, some, List, [], ◌∷◌, arith, length, refl, subst, sym}
use rd.MemoryRange.{MemoryRange}
use rd.Watchpoints.Split.{split_range, try_split_unaligned_range}
use rd.Watchpoints.Registers.{watch_write, configure_watch_registers}
use rd.Watchpoints.Covered.{Covers, configs, numbers, configure_watch_registers-Covers}

abbrev watched : MemoryRange
watched = record { start = 4097; end = 4102 }

abbrev own_pieces : List MemoryRange
own_pieces =
    record { start = 4097; end = 4098 }
    ∷ record { start = 4098; end = 4100 }
    ∷ record { start = 4100; end = 4102 }
    ∷ []

watched-split : split_range watched ≡ some own_pieces
unfolding split_range try_split_unaligned_range
watched-split = refl

few_pieces :
    (own : List MemoryRange)
    → split_range watched ≡ some own
    → length {A = MemoryRange} [] + length own ≤ 256
few_pieces own h =
    let split = watched-split in
    let same : own ≡ own_pieces = cc in
    subst (λ (ps : List MemoryRange). length {A = MemoryRange} [] + length ps ≤ 256) (sym same)
      (omega arith)

configure_watch_registers-Covers_example :
    (pieces : List MemoryRange) × Covers watched watch_write pieces
    × (configure_watch_registers [] watched watch_write none
        ≡ some (configs watch_write pieces, none))
    × (configure_watch_registers [] watched watch_write (some (7 ∷ []))
        ≡ some (configs watch_write pieces, some (7 ∷ numbers 0 pieces)))
configure_watch_registers-Covers_example =
    configure_watch_registers-Covers [] watched watch_write (7 ∷ []) (omega arith) (omega arith)
      few_pieces
