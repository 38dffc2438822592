-- ===== src/FdTable/Lookup.antt =====
-- fd_table.rs: what a table has after each operation.
use rd.Prelude.{
  ℕ, ◌==◌, if◌then◌else◌, Option-cases, List, [], ◌∷◌, none, some, ◌≡◌, arith, inl, inr,
}
use rd.FdTable.Table.{FdTable, get, remove, insert, get_monitor, did_dup, did_close}

pub get-remove :
    (fd x : ℕ) (fds : List (ℕ × ℕ)) → get x (remove fd fds) ≡ (if fd == x then none else get x fds)
unfolding get remove
get-remove fd x [] = ground arith
get-remove fd x (e ∷ fds) = ground (arith, get-remove fd x fds)

pub get-insert :
    (fd monitor x : ℕ) (fds : List (ℕ × ℕ))
    → get x (insert fd monitor fds) ≡ (if fd == x then some monitor else get x fds)
unfolding get insert
get-insert fd monitor x fds = ground (arith, get-remove fd x fds)

-- After fd `from` was duplicated to `to`, `to` has the monitor that `from` has, or none like it, and all
-- others have what they had.
pub did_dup-get_monitor :
    (from to x : ℕ) (t t' : FdTable)
    → did_dup from to t ≡ some t'
    → get_monitor x t' ≡ (if to == x then get_monitor from t else get_monitor x t)
unfolding did_dup did_close get_monitor
did_dup-get_monitor from to x t t' e = elim (Option-cases (get from t.fds)) [
  | inr (monitor, h) ↦ ground (arith, e, h, get-insert to monitor x t.fds)
  | inl h ↦ ground (arith, e, h, get-remove to x t.fds)
]
