-- ===== src/FdTable/Examples.antt =====
-- fd_table.rs: a table with an fd beyond the limit.
use rd.Prelude.{ℕ, true, [], ◌∷◌, some, ◌≡◌, refl, ◌⊎◌}
use rd.FdTable.Table.{
  FdTable, contains_key, is_monitoring, adjusted_fd, update_syscallbuf_fds_disabled,
  init_syscallbuf_fds_disabled,
}
use rd.FdTable.Counted.{beyond, Distinct, Counted, monitors, dups, operate, operate-Counted}
use rd.FdTable.Disabled.{AllCounted, update-init}

abbrev table : FdTable
table = record { fds = (3, 10) ∷ (2000, 11) ∷ []; fd_count_beyond_limit = 1 }

abbrev table_after : FdTable
table_after = record { fds = (1500, 10) ∷ (3, 10) ∷ (2000, 11) ∷ []; fd_count_beyond_limit = 2 }

table-Counted : Counted table
unfolding beyond Distinct contains_key
table-Counted = (refl, (refl, (refl, tt)))

operate-Counted_example :
    ((t' : FdTable) × (operate (dups 3 1500) table ≡ some t') × Counted t')
    ⊎ ((fd : ℕ) × (monitor : ℕ) × (dups 3 1500 ≡ monitors fd monitor)
        × (is_monitoring fd table ≡ true))
operate-Counted_example = operate-Counted (dups 3 1500) table table-Counted

update-init_example :
    update_syscallbuf_fds_disabled (table ∷ []) 1023
    ≡ init_syscallbuf_fds_disabled (table ∷ []) (adjusted_fd 1023)
unfolding AllCounted
update-init_example = update-init (table ∷ []) 1023 (table-Counted, tt)
