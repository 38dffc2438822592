-- ===== src/FdTable/Disabled.antt =====
-- fd_table.rs: the two ways to write `syscallbuf_fds_disabled` agree.
use rd.Prelude.{ℕ, ◌-◌, ◌<◌, ltb, ◌==◌, ◌&&◌, ◌||◌, List, [], ◌∷◌, ◌≡◌, refl, arith}
use rd.FdTable.Table.{
  FdTable, limit, contains_key, is_monitoring, is_fd_monitored_in_any_task, adjusted_fd,
  update_syscallbuf_fds_disabled, has_place, init_syscallbuf_fds_disabled,
}
use rd.FdTable.Counted.{beyond, Counted}

-- Every table of a list keeps its count.
unfoldable pub AllCounted : List FdTable → Type 0
AllCounted [] = Unit
AllCounted (t ∷ tables) = Counted t × AllCounted tables

place-beyond :
    (place : ℕ) (fds : List (ℕ × ℕ))
    → place < limit
    → has_place place fds ≡ (contains_key place fds || ((place == limit - 1) && ltb 0 (beyond fds)))
unfolding has_place contains_key beyond adjusted_fd
place-beyond place [] h = ground arith
place-beyond place (e ∷ fds) h = ground (arith, place-beyond place fds h)

-- For tables that keep their counts, what update_syscallbuf_fds_disabled writes at the place of an fd is
-- what init_syscallbuf_fds_disabled would write there.
pub update-init :
    (tables : List FdTable) (fd : ℕ)
    → AllCounted tables
    → update_syscallbuf_fds_disabled tables fd
      ≡ init_syscallbuf_fds_disabled tables (adjusted_fd fd)
unfolding update_syscallbuf_fds_disabled is_fd_monitored_in_any_task init_syscallbuf_fds_disabled
    is_monitoring adjusted_fd AllCounted
update-init [] fd c = refl
update-init (t ∷ tables) fd (c, cs) =
    ground (arith, place-beyond (adjusted_fd fd) t.fds, update-init tables fd cs, c.0)
