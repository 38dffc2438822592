-- ===== src/FdTable/Table.antt =====
-- fd_table.rs: the table and its operations. A monitor is a number that stands for its shared pointer;
-- the HashMap is a list of entries. `none` is a failed assertion, or a count below 0.
use rd.Prelude.{
  ℕ, ◌+◌, ◌-◌, leb, ◌==◌, if◌then◌else◌, Bool, false, not, ◌&&◌, ◌||◌, ltb, List, [], ◌∷◌, Option,
  none, some,
}

-- SYSCALLBUF_FDS_DISABLED_SIZE
abbrev pub limit : ℕ
limit = 1024

pub record FdTable : Type 0 where
  pub fds : List (ℕ × ℕ)
  pub fd_count_beyond_limit : ℕ

-- HashMap::get, contains_key, remove, insert
unfoldable pub get : ℕ → List (ℕ × ℕ) → Option ℕ
get fd [] = none
get fd (e ∷ fds) = if e.0 == fd then some e.1 else get fd fds

unfoldable pub contains_key : ℕ → List (ℕ × ℕ) → Bool
contains_key fd [] = false
contains_key fd (e ∷ fds) = (e.0 == fd) || contains_key fd fds

unfoldable pub remove : ℕ → List (ℕ × ℕ) → List (ℕ × ℕ)
remove fd [] = []
remove fd (e ∷ fds) = let rest = remove fd fds in if e.0 == fd then rest else e ∷ rest

unfoldable pub insert : ℕ → ℕ → List (ℕ × ℕ) → List (ℕ × ℕ)
insert fd monitor fds = (fd, monitor) ∷ remove fd fds

unfoldable pub create : FdTable
create = record { fds = []; fd_count_beyond_limit = 0 }

unfoldable pub is_monitoring : ℕ → FdTable → Bool
is_monitoring fd t = contains_key fd t.fds

unfoldable pub get_monitor : ℕ → FdTable → Option ℕ
get_monitor fd t = get fd t.fds

-- The count, one more when fd is beyond the limit and not in the table yet.
unfoldable pub count_more : ℕ → FdTable → ℕ
count_more fd t =
    if leb limit fd && not (contains_key fd t.fds)
    then t.fd_count_beyond_limit + 1
    else t.fd_count_beyond_limit

-- The count, one less when fd is beyond the limit and in the table.
unfoldable pub count_less : ℕ → FdTable → Option ℕ
count_less fd t =
    if leb limit fd && contains_key fd t.fds
    then (if t.fd_count_beyond_limit == 0 then none else some (t.fd_count_beyond_limit - 1))
    else some t.fd_count_beyond_limit

unfoldable pub add_monitor : ℕ → ℕ → FdTable → Option FdTable
add_monitor fd monitor t =
    if is_monitoring fd t
    then none
    else some (record { fds = insert fd monitor t.fds; fd_count_beyond_limit = count_more fd t })

unfoldable pub did_close : ℕ → FdTable → Option FdTable
did_close fd t = elim (count_less fd t) [
  | none ↦ none
  | some count ↦ some (record { fds = remove fd t.fds; fd_count_beyond_limit = count })
]

unfoldable pub did_dup : ℕ → ℕ → FdTable → Option FdTable
did_dup from to t = elim (get from t.fds) [
  | some monitor ↦
      some (record { fds = insert to monitor t.fds; fd_count_beyond_limit = count_more to t })
  | none ↦ did_close to t
]

-- clone_into_task: the table of the new task
unfoldable pub clone_into_task : FdTable → FdTable
clone_into_task t = record { fds = t.fds; fd_count_beyond_limit = t.fd_count_beyond_limit }

-- The fds of the table that are no longer open.
unfoldable pub closed_fds : (ℕ → Bool) → List (ℕ × ℕ) → List ℕ
closed_fds is_fd_open [] = []
closed_fds is_fd_open (e ∷ fds) =
    let rest = closed_fds is_fd_open fds in if is_fd_open e.0 then rest else e.0 ∷ rest

unfoldable pub close_after_exec : List ℕ → FdTable → Option FdTable
close_after_exec [] t = some t
close_after_exec (fd ∷ fds_to_close) t = elim (did_close fd t) [
  | none ↦ none
  | some t' ↦ close_after_exec fds_to_close t'
]

unfoldable pub fds_to_close_after_exec : (ℕ → Bool) → FdTable → Option (List ℕ × FdTable)
fds_to_close_after_exec is_fd_open t =
    let fds_to_close = closed_fds is_fd_open t.fds in
    elim (close_after_exec fds_to_close t) [ none ↦ none | some t' ↦ some (fds_to_close, t') ]

-- is_fd_monitored_in_any_task, for the tables of the tasks of an address space
unfoldable pub is_fd_monitored_in_any_task : List FdTable → ℕ → Bool
is_fd_monitored_in_any_task [] fd = false
is_fd_monitored_in_any_task (t ∷ tables) fd =
    is_monitoring fd t
    || (leb (limit - 1) fd && ltb 0 t.fd_count_beyond_limit)
    || is_fd_monitored_in_any_task tables fd

-- An fd beyond the limit shares the last place of `syscallbuf_fds_disabled`.
unfoldable pub adjusted_fd : ℕ → ℕ
adjusted_fd fd = if leb limit fd then limit - 1 else fd

-- What update_syscallbuf_fds_disabled writes at the place of fd.
unfoldable pub update_syscallbuf_fds_disabled : List FdTable → ℕ → Bool
update_syscallbuf_fds_disabled tables fd = is_fd_monitored_in_any_task tables (adjusted_fd fd)

-- What init_syscallbuf_fds_disabled writes at a place: whether one of the tables has an fd there.
unfoldable pub has_place : ℕ → List (ℕ × ℕ) → Bool
has_place place [] = false
has_place place (e ∷ fds) = (adjusted_fd e.0 == place) || has_place place fds

unfoldable pub init_syscallbuf_fds_disabled : List FdTable → ℕ → Bool
init_syscallbuf_fds_disabled [] place = false
init_syscallbuf_fds_disabled (t ∷ tables) place =
    has_place place t.fds || init_syscallbuf_fds_disabled tables place
