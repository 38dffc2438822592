-- ===== src/FdTable/Counted.antt =====
-- fd_table.rs: what the comment on fd_count_beyond_limit says of it holds after every operation.
use rd.Prelude.{
  ℕ, ◌+◌, leb, ◌==◌, if◌then◌else◌, Bool, Bool-cases, Option-cases, true, false, not, ◌&&◌, List,
  [], ◌∷◌, Option, none, some, ◌≡◌, refl, sym, ap, ◌∙◌, arith, inl, inr, ◌⊎◌,
}
use rd.FdTable.Table.{
  FdTable, limit, get, contains_key, remove, insert, is_monitoring, count_more, count_less,
  add_monitor, did_dup, did_close, clone_into_task, closed_fds, close_after_exec,
  fds_to_close_after_exec,
}

-- How many entries are beyond the limit.
unfoldable pub beyond : List (ℕ × ℕ) → ℕ
beyond [] = 0
beyond (e ∷ fds) = (if leb limit e.0 then 1 else 0) + beyond fds

-- No fd has two entries.
unfoldable pub Distinct : List (ℕ × ℕ) → Type 0
Distinct [] = Unit
Distinct (e ∷ fds) = (contains_key e.0 fds ≡ false) × Distinct fds

abbrev pub Counted : FdTable → Type 0
Counted t = (t.fd_count_beyond_limit ≡ beyond t.fds) × Distinct t.fds

contains_key-remove :
    (fd x : ℕ) (fds : List (ℕ × ℕ))
    → contains_key x (remove fd fds) ≡ (not (fd == x) && contains_key x fds)
unfolding contains_key remove
contains_key-remove fd x [] = ground arith
contains_key-remove fd x (e ∷ fds) = ground (arith, contains_key-remove fd x fds)

Distinct-remove : (fd : ℕ) (fds : List (ℕ × ℕ)) → Distinct fds → Distinct (remove fd fds)
unfolding Distinct remove
Distinct-remove fd [] d = d
Distinct-remove fd (e ∷ fds) d = elim (Bool-cases (e.0 == fd)) [
  | inl same ↦ rw (same, Distinct, remove) (Distinct-remove fd fds d.1)
  | inr ne ↦
      rw (ne, Distinct, remove)
        (ground (arith, contains_key-remove fd e.0 fds, d.0), Distinct-remove fd fds d.1)
]

remove_absent : (fd : ℕ) (fds : List (ℕ × ℕ)) → contains_key fd fds ≡ false → remove fd fds ≡ fds
unfolding contains_key remove
remove_absent fd [] h = refl
remove_absent fd (e ∷ fds) h = ground (arith, h, remove_absent fd fds)

beyond-remove :
    (fd : ℕ) (fds : List (ℕ × ℕ))
    → Distinct fds
    → beyond (remove fd fds) + (if leb limit fd && contains_key fd fds then 1 else 0) ≡ beyond fds
unfolding beyond remove Distinct contains_key
beyond-remove fd [] d = ground arith
beyond-remove fd (e ∷ fds) d = elim (Bool-cases (e.0 == fd)) [
  | inl same ↦
      let eq_fd : e.0 ≡ fd = ground (arith, same) in
      let gone : contains_key fd fds ≡ false = ap (λ x. contains_key x fds) (sym eq_fd) ∙ d.0 in
      ground
        (arith, same, gone, eq_fd, remove_absent fd fds gone, ap beyond (remove_absent fd fds gone))
  | inr ne ↦ ground (arith, ne, beyond-remove fd fds d.1)
]

insert-Counted :
    (fd monitor : ℕ) (t : FdTable)
    → Counted t
    → Counted (record { fds = insert fd monitor t.fds; fd_count_beyond_limit = count_more fd t })
unfolding insert count_more beyond Distinct
insert-Counted fd monitor t (c, d) = (
  ground (arith, beyond-remove fd t.fds d, c),
  (ground (arith, contains_key-remove fd fd t.fds), Distinct-remove fd t.fds d),
)

-- Closing an fd never takes the count below 0.
did_close-Counted :
    (fd : ℕ) (t : FdTable) → Counted t → (t' : FdTable) × (did_close fd t ≡ some t') × Counted t'
unfolding did_close count_less
did_close-Counted fd t (c, d) = (
  record { fds = remove fd t.fds; fd_count_beyond_limit = beyond (remove fd t.fds) },
  ground (arith, beyond-remove fd t.fds d, c),
  (refl, Distinct-remove fd t.fds d),
)

did_dup-Counted :
    (from to : ℕ) (t : FdTable)
    → Counted t
    → (t' : FdTable) × (did_dup from to t ≡ some t') × Counted t'
unfolding did_dup
did_dup-Counted from to t c = elim (Option-cases (get from t.fds)) [
  | inr (monitor, e) ↦ (
    record { fds = insert to monitor t.fds; fd_count_beyond_limit = count_more to t },
    rw (e, did_dup) refl,
    insert-Counted to monitor t c,
  )
  | inl e ↦ let (t', ran, c') = did_close-Counted to t c in (t', rw (e, did_dup) ran, c')
]

close_after_exec-Counted :
    (fds_to_close : List ℕ) (t : FdTable)
    → Counted t
    → (t' : FdTable) × (close_after_exec fds_to_close t ≡ some t') × Counted t'
unfolding close_after_exec
close_after_exec-Counted [] t c = (t, refl, c)
close_after_exec-Counted (fd ∷ rest) t c =
    let (t1, ran, c1) = did_close-Counted fd t c in
    let (t2, went, c2) = close_after_exec-Counted rest t1 c1 in
    (t2, rw (ran, close_after_exec) went, c2)

-- An operation on a table, with its arguments.
pub data Operation : Type 0 where
  monitors : (fd monitor : ℕ) → Operation
  dups : (from to : ℕ) → Operation
  closes : (fd : ℕ) → Operation
  clones : Operation
  execs : (is_fd_open : ℕ → Bool) → Operation
  replays_exec : (fds_to_close : List ℕ) → Operation

unfoldable pub second : Option (List ℕ × FdTable) → Option FdTable
second none = none
second (some a) = some a.1

unfoldable pub operate : Operation → FdTable → Option FdTable
operate (monitors fd monitor) t = add_monitor fd monitor t
operate (dups from to) t = did_dup from to t
operate (closes fd) t = did_close fd t
operate clones t = some (clone_into_task t)
operate (execs is_fd_open) t = second (fds_to_close_after_exec is_fd_open t)
operate (replays_exec fds_to_close) t = close_after_exec fds_to_close t

-- Every operation keeps the count equal to the number of entries beyond the limit, with one entry for an
-- fd, and never takes it below 0; it fails only when an fd that is monitored is given a monitor again.
pub operate-Counted :
    (o : Operation) (t : FdTable)
    → Counted t
    → ((t' : FdTable) × (operate o t ≡ some t') × Counted t')
      ⊎ ((fd : ℕ) × (monitor : ℕ) × (o ≡ monitors fd monitor) × (is_monitoring fd t ≡ true))
unfolding operate add_monitor second fds_to_close_after_exec clone_into_task
operate-Counted (monitors fd monitor) t c = elim (Bool-cases (is_monitoring fd t)) [
  | inl e ↦ inr (fd, monitor, refl, e)
  | inr e ↦ inl (_, rw (e, add_monitor) refl, insert-Counted fd monitor t c)
]
operate-Counted (dups from to) t c = inl (did_dup-Counted from to t c)
operate-Counted (closes fd) t c = inl (did_close-Counted fd t c)
operate-Counted clones t c = inl (t, refl, c)
operate-Counted (execs is_fd_open) t c =
    let (t', ran, c') = close_after_exec-Counted (closed_fds is_fd_open t.fds) t c in
    inl (t', rw (ran, operate, fds_to_close_after_exec) refl, c')
operate-Counted (replays_exec fds_to_close) t c = inl (close_after_exec-Counted fds_to_close t c)
