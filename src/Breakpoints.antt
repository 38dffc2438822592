-- ===== src/Breakpoints.antt =====
-- session/address_space.rs: the breakpoints of an address space, with their counts and the bytes that
-- they overwrote. `none` is a panic.
--
-- The memory of the tracees, which the tasks read and write through /proc/pid/mem or ptrace, is a
-- parameter: a type with a read and a write of one byte.
pub mod Table
pub mod Counts
pub mod Represents
pub mod Counted
pub mod Sequence
mod Examples
use rd.Prelude.{
  ℕ, zero, suc, ◌+◌, ◌-◌, ◌^◌, ◌≡◌, Bool, true, false, Option, none, some, List, [], ◌∷◌, ltb, ◌==◌,
  if◌then◌else◌, min, max, leb, ◌&&◌, length, not,
}
use rd.RemotePtr.{ptr_add}
use rd.Prelude.Options.{◌>>=◌, ◌>>◌, assert}

pub data BreakpointType : Type 0 where
  bkpt_none : BreakpointType
  bkpt_internal : BreakpointType
  bkpt_user : BreakpointType

pub record Breakpoint : Type 0 where
  pub internal_count : ℕ
  pub user_count : ℕ
  pub overwritten_data : ℕ

-- `Breakpoint::new`
unfoldable pub new_breakpoint : ℕ → Breakpoint
new_breakpoint overwritten_data = record {
  internal_count = 0;
  user_count = 0;
  overwritten_data = overwritten_data;
}

-- `do_ref`; `none` when the addition overflows
unfoldable pub do_ref : BreakpointType → Breakpoint → Option Breakpoint
do_ref bkpt_user bp = do
  assert (ltb (bp.user_count + 1) (2 ^ 32))
  some (record bp { user_count = bp.user_count + 1 })
do_ref _ bp = do
  assert (ltb (bp.internal_count + 1) (2 ^ 32))
  some (record bp { internal_count = bp.internal_count + 1 })

-- `do_unref`, with the sum of the counts that is left; `none` when a subtraction or the sum overflows
unfoldable pub do_unref : BreakpointType → Breakpoint → Option (Breakpoint × ℕ)
do_unref bkpt_user bp = do
  assert (ltb 0 bp.user_count)
  let sum : ℕ = bp.internal_count + (bp.user_count - 1)
  assert (ltb sum (2 ^ 32))
  some (record bp { user_count = bp.user_count - 1 }, sum)
do_unref _ bp = do
  assert (ltb 0 bp.internal_count)
  let sum : ℕ = bp.internal_count - 1 + bp.user_count
  assert (ltb sum (2 ^ 32))
  some (record bp { internal_count = bp.internal_count - 1 }, sum)

unfoldable pub bp_type : Breakpoint → BreakpointType
bp_type bp = if ltb 0 bp.user_count then bkpt_user else bkpt_internal

abbrev pub breakpoint_insn : ℕ
breakpoint_insn = 0xcc

-- The HashMap, whose order says nothing.
abbrev pub BreakpointMap : Type 0
BreakpointMap = List (ℕ × Breakpoint)

unfoldable pub get : ℕ → BreakpointMap → Option Breakpoint
get addr [] = none
get addr ((k, bp) ∷ bps) = if k == addr then some bp else get addr bps

unfoldable pub insert : ℕ → Breakpoint → BreakpointMap → BreakpointMap
insert addr bp [] = (addr, bp) ∷ []
insert addr bp ((k, old) ∷ bps) = if k == addr then (k, bp) ∷ bps else (k, old) ∷ insert addr bp bps

unfoldable pub remove : ℕ → BreakpointMap → BreakpointMap
remove addr [] = []
remove addr ((k, bp) ∷ bps) = if k == addr then bps else (k, bp) ∷ remove addr bps

-- Reads and writes of one byte of a tracee. A byte that can be read can be written, and a write
-- changes that byte only.
pub record Tracee : Type 1 where
  pub Memory : Type 0
  pub read : Memory → ℕ → Option ℕ
  pub write : Memory → ℕ → ℕ → Option Memory
  pub write_total :
      (m : Memory) (a v : ℕ) {old : ℕ}
      → read m a ≡ some old
      → (m' : Memory) × (write m a v ≡ some m')
  pub read-write :
      (m m' : Memory) (a v b : ℕ)
      → write m a v ≡ some m'
      → read m' b ≡ (if a == b then some v else read m b)

module _ (tracee : Tracee) where
  open tracee use {Memory, read, write}

  pub record Space : Type 0 where
    pub has_task : Bool
    pub breakpoints : BreakpointMap
    pub memory : Memory

  unfoldable pub get_breakpoint_type_at_addr : ℕ → Space → BreakpointType
  unfolding get bp_type
  get_breakpoint_type_at_addr addr s = elim (get addr s.breakpoints) [
    | none ↦ bkpt_none
    | some bp ↦ bp_type bp
  ]

  -- The address before `ip`; `none` when the subtraction overflows.
  unfoldable pub get_breakpoint_type_for_retired_insn : ℕ → Space → Option BreakpointType
  unfolding get_breakpoint_type_at_addr
  get_breakpoint_type_for_retired_insn ip s = do
    assert (ltb 0 ip)
    some (get_breakpoint_type_at_addr (ip - 1) s)

  -- `add_breakpoint` where there is none yet
  add_new : ℕ → BreakpointType → Space → Option (Bool × Space)
  add_new addr type s = elim (read s.memory addr) [
    | none ↦ some (false, s)
    | some overwritten_data ↦ (do
      memory ← write s.memory addr breakpoint_insn
      bp ← do_ref type (new_breakpoint overwritten_data)
      some (true, record s { memory = memory; breakpoints = insert addr bp s.breakpoints }))
  ]

  unfoldable pub add_breakpoint : ℕ → BreakpointType → Space → Option (Bool × Space)
  unfolding add_new
  add_breakpoint addr type s = elim (get addr s.breakpoints) [
    | some bp ↦ (do
      bp' ← do_ref type bp
      some (true, record s { breakpoints = insert addr bp' s.breakpoints }))
    | none ↦ (assert s.has_task >> add_new addr type s)
  ]

  unfoldable pub destroy_breakpoint_at : ℕ → Space → Option Space
  destroy_breakpoint_at addr s = if not s.has_task then some s else (do
    bp ← get addr s.breakpoints
    memory ← write s.memory addr bp.overwritten_data
    some (record s { memory = memory; breakpoints = remove addr s.breakpoints }))

  unfoldable pub remove_breakpoint : ℕ → BreakpointType → Space → Option Space
  remove_breakpoint addr type s = elim (get addr s.breakpoints) [
    | none ↦ some s
    | some bp ↦ (do
      unref ← do_unref type bp
      let s' : Space = record s { breakpoints = insert addr unref.0 s.breakpoints }
      if unref.1 == 0 then destroy_breakpoint_at addr s' else some s')
  ]

  destroy_all : BreakpointMap → Space → Option Space
  destroy_all [] s = some s
  destroy_all ((k, _) ∷ bps) s = do s' ← destroy_breakpoint_at k s; destroy_all bps s'

  unfoldable pub remove_all_breakpoints : Space → Option Space
  unfolding destroy_all
  remove_all_breakpoints s = destroy_all s.breakpoints s

  unfoldable pub suspend_breakpoint_at : ℕ → Space → Option Space
  suspend_breakpoint_at addr s = elim (get addr s.breakpoints) [
    | none ↦ some s
    | some bp ↦ (do
      assert s.has_task
      memory ← write s.memory addr bp.overwritten_data
      some (record s { memory = memory }))
  ]

  unfoldable pub restore_breakpoint_at : ℕ → Space → Option Space
  restore_breakpoint_at addr s = elim (get addr s.breakpoints) [
    | none ↦ some s
    | some bp ↦ (do
      assert s.has_task
      memory ← write s.memory addr breakpoint_insn
      some (record s { memory = memory }))
  ]

-- A slice with one byte replaced; an index past its end panics.
abbrev pub set_byte : List ℕ → ℕ → ℕ → List ℕ
set_byte [] i v = []
set_byte (x ∷ xs) zero v = v ∷ xs
set_byte (x ∷ xs) (suc i) v = x ∷ set_byte xs i v

-- One breakpoint has one byte.
unfoldable pub replace_one : ℕ → ℕ → Breakpoint → List ℕ → List ℕ
replace_one addr bkpt_location v dest =
    let start = max addr bkpt_location in
    let end = min (ptr_add addr (length dest)) (ptr_add bkpt_location 1) in
    if ltb start end then set_byte dest (start - addr) v.overwritten_data else dest

unfoldable pub replace_breakpoints_with_original_values : BreakpointMap → ℕ → List ℕ → List ℕ
unfolding replace_one
replace_breakpoints_with_original_values [] addr dest = dest
replace_breakpoints_with_original_values ((k, v) ∷ bps) addr dest =
    replace_breakpoints_with_original_values bps addr (replace_one addr k v dest)
