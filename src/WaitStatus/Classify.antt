-- ===== src/WaitStatus/Classify.antt =====
-- wait_status.rs: `wait_type` and the accessors against the layout of the status word.
use rd.Prelude.{
  ℕ, ◌/◌, ◌%◌, ◌^◌, ◌<◌, ◌≡◌, refl, true, ◌||◌, Option, none, some, bit_and, arith, ltb, ◌==◌,
  ==_iff, if◌then◌else◌,
}
use rd.Prelude.Bits.{bit_and-byte, holds_below, holds_below_lem}
use rd.Signal.{try_from_i32}
use rd.WaitStatus.Abi.{WaitAbi}
use rd.WaitStatus.Decode.{
  WaitType, WaitStatus, exit, fatal_signal, signal_stop, group_stop, syscall_stop, ptrace_event,
  event_bits, not_0x80, new_event, exit_code, fatal_sig, stop_signal, maybe_stop_sig,
  maybe_group_stop_sig, maybe_ptrace_event, is_syscall, wait_type,
}

-- The layout, byte by byte: the low byte tells exits, deaths and stops apart, the third byte is the
-- ptrace event of a stop, and the second one tells a system call from a signal.
unfoldable pub stop_kind : ℕ → ℕ → Option WaitType
stop_kind signal event =
    if event == 0
    then (if signal == 0x85 then some syscall_stop else some signal_stop)
    else if event == 128
    then some group_stop
    else some ptrace_event

unfoldable pub kind : ℕ → Option WaitType
kind status =
    let low = status % 128 in
    if low == 0
    then some exit
    else if ltb low 127
    then some fatal_signal
    else if status % 256 == 127
    then stop_kind (status / 256 % 256) (status / 65536 % 256)
    else if status / 65536 % 256 == 0 || status / 65536 % 256 == 128
    then none
    else some ptrace_event

clear_bit_table : holds_below 256 (λ x. bit_and x not_0x80 == x % 128) ≡ true
unfolding holds_below
clear_bit_table = refl

clear_bit : (x : ℕ) → x < 256 → bit_and x not_0x80 ≡ x % 128
clear_bit x h =
    (==_iff (bit_and x not_0x80) (x % 128)).0
      (holds_below_lem 256 (λ y. bit_and y not_0x80 == y % 128) x clear_bit_table h)

pub event_bits_value : (s : WaitStatus) → event_bits s ≡ s.status / 65536 % 256
event_bits_value s = bit_and-byte (s.status / 2 ^ 16)

module _ (abi : WaitAbi) where
  -- The signal of a stop: never absent.
  pub stop_signal_value :
      (sig : ℕ)
      → sig < 256
      → stop_signal abi sig ≡ some (record { raw = if sig % 128 == 0 then 19 else sig % 128 })
  unfolding stop_signal try_from_i32
  stop_signal_value sig h = ground (arith, clear_bit sig h, abi.sigstop_value)

  -- `wait_type` reads the status as the layout says, on every word, the ones that it refuses included.
  pub wait_type-eq-kind : (s : WaitStatus) → wait_type abi s ≡ kind s.status
  unfolding wait_type exit_code fatal_sig maybe_stop_sig maybe_group_stop_sig maybe_ptrace_event
      is_syscall new_event try_from_i32 kind stop_kind
  wait_type-eq-kind s = ground (
    arith,
    event_bits_value s,
    stop_signal_value (abi.wstopsig s.status),
    abi.wifexited_lem s.status,
    abi.wifsignaled_lem s.status,
    abi.wtermsig_lem s.status,
    abi.wifstopped_lem s.status,
    abi.wstopsig_lem s.status,
    abi.sigtrap_value,
    abi.ptrace_event_stop_value,
  )
