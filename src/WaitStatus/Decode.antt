-- ===== src/WaitStatus/Decode.antt =====
-- wait_status.rs: the types, the constructors of a status and the tests on one.
use rd.Prelude.{
  ℕ, ◌*◌, ◌/◌, ◌%◌, ◌^◌, Bool, true, false, not, ◌||◌, Option, none, some, bit_and, bit_or, ltb,
  ◌==◌, if◌then◌else◌,
}
use rd.Signal.{Sig, try_from_i32}
use rd.WaitStatus.Abi.{WaitAbi}

pub data WaitType : Type 0 where
  exit fatal_signal signal_stop group_stop syscall_stop ptrace_event : WaitType

pub record WaitStatus : Type 0 where
  pub status : ℕ

-- struct MaybePtraceEvent(Option<NonZeroU8>), struct MaybeStopSignal(Option<Sig>)
abbrev pub MaybePtraceEvent : Type 0
MaybePtraceEvent = Option ℕ

abbrev pub MaybeStopSignal : Type 0
MaybeStopSignal = Option Sig

abbrev pub is_some {ℓ} : {A : Type ℓ} → Option A → Bool
is_some none = false
is_some (some _) = true

unfoldable pub new_event : ℕ → MaybePtraceEvent
new_event val = if val == 0 || ltb 0xff val then none else some val

abbrev pub new_sig : ℕ → MaybeStopSignal
new_sig sig = try_from_i32 sig

-- (status >> 16) & 0xff. The shift keeps the sign, which the mask drops.
abbrev pub event_bits : WaitStatus → ℕ
event_bits s = bit_and (s.status / 2 ^ 16) 0xff

-- !0x80 of an i32
abbrev pub not_0x80 : ℕ
not_0x80 = 0xffff_ff7f

-- The asserts of the arguments are checked in debug builds only; `<<` drops the high bits.
unfoldable pub for_exit_code : ℕ → WaitStatus
for_exit_code code = record { status = code * 2 ^ 8 % 2 ^ 32 }

unfoldable pub for_fatal_sig : Sig → WaitStatus
for_fatal_sig sig = record { status = sig.raw }

unfoldable pub for_stop_sig : Sig → WaitStatus
for_stop_sig sig = record { status = bit_or (sig.raw * 2 ^ 8 % 2 ^ 32) 0x7f }

module _ (abi : WaitAbi) where
  open abi use {
    wifexited, wexitstatus, wifsignaled, wtermsig, wifstopped, wstopsig, sigstop, sigtrap,
    ptrace_event_stop, ptrace_o_tracesysgood,
  }

  unfoldable pub exit_code : WaitStatus → Option ℕ
  exit_code s = if wifexited s.status then some (wexitstatus s.status) else none

  unfoldable pub fatal_sig : WaitStatus → Option Sig
  fatal_sig s =
      let termsig = wtermsig s.status in if wifsignaled s.status then try_from_i32 termsig else none

  -- The end that the two kinds of stop share: a zero signal becomes SIGSTOP.
  unfoldable pub stop_signal : ℕ → MaybeStopSignal
  stop_signal sig =
      let sig' = bit_and sig not_0x80 in if not (sig' == 0) then new_sig sig' else new_sig sigstop

  unfoldable pub maybe_stop_sig : WaitStatus → MaybeStopSignal
  maybe_stop_sig s =
      if not (wifstopped s.status) || not (event_bits s == 0)
      then none
      else if wstopsig s.status == bit_or sigtrap 0x80
      then none
      else stop_signal (wstopsig s.status)

  unfoldable pub maybe_group_stop_sig : WaitStatus → MaybeStopSignal
  maybe_group_stop_sig s =
      if not (wifstopped s.status) || not (event_bits s == ptrace_event_stop)
      then none
      else stop_signal (wstopsig s.status)

  unfoldable pub maybe_ptrace_event : WaitStatus → MaybePtraceEvent
  maybe_ptrace_event s =
      let event = event_bits s in
      if event == ptrace_event_stop || event == 0 then none else new_event event

  unfoldable pub is_syscall : WaitStatus → Bool
  is_syscall s =
      if is_some (maybe_ptrace_event s) || not (wifstopped s.status)
      then false
      else wstopsig s.status == bit_or sigtrap 0x80

  -- `none` is the `fatal!` of a status that is not understood.
  unfoldable pub wait_type : WaitStatus → Option WaitType
  wait_type s =
      if is_some (exit_code s)
      then some exit
      else if is_some (fatal_sig s)
      then some fatal_signal
      else if is_some (maybe_stop_sig s)
      then some signal_stop
      else if is_some (maybe_group_stop_sig s)
      then some group_stop
      else if is_syscall s
      then some syscall_stop
      else if is_some (maybe_ptrace_event s)
      then some ptrace_event
      else none

  unfoldable pub ptrace_signal : WaitStatus → Option Sig
  ptrace_signal s =
      if wifstopped s.status then try_from_i32 (bit_and (wstopsig s.status) 0x7f) else none

  -- `seized` is `t.emulated_ptrace_seized`
  unfoldable pub for_group_sig : Sig → Bool → WaitStatus
  for_group_sig sig seized =
      let code = bit_or (sig.raw * 2 ^ 8 % 2 ^ 32) 0x7f in
      record { status = if seized then bit_or code (ptrace_event_stop * 2 ^ 16 % 2 ^ 32) else code }

  -- `options` is `t.emulated_ptrace_options`
  unfoldable pub for_syscall : ℕ → WaitStatus
  for_syscall options =
      let code = bit_or (sigtrap * 2 ^ 8 % 2 ^ 32) 0x7f in
      record {
        status =
            if not (bit_and options ptrace_o_tracesysgood == 0)
            then bit_or code (0x80 * 2 ^ 8)
            else code;
      }

  unfoldable pub for_ptrace_event : ℕ → WaitStatus
  for_ptrace_event event = record {
    status = bit_or (bit_or (event * 2 ^ 16 % 2 ^ 32) (sigtrap * 2 ^ 8 % 2 ^ 32)) 0x7f;
  }
