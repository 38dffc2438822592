-- ===== src/WaitStatus/Encode.antt =====
-- wait_status.rs: a status that rd makes is read back as what it was made from.
use rd.Prelude.{
  Bool, ℕ, ◌+◌, ◌*◌, ◌/◌, ◌%◌, ◌^◌, ◌<◌, ◌≡◌, refl, ap, true, false, ◌||◌, Option, none, some,
  bit_and, bit_or, arith, ltb, ◌==◌, ==_iff, if◌then◌else◌,
}
use rd.Prelude.Bits.{bit_or-shifted, holds_below, holds_below_lem}
use rd.Signal.{Sig, try_from_i32}
use rd.WaitStatus.Abi.{WaitAbi}
use rd.WaitStatus.Decode.{
  WaitStatus, exit, fatal_signal, signal_stop, group_stop, syscall_stop, ptrace_event, new_event,
  exit_code, fatal_sig, maybe_stop_sig, maybe_group_stop_sig, maybe_ptrace_event, wait_type,
  for_exit_code, for_fatal_sig, for_stop_sig, for_group_sig, for_syscall, for_ptrace_event,
}
use rd.WaitStatus.Classify.{kind, stop_kind, stop_signal_value, wait_type-eq-kind, event_bits_value}

-- What a status can say: the cases of `Display for WaitStatus`, each with what it prints.
pub data Report : Type 0 where
  exited : ℕ → Report
  killed stopped group_stopped : Sig → Report
  in_syscall : Report
  at_event : ℕ → Report

-- A signal that passed `TryFrom<i32>`.
abbrev pub IsSignal : Sig → Type 0
IsSignal sig = (0 < sig.raw) × (sig.raw < 128)

-- The constructors of a status, with what each is given.
pub data Source : Type 0 where
  of_exit_code : ℕ → Source
  of_fatal_sig of_stop_sig : Sig → Source
  of_group_sig : Sig → (seized : Bool) → Source
  of_syscall : (options : ℕ) → Source
  of_ptrace_event : ℕ → Source

-- What a constructor can be given: an exit code is a byte, a fatal signal is below 0x7f, an event is a
-- byte other than PTRACE_EVENT_STOP, and a stop is not by SIGTRAP | 0x80.
abbrev pub CanMake : Source → Type 0
CanMake (of_exit_code code) = code < 256
CanMake (of_fatal_sig sig) = (0 < sig.raw) × (sig.raw < 127)
CanMake (of_stop_sig sig) = IsSignal sig
CanMake (of_group_sig sig seized) = IsSignal sig
CanMake (of_syscall options) = Unit
CanMake (of_ptrace_event event) = (0 < event) × (event < 256) × (event ≡ 128 → ⊥)

-- What a status should say. Without PTRACE_SEIZE a group stop is a plain stop by its signal, and
-- without PTRACE_O_TRACESYSGOOD (1) a system call stop is one by SIGTRAP (5).
abbrev pub meant : Source → Report
meant (of_exit_code code) = exited code
meant (of_fatal_sig sig) = killed sig
meant (of_stop_sig sig) = stopped sig
meant (of_group_sig sig seized) = if seized then group_stopped sig else stopped sig
meant (of_syscall options) =
    if bit_and options 1 == 0 then stopped (record { raw = 5 }) else in_syscall
meant (of_ptrace_event event) = at_event event

stop_word : (sig : ℕ) → sig < 256 → bit_or (sig * 2 ^ 8 % 2 ^ 32) 0x7f ≡ sig * 256 + 127
stop_word sig h =
    omega
      (arith, bit_or-shifted 8 sig 0x7f (omega arith), ap (λ (t : ℕ). bit_or t 0x7f) (small sig h))
  where
    small : (sig : ℕ) → sig < 256 → sig * 2 ^ 8 % 2 ^ 32 ≡ sig * 2 ^ 8
    small sig h = omega arith

group_table :
    holds_below 256 (λ x. bit_or (x * 256 + 127) (128 * 2 ^ 16) == 128 * 65536 + x * 256 + 127)
    ≡ true
unfolding holds_below
group_table = refl

event_table :
    holds_below 256
      (λ x. bit_or (bit_or (x * 2 ^ 16 % 2 ^ 32) (5 * 2 ^ 8 % 2 ^ 32)) 0x7f == x * 65536 + 1407)
    ≡ true
unfolding holds_below
event_table = refl

group_word : (x : ℕ) → x < 256 → bit_or (x * 256 + 127) (128 * 2 ^ 16) ≡ 128 * 65536 + x * 256 + 127
group_word x h = (==_iff (bit_or (x * 256 + 127) (128 * 2 ^ 16)) (128 * 65536 + x * 256 + 127)).0 (
    holds_below_lem 256 (λ y. bit_or (y * 256 + 127) (128 * 2 ^ 16) == 128 * 65536 + y * 256 + 127)
      x group_table h)

event_word :
    (x : ℕ)
    → x < 256
    → bit_or (bit_or (x * 2 ^ 16 % 2 ^ 32) (5 * 2 ^ 8 % 2 ^ 32)) 0x7f ≡ x * 65536 + 1407
event_word x h =
    (==_iff (bit_or (bit_or (x * 2 ^ 16 % 2 ^ 32) (5 * 2 ^ 8 % 2 ^ 32)) 0x7f) (x * 65536 + 1407)).0
      (holds_below_lem 256
        (λ y. bit_or (bit_or (y * 2 ^ 16 % 2 ^ 32) (5 * 2 ^ 8 % 2 ^ 32)) 0x7f == y * 65536 + 1407) x
        event_table h)

module _ (abi : WaitAbi) where
  -- The `match` of `Display`: the accessor that goes with the type.
  unfoldable pub report : WaitStatus → Option Report
  report s = elim (wait_type abi s) [
    | none ↦ none
    | some exit ↦ elim (exit_code abi s) [ none ↦ none | some code ↦ some (exited code) ]
    | some fatal_signal ↦ elim (fatal_sig abi s) [ none ↦ none | some sig ↦ some (killed sig) ]
    | some signal_stop ↦ elim (maybe_stop_sig abi s) [ none ↦ none | some sig ↦ some (stopped sig) ]
    | some group_stop ↦ elim (maybe_group_stop_sig abi s) [
      | none ↦ none
      | some sig ↦ some (group_stopped sig)
    ]
    | some syscall_stop ↦ some in_syscall
    | some ptrace_event ↦ elim (maybe_ptrace_event abi s) [
      | none ↦ none
      | some event ↦ some (at_event event)
    ]
  ]

  -- All the constructors of `impl WaitStatus`.
  unfoldable pub make : Source → WaitStatus
  make (of_exit_code code) = for_exit_code code
  make (of_fatal_sig sig) = for_fatal_sig sig
  make (of_stop_sig sig) = for_stop_sig sig
  make (of_group_sig sig seized) = for_group_sig abi sig seized
  make (of_syscall options) = for_syscall abi options
  make (of_ptrace_event event) = for_ptrace_event abi event

  -- What the words mean, by their bytes.
  layout : ℕ → Option Report
  layout st =
      let low = st % 128 in
      let signal = st / 256 % 256 in
      let event = st / 65536 % 256 in
      let stopper : Sig = record { raw = if signal % 128 == 0 then 19 else signal % 128 } in
      if low == 0
      then some (exited signal)
      else if ltb low 127
      then some (killed (record { raw = low }))
      else if st % 256 == 127
      then (if event == 0
          then (if signal == 0x85 then some in_syscall else some (stopped stopper))
          else if event == 128
          then some (group_stopped stopper)
          else some (at_event event))
      else if event == 0 || event == 128
      then none
      else some (at_event event)

  report-eq-layout : (s : WaitStatus) → report s ≡ layout s.status
  unfolding report layout exit_code fatal_sig maybe_stop_sig maybe_group_stop_sig maybe_ptrace_event
      new_event try_from_i32 kind stop_kind
  report-eq-layout s = ground (
    arith,
    wait_type-eq-kind abi s,
    event_bits_value s,
    stop_signal_value abi (abi.wstopsig s.status),
    abi.wifexited_lem s.status,
    abi.wexitstatus_lem s.status,
    abi.wifsignaled_lem s.status,
    abi.wtermsig_lem s.status,
    abi.wifstopped_lem s.status,
    abi.wstopsig_lem s.status,
    abi.sigtrap_value,
    abi.ptrace_event_stop_value,
  )

  -- The status that a constructor makes of an exit code below 256, a fatal signal from 1 to 126, a
  -- signal from 1 to 127 of a stop or group stop, the options of a system call stop, or an event from
  -- 1 to 255 other than PTRACE_EVENT_STOP is read back as what it was made from; but without
  -- PTRACE_SEIZE a group stop is read as a plain stop by its signal, and without
  -- PTRACE_O_TRACESYSGOOD a system call stop as a plain stop by SIGTRAP.
  pub report-make : (source : Source) → CanMake source → report (make source) ≡ some (meant source)
  unfolding make layout for_exit_code for_fatal_sig for_stop_sig for_group_sig for_syscall
      for_ptrace_event
  report-make (of_exit_code code) h = ground (arith, report-eq-layout (make (of_exit_code code)))
  report-make (of_fatal_sig sig) h = ground (arith, report-eq-layout (make (of_fatal_sig sig)))
  report-make (of_stop_sig sig) h =
      ground (arith, report-eq-layout (make (of_stop_sig sig)), stop_word sig.raw)
  report-make (of_group_sig sig true) h = ground (
    arith,
    report-eq-layout (make (of_group_sig sig true)),
    abi.ptrace_event_stop_value,
    stop_word sig.raw,
    group_word sig.raw,
  )
  report-make (of_group_sig sig false) h =
      ground (arith, report-eq-layout (make (of_group_sig sig false)), stop_word sig.raw)
  report-make (of_syscall options) h = ground (
    arith,
    report-eq-layout (make (of_syscall options)),
    abi.ptrace_o_tracesysgood_value,
    abi.sigtrap_value,
  )
  report-make (of_ptrace_event event) h =
      ground (
        arith,
        report-eq-layout (make (of_ptrace_event event)),
        abi.sigtrap_value,
        event_word event,
      )
