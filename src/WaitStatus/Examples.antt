-- ===== src/WaitStatus/Examples.antt =====
-- The wait macros of Linux, as a model of the interface, and wait statuses at work.
use rd.Prelude.{false, ◌/◌, ◌%◌, ◌≡◌, refl, ◌&&◌, some, none, arith, ltb, ◌==◌, if◌then◌else◌}
use rd.Signal.{Sig, try_from_i32, try_from_usize, try_from_agree}
use rd.WaitStatus.Abi.{WaitAbi}
use rd.WaitStatus.Decode.{
  exit_code, fatal_sig, maybe_stop_sig, stop_signal, WaitStatus, signal_stop, wait_type,
}
use rd.WaitStatus.Classify.{kind, wait_type-eq-kind}
use rd.WaitStatus.Encode.{report, make, meant, report-make, of_group_sig}

abbrev linux : WaitAbi
linux = record {
  wifexited = λ s. s % 128 == 0;
  wexitstatus = λ s. s / 256 % 256;
  wifsignaled = λ s. ltb 0 (s % 128) && ltb (s % 128) 127;
  wtermsig = λ s. s % 128;
  wifstopped = λ s. s % 256 == 127;
  wstopsig = λ s. s / 256 % 256;
  sigstop = 19;
  sigtrap = 5;
  ptrace_event_stop = 128;
  ptrace_o_tracesysgood = 1;
  wifexited_lem = λ s. refl;
  wexitstatus_lem = λ s. refl;
  wifsignaled_lem = λ s. refl;
  wtermsig_lem = λ s. refl;
  wifstopped_lem = λ s. refl;
  wstopsig_lem = λ s. refl;
  sigstop_value = refl;
  sigtrap_value = refl;
  ptrace_event_stop_value = refl;
  ptrace_o_tracesysgood_value = refl;
}

abbrev stop_by_zero : WaitStatus
stop_by_zero = record { status = 0x7f }

abbrev sigtstp : Sig
sigtstp = record { raw = 20 }

zero_signal_is_a_stop : wait_type linux stop_by_zero ≡ some signal_stop
unfolding wait_type exit_code fatal_sig maybe_stop_sig stop_signal try_from_i32
zero_signal_is_a_stop = refl

wait_type-eq-kind_example : wait_type linux stop_by_zero ≡ kind 0x7f
wait_type-eq-kind_example = wait_type-eq-kind linux stop_by_zero

report-make_example :
    report linux (make linux (of_group_sig sigtstp false))
    ≡ some (meant (of_group_sig sigtstp false))
report-make_example = report-make linux (of_group_sig sigtstp false) (omega arith)

try_from_agree_example :
    (try_from_usize 3 ≡ (if 3 == 0 then some (record { raw = 0 }) else try_from_i32 3))
    × (try_from_i32 0 ≡ none)
try_from_agree_example = try_from_agree 3
