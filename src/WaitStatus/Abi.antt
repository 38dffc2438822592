-- ===== src/WaitStatus/Abi.antt =====
-- What wait_status.rs takes from outside the repository: the macros of <sys/wait.h> by way of the
-- libc crate, and the numbers of two signals and of a ptrace event and option (the bindings of the
-- kernel's headers are generated by the build). The laws are the layout of a wait status that the
-- kernel and glibc document: the low seven bits are the terminating signal, 0 for an exit and 0x7f
-- for a stop; the next byte is the exit code or the stopping signal.
use rd.Prelude.{ℕ, ◌/◌, ◌%◌, ◌≡◌, Bool, ◌&&◌, ltb, ◌==◌}

pub record WaitAbi : Type 0 where
  pub wifexited : ℕ → Bool
  pub wexitstatus : ℕ → ℕ
  pub wifsignaled : ℕ → Bool
  pub wtermsig : ℕ → ℕ
  pub wifstopped : ℕ → Bool
  pub wstopsig : ℕ → ℕ
  pub sigstop : ℕ
  pub sigtrap : ℕ
  pub ptrace_event_stop : ℕ
  pub ptrace_o_tracesysgood : ℕ
  pub wifexited_lem : (s : ℕ) → wifexited s ≡ (s % 128 == 0)
  pub wexitstatus_lem : (s : ℕ) → wexitstatus s ≡ s / 256 % 256
  pub wifsignaled_lem : (s : ℕ) → wifsignaled s ≡ (ltb 0 (s % 128) && ltb (s % 128) 127)
  pub wtermsig_lem : (s : ℕ) → wtermsig s ≡ s % 128
  pub wifstopped_lem : (s : ℕ) → wifstopped s ≡ (s % 256 == 127)
  pub wstopsig_lem : (s : ℕ) → wstopsig s ≡ s / 256 % 256
  pub sigstop_value : sigstop ≡ 19
  pub sigtrap_value : sigtrap ≡ 5
  pub ptrace_event_stop_value : ptrace_event_stop ≡ 128
  pub ptrace_o_tracesysgood_value : ptrace_o_tracesysgood ≡ 1
