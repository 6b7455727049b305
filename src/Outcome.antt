-- ===== src/Outcome.antt =====
-- How a job ends: `JobFailure` and `JobOutcome` of src/runner_daemon/executor.rs, `FailureReason` and
-- `JobState` of src/gitlab/mod.rs. An `i32` is an integer.
use turboci.Prelude.{ℕ, ◌+◌, ◌==◌, Bool, true, false, ◌∷◌, Option, none, Bytes}
use turboci.Text.Number.{to_decimal}

pub data ℤ : Type 0 where
  pos : ℕ → ℤ
  negsuc : ℕ → ℤ

abbrev pub is_zero : ℤ → Bool
is_zero (pos n) = n == 0
is_zero (negsuc n) = false

unfoldable pub signed : ℤ → Bytes
signed (pos n) = to_decimal n
signed (negsuc n) = b'-' ∷ to_decimal (n + 1)

pub data FailureReason : Type 0 where
  script_failure runner_system_failure job_execution_timeout image_pull_failure : FailureReason
  job_canceled : FailureReason

pub data JobState : Type 0 where
  pending running success failed canceled : JobState

-- The derived `==` with `JobCanceled`.
abbrev pub is_canceled : FailureReason → Bool
is_canceled script_failure = false
is_canceled runner_system_failure = false
is_canceled job_execution_timeout = false
is_canceled image_pull_failure = false
is_canceled job_canceled = true

pub record JobFailure : Type 0 where
  pub reason : FailureReason
  pub exit_code : Option ℤ
  pub message : Bytes

-- `JobFailure::system`.
abbrev pub system : Bytes → JobFailure
system message = record { reason = runner_system_failure; exit_code = none; message = message }

-- `Result<(), JobFailure>`: none is `Ok`.
abbrev pub JobOutcome : Type 0
JobOutcome = Option JobFailure
