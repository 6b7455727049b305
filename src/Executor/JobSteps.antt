-- ===== src/Executor/JobSteps.antt =====
-- `run_job_steps` of src/runner_daemon/executor.rs: the sources, the restore, the stage timeouts, and then
-- the job's steps.
pub mod Success
pub mod Deadlines
use turboci.Prelude.{
  ℕ, zero, suc, ◌+◌, ◌/◌, min, max, Bool, true, false, not, ◌||◌, ltb, ◌==◌, if◌then◌else◌, List,
  [], ◌∷◌, ◌++◌, Option, none, some, Bytes, codes, bytes_eq,
}
use turboci.Text.{trim}
use turboci.Text.Number.{to_decimal}
use turboci.Cancel.{RemoteState, running, canceling, aborted}
use turboci.Outcome.{
  ℤ, is_zero, signed, script_failure, job_canceled, job_execution_timeout, is_canceled, JobFailure,
  system, JobOutcome,
}
use turboci.Job.{Step, Job, timeout_secs}
use turboci.Script.{step_script}
use turboci.Executor.{
  seconds, default_job_timeout, default_after_script_timeout, restore_stop_grace, RunStatus, exited,
  timed_out, canceled, error, Limits, job_scripts, JobDirs, Race, restored, deadline_passed,
  cancel_reached, now, cancel_state, write, section_start, section_end, run, restore, stop_restore,
  Action, Externals, checked_add, variable_value,
}
use turboci.Executor.Sources.{RunError, failed, Fetched, get_sources}
use turboci.Program.{done, ask, ◌>>=◌, ◌>>◌}
use turboci.Executor.Steps.{
  or_insert, canceled_failure, timeout_failure, is_after_script, should_run, wanted_time,
  after_deadline, step_limits, job_status, is_value, step_text, exit_failure, exit_warning, warn,
  after_status, script_status, section_name, match_status, run_as, run_lines, step_body, is_running,
  is_aborted, check_running, round, run_steps, Plan,
}

unfoldable pub malformed : Externals → Bytes → Bytes → Bytes
malformed ext key raw =
    codes "WARNING: Ignoring malformed " ++ (key ++ (codes ": " ++ (ext.debug raw ++ codes "\n")))

unfoldable pub parsed_stage : Externals → Bytes → Bytes → Option ℕ → Action (Option ℕ)
unfolding malformed
parsed_stage ext key raw none = do ask (write (malformed ext key raw)); done none
parsed_stage ext key raw (some timeout) = done (if timeout == 0 then none else some timeout)

unfoldable pub parse_stage : Externals → Bytes → Bytes → Action (Option ℕ)
unfolding parsed_stage
parse_stage ext key [] = done none
parse_stage ext key (c ∷ t) = parsed_stage ext key (c ∷ t) (ext.parse_duration (c ∷ t))

unfoldable pub stage_of : Externals → Bytes → Option Bytes → Action (Option ℕ)
unfolding parse_stage
stage_of ext key none = done none
stage_of ext key (some value) = parse_stage ext key (trim value)

unfoldable pub stage_timeout : Externals → Job → Bytes → Action (Option ℕ)
unfolding stage_of
stage_timeout ext job key = stage_of ext key (variable_value job key)

unfoldable pub fetch_failure : ℕ → Fetched → Option JobFailure
fetch_failure timeout none = none
fetch_failure timeout (some RunError.timed_out) = some (timeout_failure timeout)
fetch_failure timeout (some RunError.canceled) = some canceled_failure
fetch_failure timeout (some (failed f)) = some f

unfoldable pub interrupt : JobFailure → Action JobOutcome
interrupt f = do ask (stop_restore restore_stop_grace); done (some f)

unfoldable pub race_result : ℕ → Race → Action JobOutcome
unfolding interrupt
race_result timeout (restored result) = done result
race_result timeout deadline_passed = interrupt (timeout_failure timeout)
race_result timeout cancel_reached = interrupt canceled_failure

-- The restore, when the sources are there.
unfoldable pub restore_sources : ℕ → Limits → Option JobFailure → Action JobOutcome
unfolding race_result
restore_sources timeout limits (some f) = done (some f)
restore_sources timeout limits none = do race ← ask (restore limits); race_result timeout race

unfoldable pub script_deadline_of : Externals → ℕ → Option ℕ → Action ℕ
script_deadline_of ext deadline none = done deadline
script_deadline_of ext deadline (some t) = do
  at ← ask now
  done (elim (checked_add ext at t) [ none ↦ deadline | some d ↦ min deadline d ])

unfoldable pub job_timeout : Job → ℕ
job_timeout job = elim (timeout_secs job) [ none ↦ default_job_timeout | some s ↦ seconds s ]

unfoldable pub plan_of : ℕ → ℕ → ℕ → Option ℕ → Plan
plan_of timeout deadline script_deadline after_timeout = record {
  timeout = timeout;
  deadline = deadline;
  script_deadline = script_deadline;
  after_script_timeout = after_timeout;
}

unfoldable pub script_limits : ℕ → Limits
script_limits deadline = record { deadline = deadline; stop_at = canceling }

-- What is left of `run_job_steps` once a value is known: the script steps' deadline, their timeout,
-- the failure before the steps, the result of getting the sources, the time of the start.
unfoldable pub with_deadline :
    Externals → Job → JobDirs → ℕ → ℕ → Option JobFailure → ℕ → Action JobOutcome
unfolding plan_of
with_deadline ext job dirs timeout deadline failure script_deadline =
    stage_timeout ext job (codes "RUNNER_AFTER_SCRIPT_TIMEOUT") >>= λ after_timeout.
    run_steps ext job dirs (plan_of timeout deadline script_deadline after_timeout) job.steps
      failure

unfoldable pub with_timeout :
    Externals → Job → JobDirs → ℕ → ℕ → Option JobFailure → Option ℕ → Action JobOutcome
unfolding with_deadline script_deadline_of
with_timeout ext job dirs timeout deadline failure script_timeout =
    script_deadline_of ext deadline script_timeout
    >>= with_deadline ext job dirs timeout deadline failure

unfoldable pub with_failure :
    Externals → Job → JobDirs → ℕ → ℕ → Option JobFailure → Action JobOutcome
unfolding with_timeout
with_failure ext job dirs timeout deadline failure =
    stage_timeout ext job (codes "RUNNER_SCRIPT_TIMEOUT")
    >>= with_timeout ext job dirs timeout deadline failure

unfoldable pub with_fetched : Externals → Job → JobDirs → ℕ → ℕ → Fetched → Action JobOutcome
unfolding fetch_failure restore_sources with_failure script_limits
with_fetched ext job dirs timeout deadline fetched =
    ask (section_end (codes "get_sources"))
    >> (restore_sources timeout (script_limits deadline) (fetch_failure timeout fetched)
        >>= with_failure ext job dirs timeout deadline)

unfoldable pub with_start : Externals → Job → JobDirs → ℕ → ℕ → Action JobOutcome
unfolding with_fetched script_limits
with_start ext job dirs timeout start =
    ask (section_start (codes "get_sources") (codes "Getting source from Git repository"))
    >> (get_sources ext job dirs (script_limits (start + timeout))
        >>= with_fetched ext job dirs timeout (start + timeout))

unfoldable pub run_job_steps : Externals → Job → JobDirs → Action JobOutcome
unfolding job_timeout with_start
run_job_steps ext job dirs = ask now >>= with_start ext job dirs (job_timeout job)
