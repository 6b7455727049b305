-- ===== src/Executor/Steps.antt =====
-- `run_job_steps` of src/runner_daemon/executor.rs: the sources, the restore, and the job's steps.
pub mod Failures
pub mod Scripts
pub mod Success
pub mod Deadlines
use turboci.Prelude.{
  ℕ, zero, suc, ◌+◌, ◌/◌, min, max, Bool, true, false, not, ◌||◌, ltb, ◌==◌, if◌then◌else◌, List,
  [], ◌∷◌, ◌++◌, Option, none, some, Bytes, codes, bytes_eq,
}
use turboci.Text.{trim}
use turboci.Text.Number.{to_decimal}
use turboci.Cancel.{RemoteState, running, canceling, aborted}
use turboci.Outcome.{
  ℤ, is_zero, signed, script_failure, job_canceled, job_execution_timeout, is_canceled, JobFailure,
  system, JobOutcome,
}
use turboci.Job.{Step, Job, timeout_secs}
use turboci.Script.{step_script}
use turboci.Executor.{
  seconds, default_job_timeout, default_after_script_timeout, restore_stop_grace, RunStatus, exited,
  timed_out, canceled, error, Limits, job_scripts, JobDirs, Race, restored, deadline_passed,
  cancel_reached, now, cancel_state, write, section_start, section_end, run, restore, stop_restore,
  Action, Externals, checked_add, variable_value,
}
use turboci.Executor.Sources.{RunError, failed, Fetched, get_sources}
use turboci.Program.{done, ask, ◌>>=◌, ◌>>◌}

-- `Option::get_or_insert`.
unfoldable pub or_insert : Option JobFailure → JobFailure → Option JobFailure
or_insert none f = some f
or_insert (some g) f = some g

unfoldable pub canceled_failure : JobFailure
canceled_failure = record { reason = job_canceled; exit_code = none; message = codes "canceled" }

unfoldable pub timeout_failure : ℕ → JobFailure
timeout_failure timeout = record {
  reason = job_execution_timeout;
  exit_code = none;
  message = codes "execution took longer than " ++ (to_decimal (timeout / seconds 1) ++ codes "s");
}

-- The values that the loop over the steps reads.
pub record Plan : Type 0 where
  pub timeout : ℕ
  pub deadline : ℕ
  pub script_deadline : ℕ
  pub after_script_timeout : Option ℕ

unfoldable pub is_after_script : Step → Bool
is_after_script step = bytes_eq step.name (codes "after_script")

unfoldable pub should_run : Bytes → Option JobFailure → Bool
should_run when none = not (bytes_eq when (codes "on_failure"))
should_run when (some f) = bytes_eq when (codes "always") || bytes_eq when (codes "on_failure")

unfoldable pub wanted_time : Option ℕ → ℕ → ℕ
wanted_time (some timeout) secs = timeout
wanted_time none secs = if ltb 0 secs then seconds secs else default_after_script_timeout

unfoldable pub after_deadline : Externals → Plan → ℕ → ℕ → ℕ
after_deadline ext plan at wanted =
    let cap = max plan.deadline (at + default_after_script_timeout) in
    elim (checked_add ext at wanted) [ none ↦ cap | some d ↦ min d cap ]

-- Opens the step's section and sets its limits.
unfoldable pub step_limits : Externals → Plan → Step → Bool → Bytes → Action Limits
step_limits ext plan step true section = do
  ask (section_start section (codes "Running after_script"))
  at ← ask now
  let wanted = wanted_time plan.after_script_timeout step.timeout
  done (record { deadline = after_deadline ext plan at wanted; stop_at = aborted })
step_limits ext plan step false section = do
  ask (
      section_start section
        (codes "Executing \"step_" ++ (step.name ++ codes "\" stage of the job script")))
  done (record { deadline = plan.script_deadline; stop_at = canceling })

unfoldable pub job_status : Option JobFailure → Bytes
job_status none = codes "success"
job_status (some f) = if is_canceled f.reason then codes "canceled" else codes "failed"

unfoldable pub is_value : Bytes → Option Bytes → Bool
is_value wanted none = false
is_value wanted (some value) = bytes_eq value wanted

unfoldable pub step_text : Job → Bool → Option JobFailure → List Bytes → Bytes
unfolding is_value
step_text job is_after failure lines =
    let text = step_script lines in
    let traced =
      if is_value (codes "true") (variable_value job (codes "CI_DEBUG_TRACE"))
      then codes "set -x\n" ++ text
      else text in
    if is_after
    then codes "export CI_JOB_STATUS=" ++ (job_status failure ++ (codes "\n" ++ traced))
    else traced

unfoldable pub exit_failure : ℤ → JobFailure
exit_failure code = record {
  reason = script_failure;
  exit_code = some code;
  message = codes "exit code " ++ signed code;
}

unfoldable pub exit_warning : Bytes → ℤ → Bytes
exit_warning name code =
    codes "WARNING: " ++ (name ++ (codes " failed with exit code " ++ (signed code ++ codes "\n")))

unfoldable pub warn : Bytes → JobOutcome → Action JobOutcome
warn text failure = do ask (write text); done failure

-- The match on the result of a run, for `after_script` and for another step: the failure then.
unfoldable pub after_status : Step → Option JobFailure → RunStatus → Action JobOutcome
unfolding exit_warning warn
after_status step failure (exited code) =
    if is_zero code then done failure else warn (exit_warning step.name code) failure
after_status step failure timed_out = warn (codes "WARNING: after_script timed out\n") failure
after_status step failure canceled = warn (codes "WARNING: after_script canceled\n") failure
after_status step failure (error e) =
    warn (codes "WARNING: after_script could not run: " ++ (e ++ codes "\n")) failure

unfoldable pub script_status : Plan → Step → Option JobFailure → RunStatus → Action JobOutcome
unfolding exit_failure exit_warning warn
script_status plan step failure (exited code) =
    if is_zero code
    then done failure
    else if step.allow_failure
    then warn (exit_warning step.name code) failure
    else done (or_insert failure (exit_failure code))
script_status plan step failure timed_out = done (or_insert failure (timeout_failure plan.timeout))
script_status plan step failure canceled = done (or_insert failure canceled_failure)
script_status plan step failure (error e) = done (or_insert failure (system e))

unfoldable pub section_name : Step → Bool → Bytes
section_name step true = codes "after_script"
section_name step false = codes "step_" ++ step.name

unfoldable pub match_status : Plan → Step → Option JobFailure → Bool → RunStatus → Action JobOutcome
unfolding after_status script_status
match_status plan step failure true status = after_status step failure status
match_status plan step failure false status = script_status plan step failure status

-- A step with lines, as `after_script` or as another one.
unfoldable pub run_as :
    Externals
    → Job
    → JobDirs
    → Plan
    → Step
    → Option JobFailure
    → List Bytes
    → Bool
    → Action JobOutcome
unfolding section_name step_limits match_status
run_as ext job dirs plan step failure lines is_after = do
  let section = section_name step is_after
  limits ← step_limits ext plan step is_after section
  status ← ask (run job_scripts (step_text job is_after failure lines) dirs.project limits)
  failure' ← match_status plan step failure is_after status
  ask (section_end section)
  done failure'

-- What a step that runs does with its lines.
unfoldable pub run_lines :
    Externals → Job → JobDirs → Plan → Step → Option JobFailure → List Bytes → Action JobOutcome
unfolding run_as
run_lines ext job dirs plan step failure [] = done failure
run_lines ext job dirs plan step failure (line ∷ lines) =
    run_as ext job dirs plan step failure (line ∷ lines) (is_after_script step)

-- A step once the job is known not to be aborted.
unfoldable pub step_body :
    Externals → Job → JobDirs → Plan → Step → Option JobFailure → Action JobOutcome
unfolding run_lines
step_body ext job dirs plan step failure =
    if should_run step.when failure
    then run_lines ext job dirs plan step failure (step.before_script ++ step.script)
    else done failure

unfoldable pub is_running : RemoteState → Bool
is_running running = true
is_running canceling = false
is_running aborted = false

unfoldable pub is_aborted : RemoteState → Bool
is_aborted running = false
is_aborted canceling = false
is_aborted aborted = true

-- A step other than `after_script` sees that the job is no longer running.
unfoldable pub check_running : Step → Option JobFailure → Action JobOutcome
unfolding is_running
check_running step failure =
    if is_after_script step
    then done failure
    else ask cancel_state >>= λ state.
        done (if is_running state then failure else or_insert failure canceled_failure)

-- A round of the loop in the state that it reads first; `again` is the rest of the loop.
unfoldable pub round :
    Externals
    → Job
    → JobDirs
    → Plan
    → Step
    → Option JobFailure
    → (Option JobFailure → Action JobOutcome)
    → RemoteState
    → Action JobOutcome
unfolding check_running step_body is_aborted
round ext job dirs plan step failure again state =
    if is_aborted state
    then done (or_insert failure canceled_failure)
    else check_running step failure >>= step_body ext job dirs plan step >>= again

-- The loop over the steps; an aborted job ends it.
unfoldable pub run_steps :
    Externals → Job → JobDirs → Plan → List Step → Option JobFailure → Action JobOutcome
unfolding round
run_steps ext job dirs plan [] failure = done failure
run_steps ext job dirs plan (step ∷ steps) failure =
    ask cancel_state >>= round ext job dirs plan step failure (run_steps ext job dirs plan steps)
