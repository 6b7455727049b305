-- ===== src/Executor/Tests.antt =====
-- Runs of src/runner_daemon/executor.rs and the theorems at concrete jobs.
use turboci.Prelude.{◌≡◌, refl, true, false, List, [], ◌∷◌, none, some, Bytes, codes}
use turboci.Program.{Keeps, World, perform}
use turboci.Cancel.{running}
use turboci.Outcome.{pos, script_failure, JobFailure, JobOutcome}
use turboci.Job.{Step, JobInfo, GitInfo, Variable, Job}
use turboci.Executor.{
  exited, JobDirs, restored, Op, now, cancel_state, write, section_start, section_end, run, restore,
  stop_restore, Answer, Externals, RunStatus,
}
use turboci.Executor.Workspace.Isolation.{SameOwner, workspace_isolated}
use turboci.Executor.Steps.{Plan, run_steps}
use turboci.Executor.JobSteps.{job_timeout, run_job_steps}
use turboci.Executor.Steps.Failures.{silent, Stays, first_failure_stands}
use turboci.Executor.Steps.Deadlines.{timed}
use turboci.Executor.JobSteps.Deadlines.{scripts_bounded}

abbrev step : Bytes → Bytes → Step
step name line = record {
  name = name;
  script = line ∷ [];
  before_script = [];
  after_script = [];
  timeout = 0;
  when = codes "on_success";
  allow_failure = false;
}

abbrev steps : List Step
steps =
    step (codes "script") (codes "make")
    ∷ record (step (codes "after_script") (codes "tidy")) { when = codes "always" }
    ∷ []

abbrev git_info : GitInfo
git_info = record {
  repo_url = codes "https://h/p.git";
  ref_name = codes "main";
  ref_type = codes "branch";
  sha = codes "0123456789012345678901234567890123456789";
  before_sha = [];
  depth = none;
  refspecs = [];
  repo_object_format = none;
  protected = some true;
}

abbrev skip : Variable
skip = record {
  key = codes "GIT_STRATEGY";
  value = some (codes "none");
  public = true;
  masked = false;
  raw = true;
  file = false;
  internal = false;
}

abbrev job : Job
job = record {
  id = 7;
  token = codes "glcbt-1";
  allow_git_fetch = true;
  job_info = none;
  git_info = some git_info;
  runner_info = none;
  variables = skip ∷ [];
  steps = steps;
  image = none;
  services = [];
  artifacts = none;
  cache = [];
  credentials = [];
  dependencies = [];
  timeout = 60;
  hooks = [];
  project_slot = 0;
}

abbrev dirs : JobDirs
dirs = record { builds = codes "/builds"; project = codes "/builds/project" }

abbrev externals : Externals
externals = record {
  debug = λ text. text;
  debug_list = λ texts. [];
  last_instant = 1000000000000000;
  parse_duration = λ text. none;
}

abbrev plan : Plan
plan = record { timeout = 60; deadline = 60; script_deadline = 60; after_script_timeout = none }

abbrev failure : JobFailure
failure = record {
  reason = script_failure;
  exit_code = some (pos 2);
  message = codes "exit code 2";
}

-- A world whose scripts return the given statuses, and which keeps what is written.
abbrev answers : List RunStatus × List Bytes → (op : Op) → Answer op × (List RunStatus × List Bytes)
answers w now = (5, w)
answers w cancel_state = (running, w)
answers (statuses, log) (write text) = (tt, (statuses, text ∷ log))
answers w (section_start name header) = (tt, w)
answers w (section_end name) = (tt, w)
answers ([], log) (run runner text dir limits) = (exited (pos 0), ([], log))
answers (s ∷ ss, log) (run runner text dir limits) = (s, (ss, log))
answers w (restore limits) = (restored none, w)
answers w (stop_restore grace) = (tt, w)

abbrev world : World Op Answer (List RunStatus × List Bytes)
world = record { answer = answers }

-- The script fails, after_script too, and the script's exit code is the job's.
failing :
    perform world (exited (pos 2) ∷ exited (pos 1) ∷ [], []) (run_job_steps externals job dirs) ≡ (
      some failure,
      (
        [],
        codes "WARNING: after_script failed with exit code 1\n"
            ∷ codes "Skipping Git repository setup\n"
            ∷ [],
      ),
    )
unfolding turboci.Executor.Steps.or_insert turboci.Executor.Steps.canceled_failure
    turboci.Executor.Steps.timeout_failure turboci.Executor.JobSteps.malformed
    turboci.Executor.JobSteps.parsed_stage turboci.Executor.JobSteps.parse_stage
    turboci.Executor.JobSteps.stage_of turboci.Executor.JobSteps.stage_timeout
    turboci.Executor.Steps.is_after_script turboci.Executor.Steps.should_run
    turboci.Executor.Steps.wanted_time turboci.Executor.Steps.after_deadline
    turboci.Executor.Steps.step_limits turboci.Executor.Steps.job_status
    turboci.Executor.Steps.is_value turboci.Executor.Steps.step_text
    turboci.Executor.Steps.exit_failure turboci.Executor.Steps.exit_warning
    turboci.Executor.Steps.warn turboci.Executor.Steps.after_status
    turboci.Executor.Steps.script_status turboci.Executor.Steps.section_name
    turboci.Executor.Steps.match_status turboci.Executor.Steps.run_as
    turboci.Executor.Steps.run_lines turboci.Executor.Steps.step_body
    turboci.Executor.Steps.is_running turboci.Executor.Steps.is_aborted
    turboci.Executor.Steps.check_running turboci.Executor.Steps.round
    turboci.Executor.Steps.run_steps turboci.Executor.JobSteps.fetch_failure
    turboci.Executor.JobSteps.interrupt turboci.Executor.JobSteps.race_result
    turboci.Executor.JobSteps.restore_sources turboci.Executor.JobSteps.script_deadline_of
    turboci.Executor.JobSteps.job_timeout turboci.Executor.JobSteps.plan_of
    turboci.Executor.JobSteps.script_limits turboci.Executor.JobSteps.with_deadline
    turboci.Executor.JobSteps.with_timeout turboci.Executor.JobSteps.with_failure
    turboci.Executor.JobSteps.with_fetched turboci.Executor.JobSteps.with_start
    turboci.Executor.JobSteps.run_job_steps turboci.Executor.Sources.hook_result
    turboci.Executor.Sources.run_lines turboci.Executor.Sources.run_hook
    turboci.Executor.Sources.bad_refspec turboci.Executor.Sources.checkout_error
    turboci.Executor.Sources.source_script turboci.Executor.Sources.uses_git
    turboci.Executor.Sources.is_value turboci.Executor.Sources.lfs_line
    turboci.Executor.Sources.number_or_one turboci.Executor.Sources.clamped_attempts
    turboci.Executor.Sources.reset_script turboci.Executor.Sources.retry_warning
    turboci.Executor.Sources.getting_failed turboci.Executor.Sources.match_checkout
    turboci.Executor.Sources.try_checkout turboci.Executor.Sources.fetching
    turboci.Executor.Sources.checkout_with turboci.Executor.Sources.checkout_info
    turboci.Executor.Sources.checkout turboci.Executor.Sources.get_sources
    turboci.Executor.checked_add turboci.Executor.variable_value turboci.Executor.is_named
    turboci.Executor.text_lines turboci.Executor.script_lines turboci.Executor.lines_of_hooks
    turboci.Executor.hook_lines turboci.Job.last_value turboci.Job.timeout_secs turboci.Git.strategy
    turboci.Git.variable turboci.Text.trim turboci.Text.trim_start turboci.Text.trim_end
    turboci.Text.is_blank turboci.Text.whitespace_width turboci.Job.not_empty turboci.Outcome.signed
    turboci.Text.Number.to_decimal
failing = refl

first_failure_stands_example :
    Keeps silent (Stays failure) tt (run_steps externals job dirs plan steps (some failure))
first_failure_stands_example = first_failure_stands externals job dirs plan steps failure

scripts_bounded_example :
    Keeps
      (timed job (job_timeout job))
      (λ times r. Unit {0})
      none
      (run_job_steps externals job dirs)
scripts_bounded_example = scripts_bounded externals job dirs

workspace_isolated_example : SameOwner job (record job { id = 8 })
unfolding turboci.Executor.Workspace.workspace turboci.Job.project_id
workspace_isolated_example = workspace_isolated job (record job { id = 8 }) refl
