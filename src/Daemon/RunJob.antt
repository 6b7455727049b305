-- ===== src/Daemon/RunJob.antt =====
-- `run_job` of src/runner_daemon/mod.rs: a job from its first line of log to its final report.
pub mod Report
pub mod Sending
use turboci.Prelude.{
  ℕ, Bool, true, false, not, ◌&&◌, ltb, if◌then◌else◌, List, [], ◌∷◌, ◌++◌, Option, none, some,
  Bytes, codes,
}
use turboci.Cancel.{RemoteState, running, canceling, aborted, Shutdown, up, graceful, abort}
use turboci.Outcome.{
  ℤ, FailureReason, runner_system_failure, is_canceled, JobState, success, failed, JobFailure,
  system, JobOutcome,
}
use turboci.Scrubber.{SecretScrubber, scrub}
use turboci.Scrubber.JobSecrets.{with_job_secrets}
use turboci.Job.{Artifact, Job}
use turboci.Daemon.{
  write, section_start, section_end, finish_trace, cancel_state, shutdown_mode, start_heartbeat,
  stop_heartbeat, claim_workspace, release_workspace, evict_workspaces, prepare, create_project_dir,
  execute, cleanup, update_job, Action, Externals, Config, pushes, any_cache,
}
use turboci.Daemon.Uploads.{upload_artifacts, upload_cache}
use turboci.Program.{done, ask, ◌>>=◌, ◌>>◌}

is_ok : JobOutcome → Bool
is_ok none = true
is_ok (some f) = false

result_word : Bool → Bytes
result_word true = codes "successful"
result_word false = codes "failed"

unprepared : Option Bytes → JobOutcome
unprepared none = none
unprepared (some e) = some (system (codes "Failed to create workspace: " ++ e))

project_dir_after : Option Bytes → Action (Option Bytes)
project_dir_after none = ask create_project_dir
project_dir_after (some e) = done (some e)

execute_if : JobOutcome → Action JobOutcome
execute_if none = ask execute
execute_if (some f) = done (some f)

has_artifacts : Option (List Artifact) → Bool
has_artifacts none = false
has_artifacts (some []) = false
has_artifacts (some (a ∷ artifacts)) = true

-- The outcome after the upload: an upload failure fails a job that succeeded otherwise.
joined : JobOutcome → JobOutcome → JobOutcome
joined none uploaded = uploaded
joined (some f) uploaded = some f

upload_section : Bool → Bytes
upload_section true = codes "upload_artifacts_on_success"
upload_section false = codes "upload_artifacts_on_failure"

when_true : Bool → Action (Unit {0}) → Action (Unit {0})
when_true true m = m
when_true false m = done tt

send_artifacts : Externals → Job → JobOutcome → Action JobOutcome
unfolding has_artifacts upload_section joined when_true is_ok result_word
send_artifacts ext job outcome =
    let shown = has_artifacts job.artifacts in
    let section = upload_section (is_ok outcome) in
    when_true shown (
      ask (
        section_start section
          (codes "Uploading artifacts for " ++ (result_word (is_ok outcome) ++ codes " job"))))
    >> (upload_artifacts ext job (is_ok outcome) >>= λ uploaded.
        when_true shown (ask (section_end section)) >> done (joined outcome uploaded))

send_cache : Externals → Config → Job → JobOutcome → Action JobOutcome
unfolding when_true is_ok result_word
send_cache ext config job outcome =
    let shown = config.cache_enabled && any_cache pushes job.cache in
    when_true shown (
      ask (
        section_start (codes "archive_cache")
          (codes "Saving cache for " ++ (result_word (is_ok outcome) ++ codes " job"))))
    >> (upload_cache ext config job (is_ok outcome)
        >> (when_true shown (ask (section_end (codes "archive_cache"))) >> done outcome))

-- An aborted job sends nothing.
pub send_results : Externals → Config → Job → JobOutcome → RemoteState → Action JobOutcome
unfolding send_artifacts send_cache
send_results ext config job outcome running =
    send_artifacts ext job outcome >>= send_cache ext config job
send_results ext config job outcome canceling =
    send_artifacts ext job outcome >>= send_cache ext config job
send_results ext config job outcome aborted = done outcome

is_abort : Shutdown → Bool
is_abort up = false
is_abort graceful = false
is_abort abort = true

-- A job that the runner's shutdown stopped is the runner's failure.
blamed : Bool → JobOutcome → JobOutcome
blamed by_shutdown none = none
blamed by_shutdown (some f) =
    if by_shutdown && is_canceled f.reason
    then some
        (record f { reason = runner_system_failure; message = codes "the runner is shutting down" })
    else some f

result_text : SecretScrubber → JobOutcome → Bytes
result_text scrubber none = codes "\nJob succeeded\n"
result_text scrubber (some f) =
    codes "\nERROR: Job failed: " ++ (scrub scrubber f.message ++ codes "\n")

report : JobOutcome → Action (Option Bytes)
report none = ask (update_job success none none)
report (some f) = ask (update_job failed (some f.reason) f.exit_code)

-- A job that GitLab itself ended is not reported: it has its state, and refuses updates.
report_unless : JobOutcome → Bool → RemoteState → Action (Option Bytes)
unfolding report
report_unless outcome by_shutdown running = report outcome
report_unless outcome by_shutdown canceling = report outcome
report_unless outcome by_shutdown aborted = if by_shutdown then report outcome else done none

conclude : SecretScrubber → JobOutcome → Shutdown → Action (Option Bytes)
unfolding blamed result_text report_unless is_abort
conclude scrubber outcome mode =
    let final = blamed (is_abort mode) outcome in
    ask (write (result_text scrubber final))
    >> (ask finish_trace >> (ask cancel_state >>= report_unless final (is_abort mode)))

clean_up : Config → SecretScrubber → JobOutcome → Action (Option Bytes)
unfolding conclude
clean_up config scrubber outcome =
    ask (cleanup (ltb 0 config.workspace_max_age_days))
    >> (ask release_workspace
        >> (ask stop_heartbeat >> (ask shutdown_mode >>= conclude scrubber outcome)))

run_prepared : Externals → Config → Job → SecretScrubber → JobOutcome → Action (Option Bytes)
unfolding execute_if send_results clean_up
run_prepared ext config job scrubber prepared = execute_if prepared >>= λ outcome.
    (ask cancel_state >>= send_results ext config job outcome) >>= clean_up config scrubber

-- The result is the text of the error of the final report, if there is one.
pub run_job : Externals → Config → SecretScrubber → Job → Action (Option Bytes)
unfolding run_prepared project_dir_after unprepared
run_job ext config base job =
    let scrubber = with_job_secrets base job in
    ask start_heartbeat
    >> (ask (write (codes "Running with TurboCI " ++ (ext.version ++ codes "\n")))
        >> (ask claim_workspace
            >> (ask evict_workspaces
                >> (ask prepare >>= project_dir_after >>= λ e.
                    run_prepared ext config job scrubber (unprepared e)))))
