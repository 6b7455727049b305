-- ===== src/Executor/JobSteps/Deadlines.antt =====
-- How long the scripts of `run_job_steps` of src/runner_daemon/executor.rs may take.
use turboci.Prelude.{◌≡◌, refl, ℕ, ◌+◌, ◌≤◌, min, [], ◌∷◌, Option, none, some, Bytes, codes, arith}
use turboci.Program.{Keeps, Keeps-bind, Keeps-weaken}
use turboci.Text.{trim}
use turboci.Outcome.{JobOutcome}
use turboci.Job.{Job}
use turboci.Executor.{
  checked_add, JobDirs, Race, restored, deadline_passed, cancel_reached, Externals, variable_value,
}
use turboci.Executor.Sources.{Fetched, get_sources}
use turboci.Executor.Sources.Calls.{get_sources_unseen}
use turboci.Executor.JobSteps.{
  parsed_stage, parse_stage, stage_of, stage_timeout, fetch_failure, race_result, interrupt,
  restore_sources, script_deadline_of, script_limits, plan_of, with_deadline, with_timeout,
  with_failure, with_fetched, with_start, job_timeout, run_job_steps,
}
use turboci.Executor.Steps.Deadlines.{timed, Times, Started, run_steps-timed}

module _ (job : Job) (timeout start : ℕ) where
  abbrev S : {A : Type 0} → Times → A → Type 0
  S = Started start

  parsed_stage-timed :
      (b : ℕ) (ext : Externals) (key raw : Bytes) (parsed : Option ℕ)
      → Keeps (timed job timeout) S (some (start, b)) (parsed_stage ext key raw parsed)
  unfolding parsed_stage
  parsed_stage-timed b ext key raw none = (tt, λ x e. (b, refl))
  parsed_stage-timed b ext key raw (some t) = (b, refl)

  parse_stage-timed :
      (b : ℕ) (ext : Externals) (key text : Bytes)
      → Keeps (timed job timeout) S (some (start, b)) (parse_stage ext key text)
  unfolding parse_stage
  parse_stage-timed b ext key [] = (b, refl)
  parse_stage-timed b ext key (c ∷ t) =
      parsed_stage-timed b ext key (c ∷ t) (ext.parse_duration (c ∷ t))

  stage_of-timed :
      (b : ℕ) (ext : Externals) (key : Bytes) (value : Option Bytes)
      → Keeps (timed job timeout) S (some (start, b)) (stage_of ext key value)
  unfolding stage_of
  stage_of-timed b ext key none = (b, refl)
  stage_of-timed b ext key (some value) = parse_stage-timed b ext key (trim value)

  -- The script steps' deadline is also bounded.
  abbrev Shortened : Times → ℕ → Type 0
  Shortened times d = (last : ℕ) × (times ≡ some (start, last)) × (d ≤ start + timeout)

  shortened_bound : (d : ℕ) (o : Option ℕ) → elim o [ none ↦ d | some e ↦ min d e ] ≤ d
  shortened_bound d none = omega arith
  shortened_bound d (some e) = omega arith

  script_deadline_of-timed :
      (b : ℕ) (ext : Externals) (t : Option ℕ)
      → Keeps
          (timed job timeout)
          Shortened
          (some (start, b))
          (script_deadline_of ext (start + timeout) t)
  unfolding script_deadline_of
  script_deadline_of-timed b ext none = (b, refl, omega arith)
  script_deadline_of-timed b ext (some t) =
      (tt, λ at e. (at, refl, shortened_bound (start + timeout) (checked_add ext at t)))

  module _ (ext : Externals) (dirs : JobDirs) where
    with_deadline-timed :
        (b : ℕ) (failure : JobOutcome) (script_deadline : ℕ)
        → script_deadline ≤ start + timeout
        → Keeps
            (timed job timeout)
            S
            (some (start, b))
            (with_deadline ext job dirs timeout (start + timeout) failure script_deadline)
    unfolding with_deadline stage_timeout plan_of
    with_deadline-timed b failure script_deadline d =
        let key = codes "RUNNER_AFTER_SCRIPT_TIMEOUT" in
        Keeps-bind (timed job timeout) S S (some (start, b)) (stage_timeout ext job key) _
          (stage_of-timed b ext key (variable_value job key))
          (λ t after_timeout h. rw h.1 (
            run_steps-timed timeout start ext job dirs
              (plan_of timeout (start + timeout) script_deadline after_timeout) refl d h.0 job.steps
              failure (λ step m. m)))

    with_timeout-timed :
        (b : ℕ) (failure : JobOutcome) (script_timeout : Option ℕ)
        → Keeps
            (timed job timeout)
            S
            (some (start, b))
            (with_timeout ext job dirs timeout (start + timeout) failure script_timeout)
    unfolding with_timeout
    with_timeout-timed b failure script_timeout =
        Keeps-bind (timed job timeout) Shortened S (some (start, b))
          (script_deadline_of ext (start + timeout) script_timeout) _
          (script_deadline_of-timed b ext script_timeout)
          (λ t d h. rw h.1 (with_deadline-timed h.0 failure d h.2))

    with_failure-timed :
        (b : ℕ) (failure : JobOutcome)
        → Keeps
            (timed job timeout)
            S
            (some (start, b))
            (with_failure ext job dirs timeout (start + timeout) failure)
    unfolding with_failure stage_timeout
    with_failure-timed b failure =
        let key = codes "RUNNER_SCRIPT_TIMEOUT" in
        Keeps-bind (timed job timeout) S S (some (start, b)) (stage_timeout ext job key) _
          (stage_of-timed b ext key (variable_value job key))
          (λ t script_timeout h. rw h.1 (with_timeout-timed h.0 failure script_timeout))

    race_timed :
        (b : ℕ) (race : Race)
        → Keeps (timed job timeout) S (some (start, b)) (race_result timeout race)
    unfolding race_result interrupt
    race_timed b (restored r) = (b, refl)
    race_timed b deadline_passed = (tt, λ x e. (b, refl))
    race_timed b cancel_reached = (tt, λ x e. (b, refl))

    restore_timed :
        (b : ℕ) (failure : JobOutcome)
        → Keeps
            (timed job timeout)
            S
            (some (start, b))
            (restore_sources timeout (script_limits (start + timeout)) failure)
    unfolding restore_sources script_limits
    restore_timed b (some f) = (b, refl)
    restore_timed b none = (omega arith, λ race e. race_timed b race)

    with_fetched-timed :
        (fetched : Fetched)
        → Keeps
            (timed job timeout)
            S
            (some (start, start))
            (with_fetched ext job dirs timeout (start + timeout) fetched)
    unfolding with_fetched
    with_fetched-timed fetched = (
      tt,
      λ x e.
          Keeps-bind (timed job timeout) S S (some (start, start))
            (restore_sources timeout (script_limits (start + timeout))
              (fetch_failure timeout fetched))
            _ (restore_timed start (fetch_failure timeout fetched))
            (λ t failure h. rw h.1 (with_failure-timed h.0 failure)),
    )

    with_start-timed :
        Keeps (timed job timeout) S (some (start, start)) (with_start ext job dirs timeout start)
    unfolding with_start script_limits
    with_start-timed = (
      tt,
      λ x e.
          let limits = script_limits (start + timeout) in
          Keeps-bind (timed job timeout) (λ t r. t ≡ some (start, start)) S (some (start, start))
            (get_sources ext job dirs limits) _
            (get_sources_unseen (timed job timeout) (some (start, start)) limits (λ text. tt)
              (λ text x. refl) (λ text dir. omega arith) (λ text dir x. refl) ext job dirs)
            (λ t fetched h. rw h (with_fetched-timed fetched)),
    )

-- No script of a job runs on for ever: the sources, the restore and the script steps are given a
-- deadline no later than the job's timeout after its start, whatever the stage timeouts say, and
-- `after_script` one no later than that or five minutes after its own start. A script is that of
-- `after_script` exactly if the step whose lines it has is called so.
pub scripts_bounded :
    (ext : Externals) (job : Job) (dirs : JobDirs)
    → Keeps (timed job (job_timeout job)) (λ times r. Unit {0}) none (run_job_steps ext job dirs)
unfolding run_job_steps
scripts_bounded ext job dirs = (
  tt,
  λ start e.
      Keeps-weaken (timed job (job_timeout job)) (Started start) (λ times r. Unit {0})
        (some (start, start)) (with_start ext job dirs (job_timeout job) start) (λ t r h. tt)
        (with_start-timed job (job_timeout job) start ext dirs),
)
