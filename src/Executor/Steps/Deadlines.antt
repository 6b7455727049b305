-- ===== src/Executor/Steps/Deadlines.antt =====
-- How long the scripts of `run_job_steps` of src/runner_daemon/executor.rs may take.
use turboci.Prelude.{
  ◌≡◌, refl, inl, inr, codes, bytes_eq, ℕ, ◌+◌, ◌≤◌, max, Bool, true, false, ◌++◌, List, [], ◌∷◌,
  Option, none, some, Bytes, arith,
}
use turboci.Program.{Protocol, Keeps, Keeps-bind, Keeps-if}
use turboci.Cancel.{RemoteState, running, canceling, aborted}
use turboci.Outcome.{is_zero, JobOutcome}
use turboci.Job.{Step, Job}
use turboci.Executor.{
  default_after_script_timeout, checked_add, RunStatus, exited, timed_out, canceled, error, sources,
  job_scripts, JobDirs, Op, now, cancel_state, write, section_start, section_end, run, restore,
  stop_restore, Answer, Externals,
}
use turboci.Executor.Steps.Scripts.{OfStep, Own, Listed, step_text-OfStep}
use turboci.Executor.Steps.{
  Plan, is_after_script, should_run, is_aborted, check_running, wanted_time, after_deadline,
  step_limits, after_status, script_status, warn, match_status, run_as, run_lines, step_body, round,
  run_steps,
}

-- The first and the last time that the job read from the clock.
abbrev pub Times : Type 0
Times = Option (ℕ × ℕ)

abbrev pub job_end : ℕ → Times → ℕ
job_end timeout none = 0
job_end timeout (some (start, last)) = start + timeout

abbrev pub grace_end : ℕ → Times → ℕ
grace_end timeout none = 0
grace_end timeout (some (start, last)) = max (start + timeout) (last + default_after_script_timeout)

abbrev script_end : ℕ → Times → RemoteState → ℕ
script_end timeout times running = job_end timeout times
script_end timeout times canceling = job_end timeout times
script_end timeout times aborted = grace_end timeout times

-- What is bounded: the sources, the restore and the script steps by the job's timeout, and
-- `after_script`, which only an abort stops, by that or by five minutes from its start, whichever is
-- later. Every script of the job's own runner is one of a step of the job, and has the limits of
-- `after_script` exactly if the step is called so.
abbrev pub InTime : Job → ℕ → Times → Op → Type 0
InTime job timeout times now = Unit {0}
InTime job timeout times cancel_state = Unit {0}
InTime job timeout times (write text) = Unit {0}
InTime job timeout times (section_start name header) = Unit {0}
InTime job timeout times (section_end name) = Unit {0}
InTime job timeout times (run sources text dir limits) = limits.deadline ≤ job_end timeout times
InTime job timeout times (run job_scripts text dir limits) =
    (limits.deadline ≤ script_end timeout times limits.stop_at) × OfStep job text limits.stop_at
InTime job timeout times (restore limits) = limits.deadline ≤ job_end timeout times
InTime job timeout times (stop_restore grace) = Unit {0}

abbrev clock_read : ℕ → Times → Times
clock_read x none = some (x, x)
clock_read x (some (start, last)) = some (start, x)

abbrev pub read : Times → (op : Op) → Answer op → Times
read times now x = clock_read x times
read times cancel_state x = times
read times (write text) x = times
read times (section_start name header) x = times
read times (section_end name) x = times
read times (run runner text dir limits) x = times
read times (restore limits) x = times
read times (stop_restore grace) x = times

abbrev pub timed : Job → ℕ → Protocol Op Answer Times
timed job timeout = record {
  allowed = InTime job timeout;
  expected = λ times op x. Unit {0};
  next = read;
}

-- The job has started at `start`.
abbrev pub Started : {A : Type 0} → ℕ → Times → A → Type 0
Started start times r = (last : ℕ) × (times ≡ some (start, last))

after_deadline_bound :
    (ext : Externals) (plan : Plan) (at wanted : ℕ)
    → after_deadline ext plan at wanted ≤ max plan.deadline (at + default_after_script_timeout)
unfolding after_deadline checked_add
after_deadline_bound ext plan at wanted = ground arith

module _ (timeout start : ℕ) where
  abbrev S : {A : Type 0} → Times → A → Type 0
  S = Started start

  module _ (ext : Externals) (job : Job) (dirs : JobDirs) (plan : Plan)
      (ends : plan.deadline ≡ start + timeout)
      (script_ends : plan.script_deadline ≤ start + timeout) where
    after_status-timed :
        (b : ℕ) (step : Step) (failure : JobOutcome) (status : RunStatus)
        → Keeps (timed job timeout) S (some (start, b)) (after_status step failure status)
    unfolding after_status warn
    after_status-timed b step failure (exited code) =
        Keeps-if (timed job timeout) S (some (start, b)) (is_zero code) _ _ (λ e. (b, refl))
          (λ e. (tt, λ x e. (b, refl)))
    after_status-timed b step failure timed_out = (tt, λ x e. (b, refl))
    after_status-timed b step failure canceled = (tt, λ x e. (b, refl))
    after_status-timed b step failure (error t) = (tt, λ x e. (b, refl))

    script_status-timed :
        (b : ℕ) (step : Step) (failure : JobOutcome) (status : RunStatus)
        → Keeps (timed job timeout) S (some (start, b)) (script_status plan step failure status)
    unfolding script_status warn
    script_status-timed b step failure (exited code) =
        Keeps-if (timed job timeout) S (some (start, b)) (is_zero code) _ _ (λ e. (b, refl))
          (λ e.
            Keeps-if (timed job timeout) S (some (start, b)) step.allow_failure _ _
              (λ e. (tt, λ x e. (b, refl))) (λ e. (b, refl)))
    script_status-timed b step failure timed_out = (b, refl)
    script_status-timed b step failure canceled = (b, refl)
    script_status-timed b step failure (error t) = (b, refl)

    run_as-timed :
        (b : ℕ) (step : Step) (failure : JobOutcome) (lines : List Bytes) (is_after : Bool)
        → Own job step lines
        → bytes_eq step.name (codes "after_script") ≡ is_after
        → Keeps
            (timed job timeout)
            S
            (some (start, b))
            (run_as ext job dirs plan step failure lines is_after)
    unfolding run_as step_limits match_status
    run_as-timed b step failure lines true own named = (
      tt,
      λ x e. (
        tt,
        λ at e. (
          (
            omega (
              arith,
              after_deadline_bound ext plan at (wanted_time plan.after_script_timeout step.timeout),
              ends,
            ),
            step_text-OfStep job step true failure lines aborted own named refl,
          ),
          λ status e.
              Keeps-bind (timed job timeout) S S (some (start, at)) _ _
                (after_status-timed at step failure status) (λ t r h. (tt, λ x e. h)),
        ),
      ),
    )
    run_as-timed b step failure lines false own named = (
      tt,
      λ x e. (
        (script_ends, step_text-OfStep job step false failure lines canceling own named refl),
        λ status e.
            Keeps-bind (timed job timeout) S S (some (start, b)) _ _
              (script_status-timed b step failure status) (λ t r h. (tt, λ x e. h)),
      ),
    )

    run_lines-timed :
        (b : ℕ) (step : Step) (failure : JobOutcome) (lines : List Bytes)
        → Own job step lines
        → Keeps
            (timed job timeout)
            S
            (some (start, b))
            (run_lines ext job dirs plan step failure lines)
    unfolding run_lines is_after_script
    run_lines-timed b step failure [] own = (b, refl)
    run_lines-timed b step failure (line ∷ lines) own =
        run_as-timed b step failure (line ∷ lines) (is_after_script step) own refl

    step_body-timed :
        (b : ℕ) (step : Step) (failure : JobOutcome)
        → Listed step job.steps
        → Keeps (timed job timeout) S (some (start, b)) (step_body ext job dirs plan step failure)
    unfolding step_body
    step_body-timed b step failure l =
        Keeps-if (timed job timeout) S (some (start, b)) (should_run step.when failure) _ _
          (λ e. run_lines-timed b step failure (step.before_script ++ step.script) (l, refl))
          (λ e. (b, refl))

    check_running-timed :
        (b : ℕ) (step : Step) (failure : JobOutcome)
        → Keeps (timed job timeout) S (some (start, b)) (check_running step failure)
    unfolding check_running
    check_running-timed b step failure =
        Keeps-if (timed job timeout) S (some (start, b)) (is_after_script step) _ _ (λ e. (b, refl))
          (λ e. (tt, λ state e. (b, refl)))

    pub run_steps-timed :
        (b : ℕ) (steps : List Step) (failure : JobOutcome)
        → ((step : Step) → Listed step steps → Listed step job.steps)
        → Keeps (timed job timeout) S (some (start, b)) (run_steps ext job dirs plan steps failure)
    unfolding run_steps round
    run_steps-timed b [] failure l = (b, refl)
    run_steps-timed b (step ∷ steps) failure l = (
      tt,
      λ state e.
          Keeps-if (timed job timeout) S (some (start, b)) (is_aborted state) _ _ (λ e. (b, refl))
            (λ e.
              Keeps-bind (timed job timeout) S S (some (start, b)) _ _
                (Keeps-bind (timed job timeout) S S (some (start, b)) _ _
                  (check_running-timed b step failure)
                  (λ t r h. rw h.1 (step_body-timed h.0 step r (l step (inl refl)))))
                (λ t r h. rw h.1 (run_steps-timed h.0 steps r (λ x m. l x (inr m))))),
    )
