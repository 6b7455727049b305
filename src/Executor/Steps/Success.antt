-- ===== src/Executor/Steps/Success.antt =====
-- What the success of `run_job_steps` of src/runner_daemon/executor.rs means.
use turboci.Prelude.{
  ◌≡◌, refl, inl, inr, codes, bytes_eq, Bool, true, false, ◌&&◌, ◌++◌, if◌then◌else◌, List, [], ◌∷◌,
  All, none, some, Bytes,
}
use turboci.Program.{Protocol, Keeps, Keeps-bind, Keeps-if, ◌>>=◌}
use turboci.Cancel.{RemoteState, running, canceling, aborted}
use turboci.Outcome.{is_zero, JobFailure, JobOutcome}
use turboci.Job.{Step, Job}
use turboci.Executor.{
  Action, RunStatus, exited, timed_out, canceled, error, sources, job_scripts, JobDirs, Race,
  restored, deadline_passed, cancel_reached, Op, now, cancel_state, write, section_start,
  section_end, run, restore, stop_restore, Answer, Externals,
}
use turboci.Executor.Steps.Scripts.{OfStep, Own, Listed, step_text-OfStep}
use turboci.Executor.Steps.{
  Plan, canceled_failure, or_insert, is_after_script, should_run, is_running, is_aborted,
  check_running, step_limits, after_status, script_status, warn, match_status, run_as, run_lines,
  step_body, round, run_steps,
}

abbrev pub is_success : RunStatus → Bool
is_success (exited code) = is_zero code
is_success timed_out = false
is_success canceled = false
is_success (error e) = false

abbrev script_success : RemoteState → RunStatus → Bool
script_success running status = is_success status
script_success canceling status = is_success status
script_success aborted status = true

abbrev pub is_restored : Race → Bool
is_restored (restored none) = true
is_restored (restored (some f)) = false
is_restored deadline_passed = false
is_restored cancel_reached = false

-- Whether the answer is good: the job is not aborted, the restore ends without a failure, and a
-- script exits with 0, if its limits are not those of `after_script`.
abbrev pub is_good : (op : Op) → Answer op → Bool
is_good now x = true
is_good cancel_state running = true
is_good cancel_state canceling = true
is_good cancel_state aborted = false
is_good (write text) x = true
is_good (section_start name header) x = true
is_good (section_end name) x = true
is_good (run sources text dir limits) x = true
is_good (run job_scripts text dir limits) x = script_success limits.stop_at x
is_good (restore limits) x = is_restored x
is_good (stop_restore grace) x = true

-- Every script of the job's own runner is one of a step of the job.
abbrev pub RunsStep : Job → Op → Type 0
RunsStep job now = Unit {0}
RunsStep job cancel_state = Unit {0}
RunsStep job (write text) = Unit {0}
RunsStep job (section_start name header) = Unit {0}
RunsStep job (section_end name) = Unit {0}
RunsStep job (run sources text dir limits) = Unit {0}
RunsStep job (run job_scripts text dir limits) = OfStep job text limits.stop_at
RunsStep job (restore limits) = Unit {0}
RunsStep job (stop_restore grace) = Unit {0}

-- The summary: whether all answers so far are good.
abbrev pub good : Job → Protocol Op Answer Bool
good job = record {
  allowed = λ s op. RunsStep job op;
  expected = λ s op x. Unit {0};
  next = λ s op x. is_good op x && s;
}

-- Success is reported only for good answers.
abbrev pub Accounted : Bool → JobOutcome → Type 0
Accounted s none = s ≡ true
Accounted s (some f) = Unit {0}

inserted : (s : Bool) (failure : JobOutcome) (f : JobFailure) → Accounted s (or_insert failure f)
unfolding or_insert
inserted s none f = tt
inserted s (some g) f = tt

abbrev pub Unseen : {A : Type 0} → Bool → Bool → A → Type 0
Unseen s t r = t ≡ s

module _ (ext : Externals) (job : Job) (dirs : JobDirs) (plan : Plan) where
  after_status-good :
      (s : Bool) (step : Step) (failure : JobOutcome) (status : RunStatus)
      → Accounted s failure
      → Keeps (good job) Accounted s (after_status step failure status)
  unfolding after_status warn
  after_status-good s step failure (exited code) h =
      Keeps-if (good job) Accounted s (is_zero code) _ _ (λ e. h) (λ e. (tt, λ x e. h))
  after_status-good s step failure timed_out h = (tt, λ x e. h)
  after_status-good s step failure canceled h = (tt, λ x e. h)
  after_status-good s step failure (error t) h = (tt, λ x e. h)

  script_status-good :
      (s : Bool) (step : Step) (failure : JobOutcome) (status : RunStatus)
      → step.allow_failure ≡ false
      → Accounted s failure
      → Keeps (good job) Accounted (is_success status && s) (script_status plan step failure status)
  unfolding script_status warn
  script_status-good s step failure (exited code) a h =
      Keeps-if (good job) Accounted (is_zero code && s) (is_zero code) _ _ (λ e. rw e h)
        (λ e.
          Keeps-if (good job) Accounted (is_zero code && s) step.allow_failure _ _ (λ e. cc)
            (λ e. inserted _ failure _))
  script_status-good s step failure timed_out a h = inserted _ failure _
  script_status-good s step failure canceled a h = inserted _ failure _
  script_status-good s step failure (error t) a h = inserted _ failure _

  run_as-good :
      (s : Bool) (step : Step) (failure : JobOutcome) (lines : List Bytes) (is_after : Bool)
      → step.allow_failure ≡ false
      → Own job step lines
      → bytes_eq step.name (codes "after_script") ≡ is_after
      → Accounted s failure
      → Keeps (good job) Accounted s (run_as ext job dirs plan step failure lines is_after)
  unfolding run_as step_limits match_status
  run_as-good s step failure lines true a own named h = (
    tt,
    λ x e. (
      tt,
      λ at e. (
        step_text-OfStep job step true failure lines aborted own named refl,
        λ status e.
            Keeps-bind (good job) Accounted Accounted s _ _
              (after_status-good s step failure status h) (λ t r h. (tt, λ x e. h)),
      ),
    ),
  )
  run_as-good s step failure lines false a own named h = (
    tt,
    λ x e. (
      step_text-OfStep job step false failure lines canceling own named refl,
      λ status e.
          Keeps-bind (good job) Accounted Accounted _ _ _
            (script_status-good s step failure status a h) (λ t r h. (tt, λ x e. h)),
    ),
  )

  run_lines-good :
      (s : Bool) (step : Step) (failure : JobOutcome) (lines : List Bytes)
      → step.allow_failure ≡ false
      → Own job step lines
      → Accounted s failure
      → Keeps (good job) Accounted s (run_lines ext job dirs plan step failure lines)
  unfolding run_lines is_after_script
  run_lines-good s step failure [] a own h = h
  run_lines-good s step failure (line ∷ lines) a own h =
      run_as-good s step failure (line ∷ lines) (is_after_script step) a own refl h

  step_body-good :
      (s : Bool) (step : Step) (failure : JobOutcome)
      → step.allow_failure ≡ false
      → Listed step job.steps
      → Accounted s failure
      → Keeps (good job) Accounted s (step_body ext job dirs plan step failure)
  unfolding step_body
  step_body-good s step failure a l h =
      Keeps-if (good job) Accounted s (should_run step.when failure) _ _
        (λ e. run_lines-good s step failure (step.before_script ++ step.script) a (l, refl) h)
        (λ e. h)

  state_good :
      (s : Bool) (failure : JobOutcome) (state : RemoteState)
      → Accounted s failure
      → Accounted
          (is_good cancel_state state && s)
          (if is_running state then failure else or_insert failure canceled_failure)
  unfolding is_running
  state_good s failure running h = h
  state_good s failure canceling h = inserted _ failure _
  state_good s failure aborted h = inserted _ failure _

  check_running-good :
      (s : Bool) (step : Step) (failure : JobOutcome)
      → Accounted s failure
      → Keeps (good job) Accounted s (check_running step failure)
  unfolding check_running
  check_running-good s step failure h =
      Keeps-if (good job) Accounted s (is_after_script step) _ _ (λ e. h)
        (λ e. (tt, λ state e. state_good s failure state h))

  again_good :
      (s : Bool) (step : Step) (failure : JobOutcome) (again : JobOutcome → Action JobOutcome)
      → step.allow_failure ≡ false
      → Listed step job.steps
      → ((t : Bool) (r : JobOutcome) → Accounted t r → Keeps (good job) Accounted t (again r))
      → Accounted s failure
      → Keeps
          (good job)
          Accounted
          s
          (check_running step failure >>= step_body ext job dirs plan step >>= again)
  again_good s step failure again a l g h =
      Keeps-bind (good job) Accounted Accounted s _ _
        (Keeps-bind (good job) Accounted Accounted s _ _ (check_running-good s step failure h)
          (λ t r h. step_body-good t step r a l h))
        g

  round_good :
      (s : Bool) (step : Step) (failure : JobOutcome) (again : JobOutcome → Action JobOutcome)
      (state : RemoteState)
      → step.allow_failure ≡ false
      → Listed step job.steps
      → ((t : Bool) (r : JobOutcome) → Accounted t r → Keeps (good job) Accounted t (again r))
      → Accounted s failure
      → Keeps
          (good job)
          Accounted
          (is_good cancel_state state && s)
          (round ext job dirs plan step failure again state)
  unfolding round is_aborted
  round_good s step failure again running a l g h = again_good s step failure again a l g h
  round_good s step failure again canceling a l g h = again_good s step failure again a l g h
  round_good s step failure again aborted a l g h = inserted _ failure _

  pub run_steps-good :
      (s : Bool) (steps : List Step) (failure : JobOutcome)
      → All (λ step. step.allow_failure ≡ false) steps
      → ((step : Step) → Listed step steps → Listed step job.steps)
      → Accounted s failure
      → Keeps (good job) Accounted s (run_steps ext job dirs plan steps failure)
  unfolding run_steps
  run_steps-good s [] failure a l h = h
  run_steps-good s (step ∷ steps) failure a l h = (
    tt,
    λ state e.
        round_good s step failure (run_steps ext job dirs plan steps) state a.0 (l step (inl refl))
          (λ t r h. run_steps-good t steps r a.1 (λ x m. l x (inr m)) h) h,
  )
