-- ===== src/Executor/Steps/Failures.antt =====
-- A failure that `run_job_steps` of src/runner_daemon/executor.rs has recorded.
use turboci.Prelude.{◌≡◌, refl, Bool, true, false, List, [], ◌∷◌, ◌++◌, if◌then◌else◌, some, Bytes}
use turboci.Program.{Protocol, Keeps, Keeps-bind, Keeps-if, observer}
use turboci.Outcome.{is_zero, JobFailure, JobOutcome}
use turboci.Job.{Step, Job}
use turboci.Executor.{RunStatus, exited, timed_out, canceled, error, JobDirs, Op, Answer, Externals}
use turboci.Executor.Steps.{
  Plan, or_insert, is_after_script, should_run, is_running, is_aborted, check_running, step_limits,
  after_status, script_status, warn, match_status, run_as, run_lines, step_body, round, run_steps,
}

-- A summary that leaves everything out.
abbrev pub silent : Protocol Op Answer (Unit {0})
silent = observer (λ s op x. s)

abbrev pub Stays : JobFailure → Unit {0} → JobOutcome → Type 0
Stays f s r = r ≡ some f

module _ (ext : Externals) (job : Job) (dirs : JobDirs) (plan : Plan) where
  after_status-Stays :
      (step : Step) (f : JobFailure) (status : RunStatus)
      → Keeps silent (Stays f) tt (after_status step (some f) status)
  unfolding after_status warn
  after_status-Stays step f (exited code) =
      Keeps-if silent (Stays f) tt (is_zero code) _ _ (λ e. refl) (λ e. (tt, λ x e. refl))
  after_status-Stays step f timed_out = (tt, λ x e. refl)
  after_status-Stays step f canceled = (tt, λ x e. refl)
  after_status-Stays step f (error t) = (tt, λ x e. refl)

  script_status-Stays :
      (step : Step) (f : JobFailure) (status : RunStatus)
      → Keeps silent (Stays f) tt (script_status plan step (some f) status)
  unfolding script_status or_insert warn
  script_status-Stays step f (exited code) =
      Keeps-if silent (Stays f) tt (is_zero code) _ _ (λ e. refl)
        (λ e.
          Keeps-if silent (Stays f) tt step.allow_failure _ _ (λ e. (tt, λ x e. refl)) (λ e. refl))
  script_status-Stays step f timed_out = refl
  script_status-Stays step f canceled = refl
  script_status-Stays step f (error t) = refl

  run_as-Stays :
      (step : Step) (f : JobFailure) (lines : List Bytes) (is_after : Bool)
      → Keeps silent (Stays f) tt (run_as ext job dirs plan step (some f) lines is_after)
  unfolding run_as step_limits match_status
  run_as-Stays step f lines true = (
    tt,
    λ x e. (
      tt,
      λ at e. (
        tt,
        λ status e.
            Keeps-bind silent (Stays f) (Stays f) tt _ _ (after_status-Stays step f status)
              (λ t r h. (tt, λ x e. h)),
      ),
    ),
  )
  run_as-Stays step f lines false = (
    tt,
    λ x e. (
      tt,
      λ status e.
          Keeps-bind silent (Stays f) (Stays f) tt _ _ (script_status-Stays step f status)
            (λ t r h. (tt, λ x e. h)),
    ),
  )

  run_lines-Stays :
      (step : Step) (f : JobFailure) (lines : List Bytes)
      → Keeps silent (Stays f) tt (run_lines ext job dirs plan step (some f) lines)
  unfolding run_lines
  run_lines-Stays step f [] = refl
  run_lines-Stays step f (line ∷ lines) = run_as-Stays step f (line ∷ lines) (is_after_script step)

  step_body-Stays :
      (step : Step) (f : JobFailure)
      → Keeps silent (Stays f) tt (step_body ext job dirs plan step (some f))
  unfolding step_body
  step_body-Stays step f =
      Keeps-if silent (Stays f) tt (should_run step.when (some f)) _ _
        (λ e. run_lines-Stays step f (step.before_script ++ step.script)) (λ e. refl)

  if-same : (b : Bool) (r : JobOutcome) → (if b then r else r) ≡ r
  if-same true r = refl
  if-same false r = refl

  check_running-Stays :
      (step : Step) (f : JobFailure) → Keeps silent (Stays f) tt (check_running step (some f))
  unfolding check_running or_insert
  check_running-Stays step f =
      Keeps-if silent (Stays f) tt (is_after_script step) _ _ (λ e. refl)
        (λ e. (tt, λ state e. if-same (is_running state) (some f)))

  -- Once a failure is recorded, no step that runs after it replaces it, nor does an abort: the job
  -- ends with the first failure, whatever the scripts return and the environment does.
  pub first_failure_stands :
      (steps : List Step) (f : JobFailure)
      → Keeps silent (Stays f) tt (run_steps ext job dirs plan steps (some f))
  unfolding run_steps round or_insert
  first_failure_stands [] f = refl
  first_failure_stands (step ∷ steps) f = (
    tt,
    λ state e.
        Keeps-if silent (Stays f) tt (is_aborted state) _ _ (λ e. refl)
          (λ e.
            Keeps-bind silent (Stays f) (Stays f) tt _ _
              (Keeps-bind silent (Stays f) (Stays f) tt _ _ (check_running-Stays step f)
                (λ t r h. rw h (step_body-Stays step f)))
              (λ t r h. rw h (first_failure_stands steps f))),
  )
