-- ===== src/Executor/JobSteps/Success.antt =====
-- What the success of `run_job_steps` of src/runner_daemon/executor.rs means.
use turboci.Prelude.{◌≡◌, ℕ, false, All}
use turboci.Job.{Job}
use turboci.Executor.{JobDirs, Externals}

module _ (ext : Externals) (job : Job) (dirs : JobDirs) (timeout deadline : ℕ) where
  abbrev NoneMayFail : Type 0
  NoneMayFail = All (λ step. step.allow_failure ≡ false) job.steps
