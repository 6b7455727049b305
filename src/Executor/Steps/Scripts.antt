-- ===== src/Executor/Steps/Scripts.antt =====
-- Which step of src/runner_daemon/executor.rs a script of the job's own runner belongs to, by the
-- step's name and lines.
use turboci.Prelude.{
  ◌≡◌, refl, sym, ap, ◌∙◌, append_assoc, Bool, true, false, if◌then◌else◌, ◌⊎◌, List, [], ◌∷◌, ◌++◌,
  Bytes, codes, bytes_eq,
}
use turboci.Cancel.{RemoteState, running, canceling, aborted}
use turboci.Outcome.{JobOutcome}
use turboci.Job.{Step, Job}
use turboci.Script.{step_script}
use turboci.Executor.{variable_value}
use turboci.Executor.Steps.{step_text, job_status, is_value}

abbrev pub Listed : Step → List Step → Type 0
Listed step [] = ⊥
Listed step (s ∷ steps) = (s ≡ step) ⊎ Listed step steps

-- Only an abort stops the script.
abbrev pub only_aborted : RemoteState → Bool
only_aborted running = false
only_aborted canceling = false
only_aborted aborted = true

-- The script is that of one of the job's steps, with the step's lines at its end, and has the limits
-- of `after_script` exactly if the step has that name.
abbrev pub OfStep : Job → Bytes → RemoteState → Type 0
OfStep job text stop_at =
    (step : Step) × (head : Bytes) × Listed step job.steps
    × (text ≡ head ++ step_script (step.before_script ++ step.script))
    × (bytes_eq step.name (codes "after_script") ≡ only_aborted stop_at)

abbrev EndsIn : Bytes → Bytes → Type 0
EndsIn text tail = (head : Bytes) × (text ≡ head ++ tail)

traced_ends : (b : Bool) (text : Bytes) → EndsIn (if b then codes "set -x\n" ++ text else text) text
traced_ends true text = (codes "set -x\n", refl)
traced_ends false text = ([], refl)

longer : (front text tail : Bytes) → EndsIn text tail → EndsIn (front ++ text) tail
longer front text tail h = (front ++ h.0, ap (◌++◌ front) h.1 ∙ sym (append_assoc front h.0 tail))

step_text_ends :
    (job : Job) (is_after : Bool) (failure : JobOutcome) (lines : List Bytes)
    → EndsIn (step_text job is_after failure lines) (step_script lines)
unfolding step_text
step_text_ends job true failure lines =
    longer (codes "export CI_JOB_STATUS=") _ (step_script lines) (
      longer (job_status failure) _ (step_script lines) (
        longer (codes "\n") _ (step_script lines) (
          traced_ends (is_value (codes "true") (variable_value job (codes "CI_DEBUG_TRACE")))
            (step_script lines))))
step_text_ends job false failure lines =
    traced_ends (is_value (codes "true") (variable_value job (codes "CI_DEBUG_TRACE")))
      (step_script lines)

-- The lines of a step of the job.
abbrev pub Own : Job → Step → List Bytes → Type 0
Own job step lines = Listed step job.steps × (lines ≡ step.before_script ++ step.script)

pub step_text-OfStep :
    (job : Job) (step : Step) (is_after : Bool) (failure : JobOutcome) (lines : List Bytes)
    (stop_at : RemoteState)
    → Own job step lines
    → bytes_eq step.name (codes "after_script") ≡ is_after
    → only_aborted stop_at ≡ is_after
    → OfStep job (step_text job is_after failure lines) stop_at
step_text-OfStep job step is_after failure lines stop_at own named stops =
    let ends = step_text_ends job is_after failure lines in
    (
      step,
      ends.0,
      own.0,
      ends.1 ∙ ap (λ (l : List Bytes). ends.0 ++ step_script l) own.1,
      named ∙ sym stops,
    )
