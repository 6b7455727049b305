-- ===== src/Executor.antt =====
-- src/runner_daemon/executor.rs: what both executors share. The code is a program of the calls
-- below, which the environment answers: the clock, the job's cancel signal, the job log, the
-- scripts' runs and the restore. Times are in nanoseconds.
pub mod Workspace
pub mod Sources
pub mod Steps
pub mod JobSteps
pub mod Tests
use turboci.Prelude.{
  ℕ, zero, suc, ◌+◌, ◌*◌, ◌≤◌, Bool, true, false, leb, if◌then◌else◌, List, [], ◌∷◌, ◌++◌, Option,
  none, some, Bytes, bytes_eq,
}
use turboci.Cancel.{RemoteState}
use turboci.Outcome.{ℤ, JobFailure}
use turboci.Job.{Hook, Job, last_value}
use turboci.Program.{Program}

abbrev pub seconds : ℕ → ℕ
seconds n = n * 1000000000

abbrev pub default_job_timeout : ℕ
default_job_timeout = seconds 3600

abbrev pub default_after_script_timeout : ℕ
default_after_script_timeout = seconds 300

abbrev pub restore_stop_grace : ℕ
restore_stop_grace = seconds 10

-- What `ScriptRunner::run` returns: a status, or an error by its text.
pub data RunStatus : Type 0 where
  exited : ℤ → RunStatus
  timed_out canceled : RunStatus
  error : Bytes → RunStatus

pub record Limits : Type 0 where
  pub deadline : ℕ
  pub stop_at : RemoteState

-- The two runners: the one that gets the sources and the job's own.
pub data Runner : Type 0 where
  sources job_scripts : Runner

pub record JobDirs : Type 0 where
  pub builds : Bytes
  pub project : Bytes

-- How the race between the restore, the deadline and the cancellation ends.
pub data Race : Type 0 where
  restored : Option JobFailure → Race
  deadline_passed : Race
  cancel_reached : Race

pub data Op : Type 0 where
  now : Op
  cancel_state : Op
  write : Bytes → Op
  section_start : Bytes → Bytes → Op
  section_end : Bytes → Op
  run : Runner → Bytes → Bytes → Limits → Op
  restore : Limits → Op
  stop_restore : ℕ → Op

abbrev pub Answer : Op → Type 0
Answer now = ℕ
Answer cancel_state = RemoteState
Answer (write text) = Unit
Answer (section_start name header) = Unit
Answer (section_end name) = Unit
Answer (run runner script dir limits) = RunStatus
Answer (restore limits) = Race
Answer (stop_restore grace) = Unit

abbrev pub Action : Type 0 → Type 0
Action A = Program Op Answer A

-- What the code takes from elsewhere: `{:?}` of a text and of a list of texts, the latest instant
-- of the clock, and `script::parse_duration`, which computes with floats.
pub record Externals : Type 0 where
  pub debug : Bytes → Bytes
  pub debug_list : List Bytes → Bytes
  pub last_instant : ℕ
  pub parse_duration : Bytes → Option ℕ

-- `Instant::checked_add`.
unfoldable pub checked_add : Externals → ℕ → ℕ → Option ℕ
checked_add ext at t = if leb (at + t) ext.last_instant then some (at + t) else none

unfoldable pub variable_value : Job → Bytes → Option Bytes
variable_value job key = elim (last_value job.variables key) [ none ↦ none | some value ↦ value ]

unfoldable pub is_named : Bytes → Option Bytes → Bool
is_named name none = false
is_named name (some given) = bytes_eq given name

unfoldable pub text_lines : List (Option Bytes) → List Bytes
text_lines [] = []
text_lines (none ∷ lines) = text_lines lines
text_lines (some line ∷ lines) = line ∷ text_lines lines

unfoldable pub script_lines : Option (List (Option Bytes)) → List Bytes
script_lines none = []
script_lines (some lines) = text_lines lines

unfoldable pub lines_of_hooks : List Hook → Bytes → List Bytes
unfolding script_lines
lines_of_hooks [] name = []
lines_of_hooks (h ∷ hooks) name =
    let rest = lines_of_hooks hooks name in
    if is_named name h.name then script_lines h.script ++ rest else rest

unfoldable pub hook_lines : Job → Bytes → List Bytes
hook_lines job name = lines_of_hooks job.hooks name
