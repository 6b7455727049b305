-- ===== src/Daemon.antt =====
-- `RunnerDaemon` of src/runner_daemon/mod.rs, the life of one job: a program of the calls below, which
-- the job log, the executor, the caches, the archives and GitLab answer.
pub mod Life
pub mod Uploads
pub mod Restore
pub mod RunJob
pub mod Tests
use turboci.Prelude.{
  ℕ, zero, suc, min, max, Bool, true, false, not, ◌&&◌, ◌||◌, ltb, if◌then◌else◌, List, [], ◌∷◌,
  ◌++◌, map, Option, none, some, Bytes, codes, bytes_eq,
}
use turboci.Text.{trim, ends_with, starts_with, take_chars}
use turboci.Text.Number.{max_u32, parse_unsigned, to_decimal}
use turboci.Cancel.{RemoteState, Shutdown}
use turboci.Outcome.{ℤ, FailureReason, JobState, JobFailure, JobOutcome}
use turboci.Job.{Variable, Artifact, Cache, Dependency, Job, last_value}
use turboci.Script.{Values, expand}
use turboci.Script.Environment.{RunnerVars, JobEnv, job_env}
use turboci.Client.{ArtifactUpload}
use turboci.Program.{Program}

-- Where a restored archive came from.
pub data Source : Type 0 where
  local_copy not_modified : Source
  downloaded : ℕ → Source

-- `Restore` of the cache, or the text of its error.
pub data Restored : Type 0 where
  restored : Option (Bytes × Source) → List Bytes → Restored
  restore_error : Bytes → Restored

-- How a save ends, or that the job was aborted first; an upload's error is its text.
pub data Saved : Type 0 where
  save_aborted nothing_saved : Saved
  saved : ℕ → Option (Option Bytes) → Saved
  save_error : Bytes → Saved

-- `create_archive`: the file and its length, no file matched, or the text of an error.
pub data Archived : Type 0 where
  no_files : Archived
  archived : Bytes → ℕ → Archived
  archive_error : Bytes → Archived

pub data Untracked : Type 0 where
  files : List Bytes → Untracked
  list_error : Bytes → Untracked

-- The calls of a job. Where an answer is an optional text, it is the error.
pub data Op : Type 0 where
  write : Bytes → Op
  section_start : Bytes → Bytes → Op
  section_end : Bytes → Op
  finish_trace : Op
  cancel_state shutdown_mode : Op
  start_heartbeat stop_heartbeat : Op
  claim_workspace release_workspace : Op
  evict_workspaces : Op
  prepare create_project_dir : Op
  execute : Op
  cleanup : Bool → Op
  untracked_files : Op
  create_archive : List Bytes → List Bytes → Bytes → Op
  upload : ArtifactUpload → Op
  save_cache : Bytes → List Bytes → Op
  restore_cache : List Bytes → Op
  download : ℕ → Bytes → Op
  update_job : JobState → Option FailureReason → Option ℤ → Op

abbrev pub Answer : Op → Type 0
Answer (write text) = Unit
Answer (section_start name header) = Unit
Answer (section_end name) = Unit
Answer finish_trace = Bool
Answer cancel_state = RemoteState
Answer shutdown_mode = Shutdown
Answer start_heartbeat = Unit
Answer stop_heartbeat = Unit
Answer claim_workspace = Unit
Answer release_workspace = Unit
Answer evict_workspaces = Unit
Answer prepare = Option Bytes
Answer create_project_dir = Option Bytes
Answer execute = JobOutcome
Answer (cleanup keep) = Unit
Answer untracked_files = Untracked
Answer (create_archive paths exclude format) = Archived
Answer (upload archive) = Option Bytes
Answer (save_cache key paths) = Saved
Answer (restore_cache keys) = Restored
Answer (download id token) = Option Bytes
Answer (update_job state reason exit_code) = Option Bytes

abbrev pub Action : Type 0 → Type 0
Action A = Program Op Answer A

-- What the code takes from elsewhere: `glob::Pattern::escape`, and a size in megabytes as text.
pub record Externals : Type 0 where
  pub escape : Bytes → Bytes
  pub megabytes : ℕ → Bytes
  pub version : Bytes

-- The runner's configuration, as far as the life of a job reads it.
pub record Config : Type 0 where
  pub cache_enabled : Bool
  pub workspace_max_age_days : ℕ

number_or_one : Option (Option Bytes) → ℕ
number_or_one none = 1
number_or_one (some none) = 1
number_or_one (some (some text)) = elim (parse_unsigned max_u32 text) [ none ↦ 1 | some n ↦ n ]

unfoldable pub attempts : Job → Bytes → ℕ
unfolding number_or_one
attempts job key = max 1 (min 10 (number_or_one (last_value job.variables key)))

unfoldable pub job_variables : Job → Values
job_variables job = (job_env job [] (record { disposable = false; ca_pem = none })).vars

-- An empty key means `default`.
unfoldable pub resolve_key : Bytes → Values → Bytes
resolve_key key variables = elim (trim (expand key variables)) [
  | [] ↦ codes "default"
  | c ∷ t ↦ c ∷ t
]

-- `expand_all`.
unfoldable pub expand_all : Values → List Bytes → List Bytes
expand_all variables [] = []
expand_all variables (item ∷ items) = expand item variables ∷ expand_all variables items

-- Whether something with this `when` happens for a job with this result.
unfoldable pub is_wanted : Option Bytes → Bool → Bool
is_wanted none succeeded = succeeded
is_wanted (some when) succeeded =
    if bytes_eq when (codes "always")
    then true
    else if bytes_eq when (codes "on_failure")
    then not succeeded
    else succeeded

unfoldable pub pushes : Cache → Bool
pushes entry = bytes_eq entry.policy (codes "push") || bytes_eq entry.policy (codes "pull-push")

unfoldable pub pulls : Cache → Bool
pulls entry = bytes_eq entry.policy (codes "pull") || bytes_eq entry.policy (codes "pull-push")

unfoldable pub any_cache : (Cache → Bool) → List Cache → Bool
any_cache f [] = false
any_cache f (entry ∷ entries) = f entry || any_cache f entries

strip_kind : Bytes → Bytes
strip_kind [] = []
strip_kind (a ∷ []) = a ∷ []
strip_kind (a ∷ b ∷ []) = a ∷ b ∷ []
strip_kind (a ∷ b ∷ c ∷ t) =
    if bytes_eq (a ∷ c ∷ []) (codes "t_") && (ltb b'0' b && ltb b b'4') then t else a ∷ b ∷ c ∷ t

strip_first : Bytes → Bytes → Option Bytes
strip_first [] t = some t
strip_first (p ∷ ps) [] = none
strip_first (p ∷ ps) (c ∷ t) =
    let rest = strip_first ps t in if bytes_eq (p ∷ []) (c ∷ []) then rest else none

-- The token without its prefix, cut to 9 characters.
unfoldable pub short_token : Bytes → Bytes
unfolding strip_kind strip_first
short_token token =
    let rest : Bytes = elim (strip_first (codes "glrtr-") token) [
      | some rest ↦ rest
      | none ↦ elim (strip_first (codes "glrt-") token) [ some rest ↦ rest | none ↦ token ]
    ] in
    take_chars 9 (strip_kind rest)
