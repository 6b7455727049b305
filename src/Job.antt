-- ===== src/Job.antt =====
-- The job that GitLab sends: the structures of src/gitlab/mod.rs. A JSON value that the runner only
-- passes on is not modelled, nor is a field that nothing modelled reads; of `artifacts_file` only
-- its presence counts.
use turboci.Prelude.{
  [], ◌∷◌, bytes_eq, ℕ, Bool, ◌==◌, if◌then◌else◌, List, Option, none, some, Bytes,
}

pub record Variable : Type 0 where
  pub key : Bytes
  pub value : Option Bytes
  pub public : Bool
  pub masked : Bool
  pub raw : Bool
  pub file : Bool
  pub internal : Bool

pub record Step : Type 0 where
  pub name : Bytes
  pub script : List Bytes
  pub before_script : List Bytes
  pub after_script : List Bytes
  pub timeout : ℕ
  pub when : Bytes
  pub allow_failure : Bool

pub record Image : Type 0 where
  pub name : Bytes
  pub entrypoint : Option (List Bytes)
  pub pull_policy : List Bytes

pub record Service : Type 0 where
  pub name : Bytes
  pub alias : Option Bytes
  pub entrypoint : Option (List Bytes)
  pub command : Option (List Bytes)
  pub pull_policy : List Bytes
  pub variables : List Variable

pub record Artifact : Type 0 where
  pub name : Option Bytes
  pub untracked : Bool
  pub paths : List Bytes
  pub exclude : List Bytes
  pub when : Option Bytes
  pub expire_in : Option Bytes
  pub artifact_type : Option Bytes
  pub artifact_format : Option Bytes

pub record Cache : Type 0 where
  pub key : Bytes
  pub untracked : Option Bool
  pub paths : List Bytes
  pub policy : Bytes
  pub when : Option Bytes
  pub fallback_keys : List Bytes

pub record Credential : Type 0 where
  pub cred_type : Bytes
  pub url : Bytes
  pub username : Bytes
  pub password : Bytes

pub record Dependency : Type 0 where
  pub id : ℕ
  pub name : Bytes
  pub token : Bytes
  pub has_artifacts_file : Bool

pub record JobInfo : Type 0 where
  pub id : ℕ
  pub name : Bytes
  pub stage : Bytes
  pub project_id : ℕ
  pub project_name : Bytes

pub record GitInfo : Type 0 where
  pub repo_url : Bytes
  pub ref_name : Bytes
  pub ref_type : Bytes
  pub sha : Bytes
  pub before_sha : Bytes
  pub depth : Option ℕ
  pub refspecs : List Bytes
  pub repo_object_format : Option Bytes
  pub protected : Option Bool

pub record RunnerVariables : Type 0 where
  pub timeout : Option ℕ

-- An entry of `hooks`, a JSON value: none stands for a member that is missing or of another type.
pub record Hook : Type 0 where
  pub name : Option Bytes
  pub script : Option (List (Option Bytes))

pub record Job : Type 0 where
  pub id : ℕ
  pub token : Bytes
  pub allow_git_fetch : Bool
  pub job_info : Option JobInfo
  pub git_info : Option GitInfo
  pub runner_info : Option RunnerVariables
  pub variables : List Variable
  pub steps : List Step
  pub image : Option Image
  pub services : List Service
  pub artifacts : Option (List Artifact)
  pub cache : List Cache
  pub credentials : List Credential
  pub dependencies : List Dependency
  pub timeout : ℕ
  pub hooks : List Hook
  pub project_slot : ℕ

abbrev runner_timeout : Option RunnerVariables → Option ℕ
runner_timeout none = none
runner_timeout (some info) = info.timeout

-- `Job::timeout_secs`: the runner's timeout, else the job's own; 0 is no timeout.
unfoldable pub timeout_secs : Job → Option ℕ
timeout_secs job =
    let secs : ℕ = elim (runner_timeout job.runner_info) [
      | none ↦ job.timeout
      | some secs ↦ secs
    ] in
    if secs == 0 then none else some secs

unfoldable pub project_id : Job → ℕ
project_id job = elim job.job_info [ none ↦ 0 | some info ↦ info.project_id ]

-- The value of the last variable of the name, if it has one.
unfoldable pub last_value : List Variable → Bytes → Option (Option Bytes)
last_value [] key = none
last_value (v ∷ vs) key = elim (last_value vs key) [
  | some value ↦ some value
  | none ↦ if bytes_eq v.key key then some v.value else none
]

unfoldable pub not_empty : Bytes → Option Bytes
not_empty [] = none
not_empty (c ∷ t) = some (c ∷ t)
