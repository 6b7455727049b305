-- ===== src/Executor/Workspace.antt =====
-- `workspace` of src/runner_daemon/executor.rs: the directory of a job below the builds root.
pub mod Isolation
use turboci.Prelude.{
  ℕ, ◌≡◌, refl, Bool, true, false, if◌then◌else◌, List, [], ◌∷◌, ◌++◌, Option, none, some, Bytes,
  codes, arith,
}
use turboci.Text.Number.{to_decimal}
use turboci.Job.{GitInfo, Job, project_id}

abbrev pub protected_of : Option GitInfo → Option Bool
protected_of none = none
protected_of (some info) = info.protected

unfoldable pub shared_name : ℕ → ℕ → Bool → Bytes
shared_name project slot is_protected =
    codes "project-"
    ++ (to_decimal project
        ++ b'-' ∷ (to_decimal slot ++ (if is_protected then codes "-protected" else [])))

unfoldable pub own_name : ℕ → Bytes
own_name id = codes "job-" ++ to_decimal id

unfoldable pub workspace_for : Job → Option Bool → Bytes × Bool
workspace_for job (some is_protected) =
    (shared_name (project_id job) job.project_slot is_protected, true)
workspace_for job none = (own_name job.id, false)

-- The name, and whether a later job may use the directory again.
unfoldable pub workspace : Job → Bytes × Bool
unfolding workspace_for
workspace job = workspace_for job (protected_of job.git_info)
