-- ===== src/Git/Checkout.antt =====
-- `checkout_script` of src/runner_daemon/git.rs: the lines that the shell runs.
use turboci.Prelude.{
  Bool, true, false, ◌&&◌, if◌then◌else◌, List, [], ◌∷◌, ◌++◌, Option, none, some, Bytes, codes,
}
use turboci.Job.{Variable, GitInfo}
use turboci.Script.{quote, argv_line}
use turboci.Git.{
  GitStrategy, fetch, clone, no_sources, empty, SubmoduleStrategy, no_submodules, normal, recursive,
  submodule_strategy, checkout_commands, update_commands,
}

lines_of : List (List Bytes) → Bytes
lines_of [] = []
lines_of (argv ∷ commands) = argv_line argv ++ (codes "\n" ++ lines_of commands)

-- `join(" && ")` of the lines.
chain_of : List (List Bytes) → Bytes
chain_of [] = []
chain_of (argv ∷ []) = argv_line argv
chain_of (argv ∷ next ∷ commands) = argv_line argv ++ (codes " && " ++ chain_of (next ∷ commands))

-- The lines that try to update the checkout of an earlier job.
reuse_lines : Bytes → List (List Bytes) → Bytes
unfolding chain_of
reuse_lines dest update =
    let git_dir = quote (dest ++ codes "/.git") in
    codes "updated=0\nif [ -d "
    ++ (git_dir
        ++ (codes " ] && [ ! -e "
            ++ (git_dir
                ++ (codes "/modules ]; then\necho 'Reusing the checkout of an earlier job'\nif "
                    ++ (chain_of update
                        ++ codes
                            "; then updated=1; else echo 'WARNING: Updating the earlier checkout failed, cloning again'; fi\nfi\nif [ \"$updated\" = 0 ]; then\n")))))

is_fetch : GitStrategy → Bool
is_fetch fetch = true
is_fetch clone = false
is_fetch no_sources = false
is_fetch empty = false

has_no_submodules : SubmoduleStrategy → Bool
has_no_submodules no_submodules = true
has_no_submodules normal = false
has_no_submodules recursive = false

pub is_reused : GitStrategy → List Variable → Bool
unfolding is_fetch has_no_submodules
is_reused s variables = is_fetch s && has_no_submodules (submodule_strategy variables)

-- The lines that clone.
pub clone_lines : Bytes → List (List Bytes) → Bytes
unfolding lines_of
clone_lines dest fresh =
    argv_line (codes "rm" ∷ codes "-rf" ∷ dest ∷ []) ++ (codes "\n" ++ lines_of fresh)

pub checkout_script : GitInfo → List Variable → Bytes → GitStrategy → Option Bytes
unfolding reuse_lines clone_lines is_reused
checkout_script g variables dest s = elim (checkout_commands g variables dest) [
  | none ↦ none
  | some fresh ↦
      if is_reused s variables
      then elim (update_commands g variables dest) [
        | none ↦ none
        | some update ↦ some (reuse_lines dest update ++ (clone_lines dest fresh ++ codes "fi\n"))
      ]
      else some (clone_lines dest fresh)
]
