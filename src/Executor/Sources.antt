-- ===== src/Executor/Sources.antt =====
-- `get_sources` of src/runner_daemon/executor.rs: the hooks and the checkout with its attempts.
pub mod Calls
use turboci.Prelude.{
  ℕ, zero, suc, ◌+◌, ◌-◌, min, max, Bool, true, false, not, ◌&&◌, ltb, if◌then◌else◌, List, [], ◌∷◌,
  ◌++◌, take, Option, none, some, Bytes, codes, bytes_eq,
}
use turboci.Text.{take_chars}
use turboci.Text.Number.{max_u32, parse_unsigned, to_decimal}
use turboci.Outcome.{ℤ, is_zero, signed, script_failure, JobFailure, system}
use turboci.Job.{Variable, GitInfo, Job}
use turboci.Script.{quote, argv_script, step_script, shell_prelude}
use turboci.Git.{
  GitStrategy, fetch, clone, no_sources, empty, strategy, is_commit_sha, begins_with_dash, any_dash,
  flags,
}
use turboci.Git.Checkout.{checkout_script}
use turboci.Executor.{
  RunStatus, exited, error, Limits, sources, JobDirs, write, run, Action, Externals, variable_value,
  hook_lines,
}
use turboci.Program.{done, ask, ◌>>=◌, ◌>>◌}

pub data RunError : Type 0 where
  timed_out canceled : RunError
  failed : JobFailure → RunError

-- `Result<(), RunError>`: none is `Ok`.
abbrev pub Fetched : Type 0
Fetched = Option RunError

-- `?`: an error ends the function.
abbrev pub continue : Action Fetched → Fetched → Action Fetched
continue k none = k
continue k (some e) = done (some e)

infixr 4 ◌then◌
abbrev pub ◌then◌ : Action Fetched → Action Fetched → Action Fetched
m then k = m >>= continue k

unfoldable pub script_failed : Bytes → ℤ → Bytes → JobFailure
script_failed before code after = record {
  reason = script_failure;
  exit_code = some code;
  message = before ++ (signed code ++ after);
}

unfoldable pub hook_result : Bytes → RunStatus → Fetched
hook_result name (exited code) =
    if is_zero code
    then none
    else some (failed (script_failed (name ++ codes " failed with exit code ") code []))
hook_result name RunStatus.timed_out = some timed_out
hook_result name RunStatus.canceled = some canceled
hook_result name (error e) = some (failed (system e))

unfoldable pub run_lines : Bytes → Bytes → Limits → List Bytes → Action Fetched
unfolding hook_result
run_lines name dir limits [] = done none
run_lines name dir limits (line ∷ lines) = do
  ask (write (codes "Running " ++ (name ++ codes "\n")))
  status ← ask (run sources (step_script (line ∷ lines)) dir limits)
  done (hook_result name status)

unfoldable pub run_hook : Job → Bytes → Bytes → Limits → Action Fetched
unfolding run_lines
run_hook job name dir limits = run_lines name dir limits (hook_lines job name)

-- The first refspec that begins with a dash.
unfoldable pub bad_refspec : List Bytes → Bytes
bad_refspec [] = []
bad_refspec (r ∷ rs) = if begins_with_dash r then r else bad_refspec rs

-- The message of an error of `checkout_script`.
unfoldable pub checkout_error : Externals → GitInfo → List Variable → Bytes
unfolding bad_refspec
checkout_error ext g variables =
    if not (is_commit_sha g.sha)
    then codes "Invalid commit SHA from GitLab: " ++ ext.debug g.sha
    else if begins_with_dash g.repo_url
    then codes "Invalid repository URL from GitLab"
    else if any_dash g.refspecs
    then codes "Invalid refspec from GitLab: " ++ ext.debug (bad_refspec g.refspecs)
    else codes "GIT_SUBMODULE_PATHS: invalid submodule pathspec "
      ++ ext.debug_list (flags variables (codes "GIT_SUBMODULE_PATHS"))

-- What the match on the strategy gives: the end of the function, or the script that gets the
-- sources.
pub data SourceScript : Type 0 where
  skipped : SourceScript
  refused : JobFailure → SourceScript
  script : Bytes → SourceScript

unfoldable pub source_script : Externals → Job → GitInfo → Bytes → GitStrategy → SourceScript
source_script ext job g project no_sources = skipped
source_script ext job g project empty = script (
    argv_script (
      (codes "rm" ∷ codes "-rf" ∷ project ∷ []) ∷ (codes "mkdir" ∷ codes "-p" ∷ project ∷ []) ∷ []))
source_script ext job g project fetch = elim (checkout_script g job.variables project fetch) [
  | none ↦ refused (system (checkout_error ext g job.variables))
  | some body ↦ script (argv_script [] ++ body)
]
source_script ext job g project clone = elim (checkout_script g job.variables project clone) [
  | none ↦ refused (system (checkout_error ext g job.variables))
  | some body ↦ script (argv_script [] ++ body)
]

unfoldable pub uses_git : GitStrategy → Bool
uses_git fetch = true
uses_git clone = true
uses_git no_sources = false
uses_git empty = false

unfoldable pub is_value : Bytes → Option Bytes → Bool
is_value wanted none = false
is_value wanted (some value) = bytes_eq value wanted

unfoldable pub lfs_line : Job → Bytes → GitStrategy → Bytes
unfolding uses_git is_value
lfs_line job project s =
    let dest = quote project in
    let safe = quote (codes "safe.directory=" ++ project) in
    if uses_git s && not (is_value (codes "1") (variable_value job (codes "GIT_LFS_SKIP_SMUDGE")))
    then codes "if git lfs version >/dev/null 2>&1 && [ -d "
      ++ (dest
          ++ (codes "/.git ]; then git -c "
              ++ (safe ++ (codes " -C " ++ (dest ++ codes " lfs pull; fi\n")))))
    else []

unfoldable pub number_or_one : Option Bytes → ℕ
number_or_one none = 1
number_or_one (some text) = elim (parse_unsigned max_u32 text) [ none ↦ 1 | some n ↦ n ]

-- The number in a variable, from 1 to 10, and 1 by default.
unfoldable pub clamped_attempts : Job → Bytes → ℕ
unfolding number_or_one
clamped_attempts job key = max 1 (min 10 (number_or_one (variable_value job key)))

unfoldable pub reset_script : Bytes → Bytes
reset_script project =
    argv_script ((codes "rm" ∷ codes "-rf" ∷ (project ++ codes "/.git") ∷ []) ∷ [])

unfoldable pub retry_warning : ℤ → ℕ → ℕ → Bytes
retry_warning code attempt attempts =
    codes "WARNING: getting sources failed with exit code "
    ++ (signed code
        ++ (codes " (attempt "
            ++ (to_decimal attempt
                ++ (codes "/" ++ (to_decimal attempts ++ codes "), retrying\n")))))

unfoldable pub getting_failed : ℤ → Fetched
getting_failed code =
    some (failed (script_failed (codes "getting sources failed with exit code ") code []))

-- The match on the result of an attempt; `again` is the rest of the loop.
unfoldable pub match_checkout :
    ℕ → ℕ → JobDirs → Limits → Action Fetched → RunStatus → Action Fetched
unfolding reset_script retry_warning getting_failed
match_checkout attempts attempt dirs limits again (exited code) =
    if is_zero code
    then done none
    else if ltb attempt attempts
    then ask (write (retry_warning code attempt attempts))
      >> (ask (run sources (reset_script dirs.project) dirs.builds limits) >> again)
    else done (getting_failed code)
match_checkout attempts attempt dirs limits again RunStatus.timed_out = done (some timed_out)
match_checkout attempts attempt dirs limits again RunStatus.canceled = done (some canceled)
match_checkout attempts attempt dirs limits again (error e) = done (some (failed (system e)))

-- The loop `for attempt in 1..=attempts`, by the attempts that are left.
unfoldable pub try_checkout : ℕ → ℕ → Bytes → JobDirs → Limits → Action Fetched
unfolding match_checkout
try_checkout attempts zero text dirs limits = done none
try_checkout attempts (suc left) text dirs limits =
    ask (run sources text dirs.builds limits)
    >>= match_checkout attempts (attempts - left) dirs limits
        (try_checkout attempts left text dirs limits)

unfoldable pub fetching : GitInfo → Bytes
fetching g =
    codes "Fetching changes...\nChecking out "
    ++ (take_chars 8 g.sha
        ++ (codes " as detached HEAD (ref is " ++ (g.ref_name ++ codes ")...\n")))

unfoldable pub checkout_with :
    Job → GitInfo → JobDirs → Limits → GitStrategy → SourceScript → Action Fetched
unfolding fetching lfs_line
checkout_with job g dirs limits s skipped = do
  ask (write (codes "Skipping Git repository setup\n"))
  done none
checkout_with job g dirs limits s (refused f) = done (some (failed f))
checkout_with job g dirs limits s (script text) = do
  ask (write (fetching g))
  let attempts = clamped_attempts job (codes "GET_SOURCES_ATTEMPTS")
  try_checkout attempts attempts
      (codes "umask 0000\nexport GIT_LFS_SKIP_SMUDGE=1\n" ++ (text ++ lfs_line job dirs.project s))
      dirs limits

unfoldable pub checkout_info : Externals → Job → JobDirs → Limits → Option GitInfo → Action Fetched
unfolding source_script checkout_with
checkout_info ext job dirs limits none = done none
checkout_info ext job dirs limits (some g) =
    let s = strategy job.variables job.allow_git_fetch in
    checkout_with job g dirs limits s (source_script ext job g dirs.project s)

unfoldable pub checkout : Externals → Job → JobDirs → Limits → Action Fetched
unfolding checkout_info
checkout ext job dirs limits = checkout_info ext job dirs limits job.git_info

unfoldable pub get_sources : Externals → Job → JobDirs → Limits → Action Fetched
get_sources ext job dirs limits =
    run_hook job (codes "pre_get_sources_script") dirs.builds limits
    then (checkout ext job dirs limits
        then run_hook job (codes "post_get_sources_script") dirs.project limits)
