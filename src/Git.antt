-- ===== src/Git.antt =====
-- src/runner_daemon/git.rs: the commands that prepare the sources of a job. An error is `none`; its
-- message is not modelled.
pub mod Options
pub mod Checkout
pub mod Tests
use turboci.Prelude.{
  ℕ, Bool, true, false, not, ◌&&◌, ◌||◌, ltb, leb, ◌==◌, if◌then◌else◌, List, [], ◌∷◌, ◌++◌, map,
  length, Option, none, some, Bytes, codes, bytes_eq,
}
use turboci.Text.{is_digit, starts_with, trim, split_whitespace}
use turboci.Text.Number.{max_u32, parse_unsigned, to_decimal}
use turboci.Job.{last_value, not_empty, Variable, GitInfo}
use turboci.Script.{quote, argv_line}

pub data GitStrategy : Type 0 where
  fetch clone no_sources empty : GitStrategy

pub data SubmoduleStrategy : Type 0 where
  no_submodules normal recursive : SubmoduleStrategy

unfoldable pub variable : List Variable → Bytes → Option Bytes
variable variables key = elim (last_value variables key) [
  | none ↦ none
  | some none ↦ none
  | some (some value) ↦ not_empty (trim value)
]

unfoldable pub strategy : List Variable → Bool → GitStrategy
strategy variables allow_git_fetch =
    let project = if allow_git_fetch then fetch else clone in
    elim (variable variables (codes "GIT_STRATEGY")) [
      | none ↦ project
      | some name ↦
          if bytes_eq name (codes "none")
          then no_sources
          else if bytes_eq name (codes "empty")
          then empty
          else if bytes_eq name (codes "clone")
          then clone
          else if bytes_eq name (codes "fetch")
          then fetch
          else project
    ]

pub submodule_strategy : List Variable → SubmoduleStrategy
submodule_strategy variables = elim (variable variables (codes "GIT_SUBMODULE_STRATEGY")) [
  | none ↦ no_submodules
  | some name ↦
      if bytes_eq name (codes "normal")
      then normal
      else if bytes_eq name (codes "recursive")
      then recursive
      else no_submodules
]

-- A number of a variable, if there is one that fits 32 bits.
number : List Variable → Bytes → Option ℕ
number variables key = elim (variable variables key) [
  | none ↦ none
  | some text ↦ parse_unsigned max_u32 text
]

pub or_else : Option ℕ → ℕ → ℕ
or_else none d = d
or_else (some n) d = n

pub depth : GitInfo → List Variable → ℕ
unfolding number or_else
depth git_info variables = or_else (number variables (codes "GIT_DEPTH")) (or_else git_info.depth 0)

pub is_hex_digit : ℕ → Bool
is_hex_digit c = is_digit c || ((leb b'a' c && leb c b'f') || (leb b'A' c && leb c b'F'))

pub all_hex : Bytes → Bool
unfolding is_hex_digit
all_hex [] = true
all_hex (c ∷ t) = is_hex_digit c && all_hex t

pub is_commit_sha : Bytes → Bool
is_commit_sha sha = ((length sha == 40) || (length sha == 64)) && all_hex sha

pub begins_with_dash : Bytes → Bool
begins_with_dash t = starts_with (codes "-") t

pub any_dash : List Bytes → Bool
any_dash [] = false
any_dash (r ∷ rs) = begins_with_dash r || any_dash rs

-- The checks that `sync_commands` begins with.
pub is_valid : GitInfo → Bool
is_valid g = is_commit_sha g.sha && (not (begins_with_dash g.repo_url) && not (any_dash g.refspecs))

pub git : Bytes → List Bytes → List Bytes
git dest args =
    codes "git" ∷ codes "-c" ∷ (codes "safe.directory=" ++ dest) ∷ codes "-C" ∷ dest ∷ args

object_format : Option Bytes → List Bytes
object_format none = []
object_format (some format) =
    if bytes_eq format (codes "sha1") || bytes_eq format (codes "sha256")
    then (codes "--object-format=" ++ format) ∷ []
    else []

depth_flag : ℕ → List Bytes
depth_flag n = if ltb 0 n then (codes "--depth=" ++ to_decimal n) ∷ [] else []

-- The words of a variable.
pub flags : List Variable → Bytes → List Bytes
flags variables key = elim (variable variables key) [
  | none ↦ []
  | some text ↦ split_whitespace text
]

init_command : GitInfo → Bytes → List Bytes
unfolding object_format
init_command g dest =
    codes "git" ∷ codes "init" ∷ codes "-q" ∷ (object_format g.repo_object_format ++ dest ∷ [])

-- What is fetched: the refspecs, or the commit itself.
pub fetch_refs : GitInfo → List Bytes
fetch_refs g = elim g.refspecs [ [] ↦ g.sha ∷ [] | r ∷ rs ↦ r ∷ rs ]

fetch_command : GitInfo → List Variable → Bytes → List Bytes
unfolding git depth_flag flags
fetch_command g variables dest = git dest (
    codes "fetch"
    ∷ codes "-q"
    ∷ codes "--prune"
    ∷ codes "--no-tags"
    ∷ (depth_flag (depth g variables)
        ++ (flags variables (codes "GIT_FETCH_EXTRA_FLAGS") ++ codes "origin" ∷ fetch_refs g)))

-- What is removed of the checkout of an earlier job.
remove_commands : Bytes → List (List Bytes)
remove_commands dest =
    let git_dir = dest ++ codes "/.git" in
    (codes "rm"
      ∷ codes "-f"
      ∷ (git_dir ++ codes "/index.lock")
      ∷ (git_dir ++ codes "/shallow.lock")
      ∷ (git_dir ++ codes "/HEAD.lock")
      ∷ (git_dir ++ codes "/config.lock")
      ∷ (git_dir ++ codes "/config")
      ∷ [])
    ∷ (codes "rm" ∷ codes "-rf" ∷ (git_dir ++ codes "/hooks") ∷ [])
    ∷ []

clean_flags : List Variable → Bytes
clean_flags variables = elim (variable variables (codes "GIT_CLEAN_FLAGS")) [
  | none ↦ codes "-ffdx"
  | some text ↦ text
]

is_off : List Variable → Bool
is_off variables = elim (variable variables (codes "GIT_CHECKOUT")) [
  | none ↦ false
  | some text ↦ bytes_eq text (codes "false")
]

work_tree_commands : GitInfo → List Variable → Bytes → Bool → List (List Bytes)
unfolding git clean_flags is_off
work_tree_commands g variables dest existing =
    let clean = clean_flags variables in
    if is_off variables
    then []
    else git dest (codes "checkout" ∷ codes "-q" ∷ codes "-f" ∷ g.sha ∷ [])
      ∷ (if existing && not (bytes_eq clean (codes "none"))
          then git dest (codes "clean" ∷ codes "-q" ∷ split_whitespace clean) ∷ []
          else [])

bad_path : List Bytes → Bool
bad_path [] = false
bad_path (p ∷ ps) = bytes_eq p (codes ":(exclude)") || bad_path ps

with_paths : List Bytes → List Bytes → List Bytes
with_paths [] args = args
with_paths (p ∷ ps) args = args ++ codes "--" ∷ p ∷ ps

submodule_commands : GitInfo → List Variable → Bytes → Bool → Option (List (List Bytes))
unfolding git flags bad_path with_paths number or_else depth_flag
submodule_commands g variables dest is_recursive =
    let paths = flags variables (codes "GIT_SUBMODULE_PATHS") in
    let all = if is_recursive then codes "--recursive" ∷ [] else [] in
    let n = or_else (number variables (codes "GIT_SUBMODULE_DEPTH")) (depth g variables) in
    if bad_path paths
    then none
    else some (
        git dest (codes "submodule" ∷ codes "init" ∷ [])
        ∷ with_paths paths (git dest (codes "submodule" ∷ codes "sync" ∷ all))
        ∷ with_paths paths (
            git dest (
              codes "submodule"
              ∷ codes "update"
              ∷ codes "--init"
              ∷ (all ++ (depth_flag n ++ flags variables (codes "GIT_SUBMODULE_UPDATE_FLAGS")))))
        ∷ [])

submodules : GitInfo → List Variable → Bytes → Option (List (List Bytes))
unfolding submodule_commands
submodules g variables dest = elim (submodule_strategy variables) [
  | no_submodules ↦ some []
  | normal ↦ submodule_commands g variables dest false
  | recursive ↦ submodule_commands g variables dest true
]

pub sync_commands : GitInfo → List Variable → Bytes → Bool → Option (List (List Bytes))
unfolding git init_command fetch_command remove_commands work_tree_commands submodules
sync_commands g variables dest existing =
    let before = if existing then remove_commands dest else [] in
    let main =
      before
      ++ (init_command g dest
          ∷ git dest (codes "remote" ∷ codes "add" ∷ codes "origin" ∷ g.repo_url ∷ [])
          ∷ fetch_command g variables dest
          ∷ work_tree_commands g variables dest existing) in
    if is_valid g
    then elim (submodules g variables dest) [ none ↦ none | some more ↦ some (main ++ more) ]
    else none

pub checkout_commands : GitInfo → List Variable → Bytes → Option (List (List Bytes))
checkout_commands g variables dest = sync_commands g variables dest false

pub update_commands : GitInfo → List Variable → Bytes → Option (List (List Bytes))
update_commands g variables dest = sync_commands g variables dest true
