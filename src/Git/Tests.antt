-- ===== src/Git/Tests.antt =====
-- Runs of src/runner_daemon/git.rs and the theorem at a concrete checkout.
use turboci.Prelude.{◌≡◌, refl, true, false, List, [], ◌∷◌, ◌++◌, none, some, Bytes, codes}
use turboci.Text.{
  is_digit, trim, whitespace_width, is_blank, trim_start, trim_end, split_whitespace, words_from,
}
use turboci.Job.{GitInfo, Variable, last_value, not_empty}
use turboci.Git.{
  git, submodule_strategy, variable, depth, sync_commands, fetch_refs, any_dash, begins_with_dash,
  is_valid, is_commit_sha, all_hex,
}
use turboci.Git.Options.{ChecksOut, sync_commands_lem}

abbrev sha : Bytes
sha = codes "0123456789abcdef0123456789abcdef01234567"

abbrev info : GitInfo
info = record {
  repo_url = codes "https://gitlab.example/a.git";
  ref_name = codes "main";
  ref_type = codes "branch";
  sha = sha;
  before_sha = [];
  depth = some 0;
  refspecs = codes "+refs/heads/main:refs/remotes/origin/main" ∷ [];
  repo_object_format = none;
  protected = none;
}

abbrev dest : Bytes
dest = codes "/b/p"

abbrev variables : List Variable
variables =
    record {
      key = codes "GIT_FETCH_EXTRA_FLAGS";
      value = some (codes " --filter=blob:none  -4");
      public = true;
      masked = false;
      raw = false;
      file = false;
      internal = false;
    }
    ∷ []

abbrev commands : List (List Bytes)
commands =
    (codes "git" ∷ codes "init" ∷ codes "-q" ∷ dest ∷ [])
    ∷ git dest
        (codes "remote" ∷ codes "add" ∷ codes "origin" ∷ codes "https://gitlab.example/a.git" ∷ [])
    ∷ git dest (
        codes "fetch"
        ∷ codes "-q"
        ∷ codes "--prune"
        ∷ codes "--no-tags"
        ∷ codes "--filter=blob:none"
        ∷ codes "-4"
        ∷ codes "origin"
        ∷ codes "+refs/heads/main:refs/remotes/origin/main"
        ∷ [])
    ∷ git dest (codes "checkout" ∷ codes "-q" ∷ codes "-f" ∷ sha ∷ [])
    ∷ []

checkout : sync_commands info variables dest false ≡ some commands
unfolding sync_commands is_valid is_commit_sha all_hex is_digit begins_with_dash any_dash
    submodule_strategy variable depth git trim trim_end trim_start whitespace_width is_blank
    split_whitespace words_from fetch_refs last_value not_empty
checkout = refl

option_refused :
    sync_commands (record info { refspecs = codes "--upload-pack=x" ∷ [] }) [] dest false ≡ none
unfolding sync_commands is_valid is_commit_sha all_hex is_digit begins_with_dash any_dash
option_refused = refl

sync_commands_lem_example :
    (before : List (List Bytes)) × (after : List (List Bytes)) × (options : List Bytes) × (commands
      ≡ before
        ++ git dest (codes "remote" ∷ codes "add" ∷ codes "origin" ∷ info.repo_url ∷ [])
          ∷ (git dest (codes "fetch" ∷ options) ++ codes "origin" ∷ fetch_refs info)
          ∷ after)
    × (any_dash (fetch_refs info) ≡ false)
    × (begins_with_dash info.repo_url ≡ false)
    × (begins_with_dash info.sha ≡ false)
    × ChecksOut info variables dest after
sync_commands_lem_example = sync_commands_lem info variables dest false commands checkout
