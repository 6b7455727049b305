-- ===== src/Daemon/Tests.antt =====
-- The theorems on the jobs of src/runner_daemon/mod.rs at a concrete job.
use turboci.Prelude.{◌≡◌, refl, true, [], ◌∷◌, none, codes}
use turboci.Program.{Keeps}
use turboci.Job.{Cache, Dependency, Job}
use turboci.Scrubber.{SecretScrubber}
use turboci.Daemon.{Externals, Config, short_token}
use turboci.Daemon.Restore.{restore_workspace}
use turboci.Daemon.Restore.Reads.{restoring, Complete, needed}
use turboci.Daemon.Restore.Laws.{restore-Complete}

abbrev cache : Cache
cache = record {
  key = codes "main";
  untracked = none;
  paths = codes "target" ∷ [];
  policy = codes "pull-push";
  when = none;
  fallback_keys = [];
}

abbrev dependency : Dependency
dependency = record {
  id = 6;
  name = codes "build";
  token = codes "glcbt-6";
  has_artifacts_file = true;
}

abbrev job : Job
job = record {
  id = 7;
  token = codes "glcbt-1";
  allow_git_fetch = true;
  job_info = none;
  git_info = none;
  runner_info = none;
  variables = [];
  steps = [];
  image = none;
  services = [];
  artifacts = none;
  cache = cache ∷ [];
  credentials = [];
  dependencies = dependency ∷ [];
  timeout = 60;
  hooks = [];
  project_slot = 0;
}

abbrev externals : Externals
externals = record {
  escape = λ text. text;
  megabytes = λ size. codes "1.0";
  version = codes "1.0.0";
}

abbrev config : Config
config = record { cache_enabled = true; workspace_max_age_days = 7 }

abbrev scrubber : SecretScrubber
scrubber = record { secrets = []; patterns = [] }

short : short_token (codes "glrt-t1_abcdefghijk") ≡ codes "abcdefghi"
unfolding short_token turboci.Text.take_chars turboci.Text.is_continuation
short = refl

restore-Complete_example :
    Keeps
      (restoring job)
      (Complete (needed (dependency ∷ []) []))
      []
      (restore_workspace externals config job)
restore-Complete_example = restore-Complete externals config job
