-- ===== src/Daemon/Restore.antt =====
-- `restore_workspace` and `download_dependencies` of src/runner_daemon/mod.rs: what a job starts with.
pub mod Laws
pub mod Reads
use turboci.Prelude.{
  ℕ, zero, suc, ◌-◌, Bool, true, false, ◌&&◌, ◌||◌, if◌then◌else◌, List, [], ◌∷◌, ◌++◌, map, Option,
  none, some, Bytes, codes, bytes_eq,
}
use turboci.Text.{ends_with}
use turboci.Text.Number.{to_decimal}
use turboci.Outcome.{script_failure, JobFailure, JobOutcome}
use turboci.Job.{Cache, Dependency, Job}
use turboci.Script.{Values}
use turboci.Daemon.{
  Source, local_copy, not_modified, downloaded, Restored, restored, restore_error, write,
  section_start, section_end, restore_cache, download, Action, Externals, Config, attempts,
  job_variables, resolve_key, pulls, any_cache,
}
use turboci.Program.{done, ask, ◌>>=◌, ◌>>◌}

-- `HashMap::get` on the job's values, whose keys occur once.
pub value_at : Values → Bytes → Option Bytes
value_at [] key = none
value_at ((k, v) ∷ vs) key = if bytes_eq k key then some v else value_at vs key

-- `CACHE_FALLBACK_KEY`, unless it names a protected branch's cache.
fallback_key : Values → Option Bytes → Action (Option Bytes)
fallback_key variables none = done none
fallback_key variables (some key) =
    if ends_with (codes "-protected") (resolve_key key variables)
    then ask (
        write
          (codes "WARNING: CACHE_FALLBACK_KEY ending in -protected is not allowed, ignoring it\n"))
      >> done none
    else done (some key)

pub resolve_all : Values → List Bytes → List Bytes
resolve_all variables [] = []
resolve_all variables (key ∷ keys) = resolve_key key variables ∷ resolve_all variables keys

unfoldable pub fallback_list : Option Bytes → List Bytes
fallback_list none = []
fallback_list (some key) = key ∷ []

display : Externals → Source → Bytes
display ext local_copy = codes "local copy"
display ext not_modified = codes "S3: not modified, local copy"
display ext (downloaded bytes) = codes "downloaded " ++ (ext.megabytes bytes ++ codes " MB from S3")

warnings : List Bytes → Action (Unit {0})
warnings [] = done tt
warnings (w ∷ ws) = ask (write (codes "WARNING: " ++ (w ++ codes "\n"))) >> warnings ws

report_hit : Externals → Option (Bytes × Source) → Action (Unit {0})
unfolding display
report_hit ext none = ask (write (codes "No cache found\n"))
report_hit ext (some (key, source)) = ask (
    write (
      codes "Successfully restored cache "
      ++ (key ++ (codes " (" ++ (display ext source ++ codes ")\n")))))

-- A failed restore only warns.
report_restore : Externals → Restored → Action (Unit {0})
unfolding warnings report_hit
report_restore ext (restored hit ws) = warnings ws >> report_hit ext hit
report_restore ext (restore_error e) =
    ask (write (codes "WARNING: Failed to restore cache: " ++ (e ++ codes "\n")))

-- The loop `for _ in 1..tries` behind the first attempt.
retry_restore : ℕ → List Bytes → Restored → Action Restored
retry_restore zero keys result = done result
retry_restore (suc tries) keys (restored hit ws) = done (restored hit ws)
retry_restore (suc tries) keys (restore_error e) =
    ask (restore_cache keys) >>= retry_restore tries keys

-- The key that the log names: the first one.
entry_key : Values → Cache → Bytes
entry_key variables entry = resolve_key entry.key variables

restore_entry : Externals → Job → Values → Cache → Action (Unit {0})
unfolding fallback_key resolve_all value_at report_restore retry_restore entry_key
restore_entry ext job variables entry =
    fallback_key variables (value_at variables (codes "CACHE_FALLBACK_KEY")) >>= λ fallback.
    let keys =
      resolve_all variables (entry.key ∷ (entry.fallback_keys ++ fallback_list fallback)) in
    ask (write (codes "Restoring cache " ++ (entry_key variables entry ++ codes "...\n")))
    >> (ask (restore_cache keys)
        >>= retry_restore (attempts job (codes "RESTORE_CACHE_ATTEMPTS") - 1) keys
        >>= report_restore ext)

restore_loop : Externals → Job → Values → List Cache → Action (Unit {0})
unfolding restore_entry
restore_loop ext job variables [] = done tt
restore_loop ext job variables (entry ∷ entries) =
    (if pulls entry then restore_entry ext job variables entry else done tt)
    >> restore_loop ext job variables entries

pub restore_caches : Externals → Config → Job → Action (Unit {0})
unfolding restore_loop
restore_caches ext config job =
    if config.cache_enabled && any_cache pulls job.cache
    then ask (section_start (codes "restore_cache") (codes "Restoring cache"))
      >> (restore_loop ext job (job_variables job) job.cache
          >> ask (section_end (codes "restore_cache")))
    else done tt

download_failure : Dependency → Bytes → JobFailure
download_failure d e = record {
  reason = script_failure;
  exit_code = none;
  message =
      codes "failed to download artifacts from job #"
      ++ (to_decimal d.id ++ (codes " (" ++ (d.name ++ (codes "): " ++ e))));
}

again_unless : Action (Option Bytes) → Option Bytes → Action (Option Bytes)
again_unless again none = done none
again_unless again (some e) = again

-- The loop `for attempt in 1..=tries`: the result of the last attempt made.
try_download : ℕ → Option Bytes → Dependency → Action (Option Bytes)
unfolding again_unless
try_download zero result d = done result
try_download (suc left) result d =
    ask (download d.id d.token) >>= λ e. again_unless (try_download left e d) e

-- `?` on the result for one dependency.
next_unless : Dependency → Action JobOutcome → Option Bytes → Action JobOutcome
unfolding download_failure
next_unless d next none = next
next_unless d next (some e) = done (some (download_failure d e))

download_loop : Job → List Dependency → Action JobOutcome
unfolding try_download next_unless
download_loop job [] = done none
download_loop job (d ∷ ds) =
    let rest = download_loop job ds in
    if d.has_artifacts_file
    then ask (
        write (
          codes "Downloading artifacts from job #"
          ++ (to_decimal d.id ++ (codes " (" ++ (d.name ++ codes ")...\n")))))
      >> (try_download (attempts job (codes "ARTIFACT_DOWNLOAD_ATTEMPTS"))
            (some (codes "not attempted")) d
          >>= next_unless d rest)
    else rest

any_artifacts : List Dependency → Bool
any_artifacts [] = false
any_artifacts (d ∷ ds) = d.has_artifacts_file || any_artifacts ds

close_section : JobOutcome → Action JobOutcome
close_section result = ask (section_end (codes "download_artifacts")) >> done result

pub restore_workspace : Externals → Config → Job → Action JobOutcome
unfolding restore_caches any_artifacts download_loop close_section
restore_workspace ext config job =
    restore_caches ext config job
    >> (if any_artifacts job.dependencies
        then ask (section_start (codes "download_artifacts") (codes "Downloading artifacts"))
          >> (download_loop job job.dependencies >>= close_section)
        else done none)
