-- ===== src/Daemon/Uploads.antt =====
-- `upload_artifacts` and `upload_cache` of src/runner_daemon/mod.rs: what a job leaves behind.
pub mod Lives
use turboci.Prelude.{
  ℕ, Bool, true, false, not, ◌&&◌, ◌||◌, if◌then◌else◌, List, [], ◌∷◌, ◌++◌, map, Option, none,
  some, Bytes, codes, bytes_eq,
}
use turboci.Text.Number.{to_decimal}
use turboci.Outcome.{script_failure, JobFailure, JobOutcome}
use turboci.Job.{Artifact, Cache, Job}
use turboci.Script.{Values, expand}
use turboci.Client.{ArtifactUpload}
use turboci.Daemon.{
  Saved, save_aborted, nothing_saved, saved, save_error, Archived, no_files, archived,
  archive_error, Untracked, files, list_error, write, untracked_files, create_archive, upload,
  save_cache, Action, Externals, Config, job_variables, resolve_key, expand_all, is_wanted, pushes,
}
use turboci.Program.{done, ask, ◌>>=◌, ◌>>◌}

-- `Option::get_or_insert`.
unfoldable pub or_insert : JobOutcome → JobFailure → JobOutcome
or_insert none f = some f
or_insert (some g) f = some g

untracked_found : Externals → Untracked → Action (List Bytes)
untracked_found ext (files found) = done (map ext.escape found)
untracked_found ext (list_error e) = do
  ask (write (codes "WARNING: Could not list untracked files: " ++ (e ++ codes "\n")))
  done []

untracked_if_needed : Externals → Bool → Action (List Bytes)
unfolding untracked_found
untracked_if_needed ext wanted =
    if wanted then ask untracked_files >>= untracked_found ext else done []

any_untracked : List Artifact → Bool
any_untracked [] = false
any_untracked (a ∷ artifacts) = a.untracked || any_untracked artifacts

or_name : Bytes → Bytes
or_name [] = codes "artifacts"
or_name (c ∷ t) = c ∷ t

artifact_name : Values → Option Bytes → Bytes
unfolding or_name
artifact_name variables none = codes "artifacts"
artifact_name variables (some name) = or_name (expand name variables)

unwrap_or : Option Bytes → Bytes → Bytes
unwrap_or none d = d
unwrap_or (some t) d = t

extension : Bytes → Bytes
extension format =
    if bytes_eq format (codes "gzip")
    then codes ".gz"
    else if bytes_eq format (codes "zip")
    then codes ".zip"
    else []

upload_failure : Bytes → Bytes → JobFailure
upload_failure name e = record {
  reason = script_failure;
  exit_code = none;
  message = codes "uploading artifacts (" ++ (name ++ (codes ") failed: " ++ e));
}

-- The match on the result of an upload: the failure then.
after_upload : Bytes → JobOutcome → Option Bytes → Action JobOutcome
unfolding upload_failure
after_upload name failure none = done failure
after_upload name failure (some e) = do
  ask (write (codes "ERROR: Uploading artifacts failed: " ++ (e ++ codes "\n")))
  done (or_insert failure (upload_failure name e))

upload_of : Artifact → Bytes → Bytes → ℕ → ArtifactUpload
unfolding unwrap_or extension
upload_of artifact name path len =
    let format = unwrap_or artifact.artifact_format (codes "zip") in
    record {
      path = path;
      len = len;
      file_name = name ++ extension format;
      format = format;
      artifact_type = unwrap_or artifact.artifact_type (codes "archive");
      expire_in = artifact.expire_in;
    }

after_archive : Artifact → Bytes → JobOutcome → Archived → Action JobOutcome
unfolding after_upload upload_of
after_archive artifact name failure no_files = do
  ask (write (codes "WARNING: No files matched the artifact paths, nothing uploaded\n"))
  done failure
after_archive artifact name failure (archived path len) =
    ask (upload (upload_of artifact name path len)) >>= after_upload name failure
after_archive artifact name failure (archive_error e) = after_upload name failure (some e)

artifact_paths : Values → List Bytes → Artifact → List Bytes
artifact_paths variables untracked artifact =
    expand_all variables artifact.paths ++ (if artifact.untracked then untracked else [])

-- The body of the loop for an artifact that is wanted and has paths.
send_artifact : Values → Artifact → List Bytes → JobOutcome → Action JobOutcome
unfolding artifact_name unwrap_or after_archive
send_artifact variables artifact [] failure = done failure
send_artifact variables artifact (path ∷ paths) failure =
    let name = artifact_name variables artifact.name in
    ask (
      write (
        codes "Uploading artifacts ("
        ++ (name
            ++ (codes ", "
                ++ (unwrap_or artifact.artifact_type (codes "archive") ++ codes ")...\n")))))
    >> (ask (
          create_archive (path ∷ paths) (expand_all variables artifact.exclude)
            (unwrap_or artifact.artifact_format (codes "zip")))
        >>= after_archive artifact name failure)

artifact_loop : Values → List Bytes → Bool → List Artifact → JobOutcome → Action JobOutcome
unfolding send_artifact artifact_paths
artifact_loop variables untracked succeeded [] failure = done failure
artifact_loop variables untracked succeeded (a ∷ artifacts) failure =
    (if is_wanted a.when succeeded
      then send_artifact variables a (artifact_paths variables untracked a) failure
      else done failure)
    >>= artifact_loop variables untracked succeeded artifacts

upload_all : Externals → Job → Bool → Option (List Artifact) → Action JobOutcome
unfolding untracked_if_needed any_untracked artifact_loop
upload_all ext job succeeded none = done none
upload_all ext job succeeded (some artifacts) =
    untracked_if_needed ext (any_untracked artifacts) >>= λ untracked.
    artifact_loop (job_variables job) untracked succeeded artifacts none

pub upload_artifacts : Externals → Job → Bool → Action JobOutcome
unfolding upload_all
upload_artifacts ext job succeeded = upload_all ext job succeeded job.artifacts

wants_untracked : Cache → Bool
wants_untracked entry = elim entry.untracked [ none ↦ false | some b ↦ b ]

any_wants : List Cache → Bool
unfolding wants_untracked
any_wants [] = false
any_wants (entry ∷ entries) = wants_untracked entry || any_wants entries

saved_upload : Externals → Bytes → ℕ → Option (Option Bytes) → Action (Unit {0})
saved_upload ext key size none = done tt
saved_upload ext key size (some none) = ask (
    write (
      codes "Uploaded cache "
      ++ (key ++ (codes " to S3 (" ++ (ext.megabytes size ++ codes " MB)\n")))))
saved_upload ext key size (some (some e)) = ask (
    write (
      codes "WARNING: cache "
      ++ (key ++ (codes " saved locally, not uploaded to S3: " ++ (e ++ codes "\n")))))

-- The match on the result of a save; `again` is the rest of the loop, which an abort ends.
after_save : Externals → Bytes → Action (Unit {0}) → Saved → Action (Unit {0})
unfolding saved_upload
after_save ext key again save_aborted = ask (write (codes "Cache not saved: job canceled\n"))
after_save ext key again nothing_saved =
    ask (write (codes "No files matched the paths of cache " ++ (key ++ codes ", not saved\n")))
    >> again
after_save ext key again (saved size result) =
    ask (
      write
        (codes "Created cache " ++ (key ++ (codes " (" ++ (to_decimal size ++ codes " bytes)\n")))))
    >> (saved_upload ext key size result >> again)
after_save ext key again (save_error e) =
    ask (write (codes "WARNING: Failed to save cache: " ++ (e ++ codes "\n"))) >> again

cache_paths : Values → List Bytes → Cache → List Bytes
unfolding wants_untracked
cache_paths variables untracked entry =
    expand_all variables entry.paths ++ (if wants_untracked entry then untracked else [])

save_entry : Externals → Values → Cache → List Bytes → Action (Unit {0}) → Action (Unit {0})
unfolding after_save
save_entry ext variables entry [] again = again
save_entry ext variables entry (path ∷ paths) again =
    let key = resolve_key entry.key variables in
    ask (write (codes "Saving cache " ++ (key ++ codes "...\n")))
    >> (ask (save_cache key (path ∷ paths)) >>= after_save ext key again)

cache_loop : Externals → Values → List Bytes → Bool → List Cache → Action (Unit {0})
unfolding save_entry cache_paths
cache_loop ext variables untracked succeeded [] = done tt
cache_loop ext variables untracked succeeded (entry ∷ entries) =
    let rest = cache_loop ext variables untracked succeeded entries in
    if is_wanted entry.when succeeded && pushes entry
    then save_entry ext variables entry (cache_paths variables untracked entry) rest
    else rest

pub upload_cache : Externals → Config → Job → Bool → Action (Unit {0})
unfolding untracked_if_needed any_wants cache_loop
upload_cache ext config job succeeded =
    if config.cache_enabled
    then (untracked_if_needed ext (any_wants job.cache) >>= λ untracked.
        cache_loop ext (job_variables job) untracked succeeded job.cache)
    else done tt
