-- ===== src/Daemon/Uploads/Lives.antt =====
-- The calls of `upload_artifacts` and `upload_cache` of src/runner_daemon/mod.rs in the life of a job.
use turboci.Prelude.{
  ◌≡◌, refl, ℕ, Bool, true, false, ◌&&◌, List, [], ◌∷◌, Option, none, some, Bytes,
}
use turboci.Program.{Program, Keeps, Keeps-bind, Keeps-if, done, ◌>>=◌}
use turboci.Outcome.{JobFailure, JobOutcome}
use turboci.Job.{Artifact, Cache, Job}
use turboci.Script.{Values}
use turboci.Daemon.{
  Saved, save_aborted, nothing_saved, saved, save_error, Archived, no_files, archived,
  archive_error, Untracked, files, list_error, Op, Answer, Externals, Config, is_wanted, pushes,
  job_variables,
}
use turboci.Daemon.Uploads.{
  or_insert, untracked_found, untracked_if_needed, any_untracked, after_upload, after_archive,
  artifact_paths, send_artifact, artifact_loop, upload_all, upload_artifacts, any_wants,
  saved_upload, after_save, cache_paths, save_entry, cache_loop, upload_cache,
}
use turboci.Daemon.Life.{Life, spoiled, no_error, no_archive_error, life, Working, Accounted, Ready}

inserted : (g : Bool) (s : Life) (r : JobOutcome) (f : JobFailure) → Accounted g s (or_insert r f)
unfolding or_insert
inserted g s none f = tt
inserted g s (some h) f = tt

spoiled-Working : {s : Life} → Working s → Working (spoiled s)
spoiled-Working w = record {
  uncleaned = w.uncleaned;
  unreleased = w.unreleased;
  unreported = w.unreported;
  unaborted = w.unaborted;
}

abbrev Same : {A : Type 0} → Life → Life → A → Type 0
Same s t r = t ≡ s

untracked_found-Same :
    (s : Life) (ext : Externals) (u : Untracked) → Keeps life (Same s) s (untracked_found ext u)
unfolding untracked_found
untracked_found-Same s ext (files found) = refl
untracked_found-Same s ext (list_error e) = (tt, λ x e. refl)

untracked-Same :
    (s : Life) (ext : Externals) (wanted : Bool)
    → Working s
    → Keeps life (Same s) s (untracked_if_needed ext wanted)
unfolding untracked_if_needed
untracked-Same s ext true w = ((w.uncleaned, w.unaborted), λ u e. untracked_found-Same s ext u)
untracked-Same s ext false w = refl

-- The artifacts: a failure of one leaves the job unfit for a success, and is the result.
module _ (g : Bool) where
  after_upload-Ready :
      (s : Life) (name : Bytes) (failure : JobOutcome) (e : Option Bytes)
      → Ready g s failure
      → Keeps life (Ready g) (no_error s e) (after_upload name failure e)
  unfolding after_upload
  after_upload-Ready s name failure none r = r
  after_upload-Ready s name failure (some e) r =
      (tt, λ x y. (spoiled-Working r.0, inserted g (spoiled s) failure _))

  after_archive-Ready :
      (s : Life) (a : Artifact) (name : Bytes) (failure : JobOutcome) (x : Archived)
      → Ready g s failure
      → Keeps life (Ready g) (no_archive_error s x) (after_archive a name failure x)
  unfolding after_archive
  after_archive-Ready s a name failure no_files r = (tt, λ x y. r)
  after_archive-Ready s a name failure (archived path len) r =
      ((r.0.uncleaned, r.0.unaborted), λ e y. after_upload-Ready s name failure e r)
  after_archive-Ready s a name failure (archive_error e) r =
      after_upload-Ready s name failure (some e) r

  send_artifact-Ready :
      (s : Life) (variables : Values) (a : Artifact) (paths : List Bytes) (failure : JobOutcome)
      → Ready g s failure
      → Keeps life (Ready g) s (send_artifact variables a paths failure)
  unfolding send_artifact
  send_artifact-Ready s variables a [] failure r = r
  send_artifact-Ready s variables a (path ∷ paths) failure r =
      (tt, λ x y. ((r.0.uncleaned, r.0.unaborted), λ x y. after_archive-Ready s a _ failure x r))

  artifact_loop-Ready :
      (s : Life) (variables : Values) (untracked : List Bytes) (succeeded : Bool)
      (artifacts : List Artifact) (failure : JobOutcome)
      → Ready g s failure
      → Keeps life (Ready g) s (artifact_loop variables untracked succeeded artifacts failure)
  unfolding artifact_loop
  artifact_loop-Ready s variables untracked succeeded [] failure r = r
  artifact_loop-Ready s variables untracked succeeded (a ∷ artifacts) failure r =
      Keeps-bind life (Ready g) (Ready g) s _
        (artifact_loop variables untracked succeeded artifacts)
        (Keeps-if life (Ready g) s (is_wanted a.when succeeded)
          (send_artifact variables a (artifact_paths variables untracked a) failure) (done failure)
          (λ e. send_artifact-Ready s variables a _ failure r) (λ e. r))
        (λ t f h. artifact_loop-Ready t variables untracked succeeded artifacts f h)

  upload_all-Ready :
      (s : Life) (ext : Externals) (job : Job) (succeeded : Bool) (o : Option (List Artifact))
      → Ready g s none
      → Keeps life (Ready g) s (upload_all ext job succeeded o)
  unfolding upload_all
  upload_all-Ready s ext job succeeded none r = r
  upload_all-Ready s ext job succeeded (some artifacts) r =
      Keeps-bind life (Same s) (Ready g) s (untracked_if_needed ext (any_untracked artifacts)) _
        (untracked-Same s ext (any_untracked artifacts) r.0)
        (λ t untracked h.
          rw h (artifact_loop-Ready s (job_variables job) untracked succeeded artifacts none r))

-- What the upload of the artifacts does to a life in which it may begin.
pub upload_artifacts-Ready :
    (s : Life) (ext : Externals) (job : Job) (succeeded : Bool)
    → Working s
    → Keeps life (Ready s.good) s (upload_artifacts ext job succeeded)
unfolding upload_artifacts
upload_artifacts-Ready s ext job succeeded w =
    upload_all-Ready s.good s ext job succeeded job.artifacts (w, refl)

-- The caches change nothing that counts.
module _ (s : Life) (w : Working s) (ext : Externals) where
  abbrev Whole : Program Op Answer (Unit {0}) → Type 0
  Whole m = Keeps life (Same s) s m

  saved_upload-same :
      (key : Bytes) (size : ℕ) (r : Option (Option Bytes)) → Whole (saved_upload ext key size r)
  unfolding saved_upload
  saved_upload-same key size none = refl
  saved_upload-same key size (some none) = (tt, λ x y. refl)
  saved_upload-same key size (some (some e)) = (tt, λ x y. refl)

  after_save-same :
      (key : Bytes) (again : Program Op Answer (Unit {0})) (x : Saved)
      → Whole again
      → Whole (after_save ext key again x)
  unfolding after_save
  after_save-same key again save_aborted h = (tt, λ x y. refl)
  after_save-same key again nothing_saved h = (tt, λ x y. h)
  after_save-same key again (saved size r) h = (
    tt,
    λ x y.
        Keeps-bind life (Same s) (Same s) s (saved_upload ext key size r) (λ x. again)
          (saved_upload-same key size r) (λ t x e. rw e h),
  )
  after_save-same key again (save_error e) h = (tt, λ x y. h)

  save_entry-same :
      (variables : Values) (entry : Cache) (paths : List Bytes)
      (again : Program Op Answer (Unit {0}))
      → Whole again
      → Whole (save_entry ext variables entry paths again)
  unfolding save_entry
  save_entry-same variables entry [] again h = h
  save_entry-same variables entry (path ∷ paths) again h =
      (tt, λ x y. ((w.uncleaned, w.unaborted), λ x y. after_save-same _ again x h))

  cache_loop-same :
      (variables : Values) (untracked : List Bytes) (succeeded : Bool) (entries : List Cache)
      → Whole (cache_loop ext variables untracked succeeded entries)
  unfolding cache_loop
  cache_loop-same variables untracked succeeded [] = refl
  cache_loop-same variables untracked succeeded (entry ∷ entries) =
      let rest = cache_loop ext variables untracked succeeded entries in
      let same = cache_loop-same variables untracked succeeded entries in
      Keeps-if life (Same s) s (is_wanted entry.when succeeded && pushes entry)
        (save_entry ext variables entry (cache_paths variables untracked entry) rest) rest
        (λ e. save_entry-same variables entry _ rest same) (λ e. same)

  pub upload_cache-same :
      (config : Config) (job : Job) (succeeded : Bool)
      → Keeps life (λ t r. t ≡ s) s (upload_cache ext config job succeeded)
  unfolding upload_cache
  upload_cache-same config job succeeded =
      Keeps-if life (Same s) s config.cache_enabled
        (untracked_if_needed ext (any_wants job.cache) >>= λ untracked.
          cache_loop ext (job_variables job) untracked succeeded job.cache)
        (done tt)
        (λ e.
          Keeps-bind life (Same s) (Same s) s (untracked_if_needed ext (any_wants job.cache)) _
            (untracked-Same s ext (any_wants job.cache) w)
            (λ t untracked h.
              rw h (cache_loop-same (job_variables job) untracked succeeded job.cache)))
        (λ e. refl)
