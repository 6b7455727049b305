-- ===== src/Daemon/Restore/Laws.antt =====
-- What the success of `restore_workspace` of src/runner_daemon/mod.rs means.
use turboci.Prelude.{
  ◌≡◌, refl, ℕ, zero, suc, Bool, true, false, ◌||◌, if◌then◌else◌, List, [], ◌∷◌, Option, none,
  some, Bytes, codes,
}
use turboci.Program.{Program, Keeps, Keeps-bind, Keeps-if, done, ask, ◌>>=◌, ◌>>◌}
use turboci.Outcome.{JobOutcome}
use turboci.Job.{Dependency, Job}
use turboci.Daemon.{Op, write, Answer, Externals, Config, attempts}
use turboci.Daemon.Restore.{
  restore_caches, again_unless, try_download, next_unless, download_loop, any_artifacts,
  close_section, restore_workspace,
}
use turboci.Daemon.Restore.Reads.{downloaded_to, restoring, needed, Complete, Same, caches-Same}

-- One dependency: its artifacts are there, or the job fails.
abbrev Got : List ℕ → ℕ → List ℕ → Option Bytes → Type 0
Got ids id t none = t ≡ id ∷ ids
Got ids id t (some e) = Unit {0}

module _ (job : Job) where
  again-Got :
      (ids : List ℕ) (id : ℕ) (again : Option Bytes → Program Op Answer (Option Bytes))
      → ((e : Bytes) → Keeps (restoring job) (Got ids id) ids (again (some e)))
      → (e : Option Bytes)
      → Keeps (restoring job) (Got ids id) (downloaded_to ids id e) (again_unless (again e) e)
  unfolding again_unless
  again-Got ids id again h none = refl
  again-Got ids id again h (some e) = h e

  try-Got :
      (left : ℕ) (ids : List ℕ) (e : Bytes) (d : Dependency)
      → Keeps (restoring job) (Got ids d.id) ids (try_download left (some e) d)
  unfolding try_download
  try-Got zero ids e d = tt
  try-Got (suc left) ids e d =
      (tt, λ r x. again-Got ids d.id (λ r. try_download left r d) (λ e. try-Got left ids e d) r)

  next-Got :
      (ids wanted : List ℕ) (d : Dependency) (next : Program Op Answer JobOutcome)
      → Keeps (restoring job) (Complete wanted) (d.id ∷ ids) next
      → (t : List ℕ) (e : Option Bytes) → Got ids d.id t e
      → Keeps (restoring job) (Complete wanted) t (next_unless d next e)
  unfolding next_unless
  next-Got ids wanted d next h t none g = rw g h
  next-Got ids wanted d next h t (some e) g = tt

  -- The round for a dependency, whether it has artifacts or not.
  round_got :
      (b : Bool) (ids : List ℕ) (d : Dependency) (ds : List Dependency) (text : Bytes)
      (rest : Program Op Answer JobOutcome)
      → Keeps
          (restoring job)
          (Complete (needed ds (if b then d.id ∷ ids else ids)))
          (if b then d.id ∷ ids else ids)
          rest
      → Keeps (restoring job) (Complete (needed ds (if b then d.id ∷ ids else ids))) ids (
          if b
          then ask (write text)
            >> (try_download
                  (attempts job (codes "ARTIFACT_DOWNLOAD_ATTEMPTS"))
                  (some (codes "not attempted"))
                  d
                >>= next_unless d rest)
          else rest)
  round_got true ids d ds text rest h = (
    tt,
    λ x e.
        Keeps-bind (restoring job) (Got ids d.id) (Complete (needed ds (d.id ∷ ids))) ids _
          (next_unless d rest)
          (try-Got (attempts job (codes "ARTIFACT_DOWNLOAD_ATTEMPTS")) ids (codes "not attempted")
            d)
          (next-Got ids (needed ds (d.id ∷ ids)) d rest h),
  )
  round_got false ids d ds text rest h = h

  loop_got :
      (ids : List ℕ) (ds : List Dependency)
      → Keeps (restoring job) (Complete (needed ds ids)) ids (download_loop job ds)
  unfolding download_loop
  loop_got ids [] = refl
  loop_got ids (d ∷ ds) =
      round_got d.has_artifacts_file ids d ds _ (download_loop job ds) (loop_got _ ds)

  close_got :
      (wanted t : List ℕ) (r : JobOutcome)
      → Complete wanted t r
      → Keeps (restoring job) (Complete wanted) t (close_section r)
  unfolding close_section
  close_got wanted t r h = (tt, λ x e. h)

none_round :
    (b : Bool) (d : Dependency) (ds : List Dependency) (ids : List ℕ)
    → (b || any_artifacts ds) ≡ false
    → (any_artifacts ds ≡ false → ids ≡ needed ds ids)
    → ids ≡ needed ds (if b then d.id ∷ ids else ids)
none_round true d ds ids h f = absurd (cc h)
none_round false d ds ids h f = f h

none_needed : (ds : List Dependency) (ids : List ℕ) → any_artifacts ds ≡ false → ids ≡ needed ds ids
unfolding any_artifacts
none_needed [] ids h = refl
none_needed (d ∷ ds) ids h = none_round d.has_artifacts_file d ds ids h (λ e. none_needed ds ids e)

-- The restore succeeds only with the artifacts of every dependency that has some, downloaded in the
-- job's order. Of the cache it asks only for the keys of an entry, all of them in their order: its own
-- key, its fallbacks, and behind them at most the key that CACHE_FALLBACK_KEY gives, which does not
-- end in `-protected` once it is expanded.
pub restore-Complete :
    (ext : Externals) (config : Config) (job : Job)
    → Keeps
        (restoring job)
        (Complete (needed job.dependencies []))
        []
        (restore_workspace ext config job)
unfolding restore_workspace
restore-Complete ext config job =
    let post = Complete (needed job.dependencies []) in
    Keeps-bind (restoring job) (Same []) post [] (restore_caches ext config job) _
      (caches-Same job [] ext config)
      (λ t x h. rw h (
        Keeps-if (restoring job) post [] (any_artifacts job.dependencies) _ (done none)
          (λ e. (
            tt,
            λ x e.
                Keeps-bind (restoring job) post post [] (download_loop job job.dependencies)
                  close_section (loop_got job [] job.dependencies)
                  (λ t r h. close_got job (needed job.dependencies []) t r h),
          ))
          (λ e. none_needed job.dependencies [] e)))
