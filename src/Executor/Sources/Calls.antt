-- ===== src/Executor/Sources/Calls.antt =====
-- `get_sources` of src/runner_daemon/executor.rs writes to the log and runs scripts with the runner of
-- the sources, within the limits that it is given, and calls nothing else.
use turboci.Prelude.{
  ◌≡◌, refl, ℕ, zero, suc, ◌-◌, ltb, if◌then◌else◌, Option, none, some, List, [], ◌∷◌, Bytes, codes,
}
use turboci.Program.{Program, Protocol, Keeps, Keeps-bind, Keeps-if}
use turboci.Job.{Job, GitInfo}
use turboci.Git.{GitStrategy, strategy}
use turboci.Outcome.{is_zero}
use turboci.Executor.{
  RunStatus, exited, error, timed_out, canceled, Limits, sources, JobDirs, write, run, Op, Answer,
  Externals,
}
use turboci.Executor.Sources.{
  Fetched, ◌then◌, continue, run_lines, run_hook, match_checkout, try_checkout, SourceScript,
  skipped, refused, script, checkout_with, checkout_info, checkout, get_sources,
}

-- A protocol that lets both calls through unseen in the state `s`.
module _ {S : Type 0} (p : Protocol Op Answer S) (s : S) (limits : Limits)
    (writes : (text : Bytes) → p.allowed s (write text))
    (unseen_write : (text : Bytes) (x : Unit {0}) → p.next s (write text) x ≡ s)
    (runs : (text dir : Bytes) → p.allowed s (run sources text dir limits))
    (unseen_run : (text dir : Bytes) (x : RunStatus)
      → p.next s (run sources text dir limits) x ≡ s) where
  abbrev Unseen : S → Fetched → Type 0
  Unseen t r = t ≡ s

  then-Unseen :
      (m k : Program Op Answer Fetched)
      → Keeps p Unseen s m
      → Keeps p Unseen s k
      → Keeps p Unseen s (m then k)
  then-Unseen m k f g = Keeps-bind p Unseen Unseen s m (continue k) f (λ t r h. rw h (go r))
    where
      go : (r : Fetched) → Keeps p Unseen s (continue k r)
      go none = g
      go (some e) = refl

  hook-Unseen :
      (name dir : Bytes) (lines : List Bytes) → Keeps p Unseen s (run_lines name dir limits lines)
  unfolding run_lines
  hook-Unseen name dir [] = refl
  hook-Unseen name dir (line ∷ lines) =
      (writes _, λ x e. rw (unseen_write _ x) (runs _ _, λ y e. unseen_run _ _ y))

  match-Unseen :
      (attempts attempt : ℕ) (dirs : JobDirs) (again : Program Op Answer Fetched)
      → Keeps p Unseen s again
      → (status : RunStatus)
      → Keeps p Unseen s (match_checkout attempts attempt dirs limits again status)
  unfolding match_checkout
  match-Unseen attempts attempt dirs again h (exited code) =
      Keeps-if p Unseen s (is_zero code) _ _ (λ e. refl)
        (λ e.
          Keeps-if p Unseen s (ltb attempt attempts) _ _
            (λ e.
              (writes _, λ x e. rw (unseen_write _ x) (runs _ _, λ y e. rw (unseen_run _ _ y) h)))
            (λ e. refl))
  match-Unseen attempts attempt dirs again h timed_out = refl
  match-Unseen attempts attempt dirs again h canceled = refl
  match-Unseen attempts attempt dirs again h (error e) = refl

  try-Unseen :
      (attempts left : ℕ) (text : Bytes) (dirs : JobDirs)
      → Keeps p Unseen s (try_checkout attempts left text dirs limits)
  unfolding try_checkout
  try-Unseen attempts zero text dirs = refl
  try-Unseen attempts (suc left) text dirs = (
    runs _ _,
    λ y e.
        rw (unseen_run _ _ y)
          (match-Unseen attempts (attempts - left) dirs _ (try-Unseen attempts left text dirs) y),
  )

  with-Unseen :
      (job : Job) (g : GitInfo) (dirs : JobDirs) (strategy : GitStrategy) (found : SourceScript)
      → Keeps p Unseen s (checkout_with job g dirs limits strategy found)
  unfolding checkout_with
  with-Unseen job g dirs strategy skipped = (writes _, λ x e. unseen_write _ x)
  with-Unseen job g dirs strategy (refused f) = refl
  with-Unseen job g dirs strategy (script text) =
      (writes _, λ x e. rw (unseen_write _ x) (try-Unseen _ _ _ dirs))

  info-Unseen :
      (ext : Externals) (job : Job) (dirs : JobDirs) (info : Option GitInfo)
      → Keeps p Unseen s (checkout_info ext job dirs limits info)
  unfolding checkout_info
  info-Unseen ext job dirs none = refl
  info-Unseen ext job dirs (some g) = with-Unseen job g dirs _ _

  pub get_sources_unseen :
      (ext : Externals) (job : Job) (dirs : JobDirs)
      → Keeps p (λ t r. t ≡ s) s (get_sources ext job dirs limits)
  unfolding get_sources run_hook checkout
  get_sources_unseen ext job dirs =
      then-Unseen _ _ (hook-Unseen (codes "pre_get_sources_script") dirs.builds _) (
        then-Unseen _ _ (info-Unseen ext job dirs job.git_info)
          (hook-Unseen (codes "post_get_sources_script") dirs.project _))
