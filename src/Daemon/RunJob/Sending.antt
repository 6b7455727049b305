-- ===== src/Daemon/RunJob/Sending.antt =====
-- What `run_job` of src/runner_daemon/mod.rs sends after the scripts: artifacts and caches.
use turboci.Prelude.{◌≡◌, refl, ◌∙◌, Bool, true, false, ◌&&◌, none, some, Bytes, codes}
use turboci.Program.{Keeps, Keeps-bind, Keeps-weaken, ask, ◌>>=◌}
use turboci.Cancel.{RemoteState, running, canceling, aborted}
use turboci.Outcome.{JobOutcome}
use turboci.Job.{Job}
use turboci.Daemon.{section_start, section_end, Externals, Config, pushes, any_cache}
use turboci.Daemon.Life.{Life, seen, life, Accounted, Ready}
use turboci.Daemon.Uploads.{upload_artifacts, upload_cache}
use turboci.Daemon.Uploads.Lives.{upload_artifacts-Ready, upload_cache-same}
use turboci.Daemon.RunJob.{
  is_ok, has_artifacts, joined, upload_section, when_true, send_artifacts, send_cache, send_results,
}

abbrev Same : {A : Type 0} → Life → Life → A → Type 0
Same s t r = t ≡ s

-- Before the cleanup: success stands for a good life.
abbrev pub Ran : Life → JobOutcome → Type 0
Ran s r = (s.cleaned ≡ 0) × (s.released ≡ 0) × (s.reports ≡ 0) × Accounted true s r

pub ran : (s : Life) (r : JobOutcome) → Ready true s r → Ran s r
ran s r h = (h.0.uncleaned, h.0.unreleased, h.0.unreported, h.1)

after_join :
    (s : Life) (outcome uploaded : JobOutcome)
    → Accounted true s outcome
    → (t : Life) → Accounted s.good t uploaded
    → Accounted true t (joined outcome uploaded)
unfolding joined
after_join s none none a t b = b ∙ a
after_join s none (some f) a t b = tt
after_join s (some f) uploaded a t b = tt

module _ (ext : Externals) (config : Config) (job : Job) where
  when-Same :
      (s : Life) (b : Bool) (name header : Bytes)
      → Keeps life (Same s) s (when_true b (ask (section_start name header)))
  unfolding when_true
  when-Same s true name header = (tt, λ x y. refl)
  when-Same s false name header = refl

  end-Same :
      (s : Life) (b : Bool) (name : Bytes)
      → Keeps life (Same s) s (when_true b (ask (section_end name)))
  unfolding when_true
  end-Same s true name = (tt, λ x y. refl)
  end-Same s false name = refl

  send_artifacts-Ready :
      (s : Life) (outcome : JobOutcome)
      → Ready true s outcome
      → Keeps life (Ready true) s (send_artifacts ext job outcome)
  unfolding send_artifacts
  send_artifacts-Ready s outcome r =
      Keeps-bind life (Same s) (Ready true) s _ _ (when-Same s (has_artifacts job.artifacts) _ _)
        (λ t x h. rw h (
          Keeps-bind life (Ready s.good) (Ready true) s (upload_artifacts ext job (is_ok outcome)) _
            (upload_artifacts-Ready s ext job (is_ok outcome) r.0)
            (λ t uploaded b.
              Keeps-bind life (Same t) (Ready true) t _ _
                (end-Same t (has_artifacts job.artifacts) (upload_section (is_ok outcome)))
                (λ u x h. rw h (b.0, after_join s outcome uploaded r.1 t b.1)))))

  send_cache-Ready :
      (s : Life) (outcome : JobOutcome)
      → Ready true s outcome
      → Keeps life (Ready true) s (send_cache ext config job outcome)
  unfolding send_cache
  send_cache-Ready s outcome r =
      let shown = config.cache_enabled && any_cache pushes job.cache in
      Keeps-bind life (Same s) (Ready true) s _ _ (when-Same s shown _ _) (λ t x h. rw h (
        Keeps-bind life (Same s) (Ready true) s (upload_cache ext config job (is_ok outcome)) _
          (upload_cache-same s r.0 ext config job (is_ok outcome))
          (λ t x h. rw h (
            Keeps-bind life (Same s) (Ready true) s _ _ (end-Same s shown (codes "archive_cache"))
              (λ t x h. rw h r)))))

  send_both :
      (s : Life) (outcome : JobOutcome)
      → Ready true s outcome
      → Keeps life Ran s (send_artifacts ext job outcome >>= send_cache ext config job)
  send_both s outcome r =
      Keeps-bind life (Ready true) Ran s (send_artifacts ext job outcome) _
        (send_artifacts-Ready s outcome r)
        (λ t outcome h.
          Keeps-weaken life (Ready true) Ran t (send_cache ext config job outcome)
            (λ t r h. ran t r h) (send_cache-Ready t outcome h))

  working : (s : Life) (r : JobOutcome) → Ran s r → Ready true (record s { is_aborted = false }) r
  working s none h =
      (record { uncleaned = h.0; unreleased = h.1; unreported = h.2; unaborted = refl }, h.3)
  working s (some f) h =
      (record { uncleaned = h.0; unreleased = h.1; unreported = h.2; unaborted = refl }, tt)

  still-Ran : (s : Life) (r : JobOutcome) → Ran s r → Ran (record s { is_aborted = true }) r
  still-Ran s none h = h
  still-Ran s (some f) h = h

  pub send_results-Ran :
      (s : Life) (outcome : JobOutcome) (state : RemoteState)
      → Ran s outcome
      → Keeps life Ran (seen s state) (send_results ext config job outcome state)
  unfolding send_results
  send_results-Ran s outcome running h =
      send_both (record s { is_aborted = false }) outcome (working s outcome h)
  send_results-Ran s outcome canceling h =
      send_both (record s { is_aborted = false }) outcome (working s outcome h)
  send_results-Ran s outcome aborted h = still-Ran s outcome h
