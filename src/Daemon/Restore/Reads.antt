-- ===== src/Daemon/Restore/Reads.antt =====
-- What `restore_workspace` of src/runner_daemon/mod.rs may read, and its caches.
use turboci.Prelude.{
  ◌≡◌, refl, ℕ, zero, suc, false, ◌&&◌, ◌⊎◌, inl, inr, if◌then◌else◌, List, [], ◌∷◌, ◌++◌, Option,
  none, some, Bytes, codes,
}
use turboci.Text.{ends_with}
use turboci.Program.{Protocol, Keeps, Keeps-bind, Keeps-if, done, ask}
use turboci.Outcome.{JobOutcome}
use turboci.Job.{Cache, Dependency, Job}
use turboci.Script.{Values}
use turboci.Daemon.{
  Source, Restored, restored, restore_error, Op, section_end, restore_cache, download, Answer,
  Externals, Config, job_variables, resolve_key, pulls, any_cache,
}
use turboci.Daemon.Restore.{
  value_at, fallback_key, resolve_all, fallback_list, warnings, report_hit, report_restore,
  retry_restore, restore_entry, restore_loop, restore_caches,
}

abbrev Unprotected : Bytes → Type 0
Unprotected key = ends_with (codes "-protected") key ≡ false

-- What may stand behind an entry's own keys: nothing, or CACHE_FALLBACK_KEY, if it does not end in
-- `-protected` once it is expanded.
abbrev pub LastResort : Values → List Bytes → Type 0
LastResort variables more =
    (more ≡ [])
    ⊎ ((key : Bytes) × (value_at variables (codes "CACHE_FALLBACK_KEY") ≡ some key)
        × (more ≡ key ∷ [])
        × Unprotected (resolve_key key variables))

-- The keys of one entry.
abbrev pub OfEntry : Values → Cache → List Bytes → Type 0
OfEntry variables entry keys =
    (more : List Bytes) × (keys ≡ resolve_all variables (entry.key ∷ (entry.fallback_keys ++ more)))
    × LastResort variables more

abbrev pub OfSome : Values → List Cache → List Bytes → Type 0
OfSome variables [] keys = ⊥
OfSome variables (entry ∷ entries) keys =
    OfEntry variables entry keys ⊎ OfSome variables entries keys

abbrev pub downloaded_to : List ℕ → ℕ → Option Bytes → List ℕ
downloaded_to ids id none = id ∷ ids
downloaded_to ids id (some e) = ids

-- The jobs whose artifacts were downloaded, the last one first.
abbrev pub got : List ℕ → (op : Op) → Answer op → List ℕ
got ids (download id token) e = downloaded_to ids id e
got ids op x = ids

abbrev pub ReadsOwn : Job → List ℕ → Op → Type 0
ReadsOwn job ids (restore_cache keys) = OfSome (job_variables job) job.cache keys
ReadsOwn job ids op = Unit {0}

abbrev pub restoring : Job → Protocol Op Answer (List ℕ)
restoring job = record { allowed = ReadsOwn job; expected = λ s op x. Unit {0}; next = got }

-- The jobs whose artifacts are needed, put in front of `ids` in their order.
abbrev pub needed : List Dependency → List ℕ → List ℕ
needed [] ids = ids
needed (d ∷ ds) ids = needed ds (if d.has_artifacts_file then d.id ∷ ids else ids)

-- Success: all of them.
abbrev pub Complete : List ℕ → List ℕ → JobOutcome → Type 0
Complete wanted ids none = ids ≡ wanted
Complete wanted ids (some f) = Unit {0}

abbrev pub Same : {A : Type 0} → List ℕ → List ℕ → A → Type 0
Same s t r = t ≡ s

module _ (job : Job) (ids : List ℕ) where
  abbrev p : Protocol Op Answer (List ℕ)
  p = restoring job

  abbrev Allowed : Option Bytes → Type 0
  Allowed o = LastResort (job_variables job) (fallback_list o)

  warnings-Same : (ws : List Bytes) → Keeps p (Same ids) ids (warnings ws)
  unfolding warnings
  warnings-Same [] = refl
  warnings-Same (w ∷ ws) = (tt, λ x e. warnings-Same ws)

  hit-Same :
      (ext : Externals) (hit : Option (Bytes × Source))
      → Keeps p (Same ids) ids (report_hit ext hit)
  unfolding report_hit
  hit-Same ext none = (tt, λ x e. refl)
  hit-Same ext (some (key, source)) = (tt, λ x e. refl)

  report-Same : (ext : Externals) (r : Restored) → Keeps p (Same ids) ids (report_restore ext r)
  unfolding report_restore
  report-Same ext (restored hit ws) =
      Keeps-bind p (Same ids) (Same ids) ids (warnings ws) _ (warnings-Same ws)
        (λ t x h. rw h (hit-Same ext hit))
  report-Same ext (restore_error e) = (tt, λ x e. refl)

  retry-Same :
      (tries : ℕ) (keys : List Bytes) (r : Restored)
      → OfSome (job_variables job) job.cache keys
      → Keeps p (Same ids) ids (retry_restore tries keys r)
  unfolding retry_restore
  retry-Same zero keys r h = refl
  retry-Same (suc tries) keys (restored hit ws) h = refl
  retry-Same (suc tries) keys (restore_error e) h = (h, λ r e. retry-Same tries keys r h)

  abbrev Fallback : List ℕ → Option Bytes → Type 0
  Fallback t o = (t ≡ ids) × Allowed o

  Fallback-same :
      (o : Option Bytes)
      → value_at (job_variables job) (codes "CACHE_FALLBACK_KEY") ≡ o
      → Keeps p Fallback ids (fallback_key (job_variables job) o)
  unfolding fallback_key fallback_list
  Fallback-same none g = (refl, inl refl)
  Fallback-same (some key) g =
      Keeps-if p Fallback ids (ends_with (codes "-protected") (resolve_key key (job_variables job)))
        _ _ (λ e. (tt, λ x e. (refl, inl refl))) (λ e. (refl, inr (key, g, refl, e)))

  entry-Same :
      (ext : Externals) (entry : Cache)
      → ((keys : List Bytes)
          → OfEntry (job_variables job) entry keys
          → OfSome (job_variables job) job.cache keys)
      → Keeps p (Same ids) ids (restore_entry ext job (job_variables job) entry)
  unfolding restore_entry
  entry-Same ext entry listed =
      Keeps-bind p Fallback (Same ids) ids _ _
        (Fallback-same (value_at (job_variables job) (codes "CACHE_FALLBACK_KEY")) refl)
        (λ t fallback h. rw h.0 (
          let own = listed _ (fallback_list fallback, refl, h.1) in
          (
            tt,
            λ x e. (
              own,
              λ r e.
                  Keeps-bind p (Same ids) (Same ids) ids (retry_restore _ _ r) (report_restore ext)
                    (retry-Same _ _ r own) (λ t r h. rw h (report-Same ext r)),
            ),
          )))

  loop-Same :
      (ext : Externals) (entries : List Cache)
      → ((keys : List Bytes)
          → OfSome (job_variables job) entries keys
          → OfSome (job_variables job) job.cache keys)
      → Keeps p (Same ids) ids (restore_loop ext job (job_variables job) entries)
  unfolding restore_loop
  loop-Same ext [] listed = refl
  loop-Same ext (entry ∷ entries) listed =
      Keeps-bind p (Same ids) (Same ids) ids _
        (λ x. restore_loop ext job (job_variables job) entries)
        (Keeps-if p (Same ids) ids (pulls entry) (restore_entry ext job (job_variables job) entry)
          (done tt) (λ e. entry-Same ext entry (λ keys h. listed keys (inl h))) (λ e. refl))
        (λ t x h. rw h (loop-Same ext entries (λ keys h. listed keys (inr h))))

  pub caches-Same :
      (ext : Externals) (config : Config) → Keeps p (Same ids) ids (restore_caches ext config job)
  unfolding restore_caches
  caches-Same ext config =
      Keeps-if p (Same ids) ids (config.cache_enabled && any_cache pulls job.cache) _ (done tt)
        (λ e. (
          tt,
          λ x e.
              Keeps-bind p (Same ids) (Same ids) ids
                (restore_loop ext job (job_variables job) job.cache)
                (λ x. ask (section_end (codes "restore_cache")))
                (loop-Same ext job.cache (λ keys h. h)) (λ t x h. (tt, λ x e. h)),
        ))
        (λ e. refl)
