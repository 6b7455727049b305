-- ===== src/Daemon/RunJob/Report.antt =====
-- What `run_job` of src/runner_daemon/mod.rs reports, and when.
use turboci.Prelude.{◌≡◌, true, false, Option, Bytes, ◌⊎◌}
use turboci.Outcome.{JobOutcome}
use turboci.Job.{Job}
use turboci.Daemon.Life.{Life, Accounted, Ready}
use turboci.Daemon.RunJob.{unprepared}

-- The end: the workspace was cleaned up once and released once, and the job's state was reported
-- once, unless the last look at the cancel signal showed an abort that is not the runner's own: then
-- not at all.
abbrev pub Ended : {A : Type 0} → Life → A → Type 0
Ended s r =
    (s.cleaned ≡ 1)
    × (s.released ≡ 1)
    × ((s.reports ≡ 1) ⊎ ((s.reports ≡ 0) × (s.is_aborted ≡ true) × (s.by_shutdown ≡ false)))

-- Ready for the final report.
abbrev Reportable : Life → JobOutcome → Type 0
Reportable s r = (s.cleaned ≡ 1) × (s.released ≡ 1) × (s.reports ≡ 0) × Accounted true s r

abbrev Prepared : Life → Option Bytes → Type 0
Prepared s e = Ready true s (unprepared e)
