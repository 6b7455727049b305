-- ===== src/Daemon/Life.antt =====
-- What is demanded of the calls of a job of src/runner_daemon/mod.rs, given the calls before them.
use turboci.Prelude.{ℕ, ◌+◌, ◌≡◌, Bool, true, false, Option, none, some, Bytes}
use turboci.Cancel.{RemoteState, canceling, aborted, Shutdown, up, graceful, abort}
use turboci.Outcome.{JobState, pending, success, failed, canceled, JobOutcome}
use turboci.Program.{Protocol}
use turboci.Daemon.{
  Archived, no_files, archived, archive_error, Op, write, section_start, section_end, finish_trace,
  cancel_state, shutdown_mode, start_heartbeat, stop_heartbeat, claim_workspace, release_workspace,
  evict_workspaces, prepare, create_project_dir, execute, cleanup, untracked_files, create_archive,
  upload, save_cache, restore_cache, download, update_job, Answer,
}

-- A summary of a job's calls: how often its workspace was cleaned up and released and its state
-- reported, whether all that it needs went well, whether the last look at the cancel signal showed
-- an abort, and whether the runner is aborting.
pub record Life : Type 0 where
  pub cleaned : ℕ
  pub released : ℕ
  pub reports : ℕ
  pub good : Bool
  pub is_aborted : Bool
  pub by_shutdown : Bool

abbrev pub born : Life
born = record {
  cleaned = 0;
  released = 0;
  reports = 0;
  good = true;
  is_aborted = false;
  by_shutdown = false;
}

abbrev pub spoiled : Life → Life
spoiled s = record s { good = false }

abbrev pub no_error : Life → Option Bytes → Life
no_error s none = s
no_error s (some e) = spoiled s

abbrev pub no_failure : Life → JobOutcome → Life
no_failure s none = s
no_failure s (some f) = spoiled s

abbrev pub no_archive_error : Life → Archived → Life
no_archive_error s no_files = s
no_archive_error s (archived path len) = s
no_archive_error s (archive_error e) = spoiled s

abbrev pub seen : Life → RemoteState → Life
seen s RemoteState.running = record s { is_aborted = false }
seen s canceling = record s { is_aborted = false }
seen s aborted = record s { is_aborted = true }

abbrev pub mode_seen : Life → Shutdown → Life
mode_seen s up = record s { by_shutdown = false }
mode_seen s graceful = record s { by_shutdown = false }
mode_seen s abort = record s { by_shutdown = true }

abbrev pub lived : Life → (op : Op) → Answer op → Life
lived s (write text) x = s
lived s (section_start name header) x = s
lived s (section_end name) x = s
lived s finish_trace x = s
lived s cancel_state state = seen s state
lived s shutdown_mode mode = mode_seen s mode
lived s start_heartbeat x = s
lived s stop_heartbeat x = s
lived s claim_workspace x = s
lived s release_workspace x = record s { released = s.released + 1 }
lived s evict_workspaces x = s
lived s prepare e = no_error s e
lived s create_project_dir e = no_error s e
lived s execute outcome = no_failure s outcome
lived s (cleanup keep) x = record s { cleaned = s.cleaned + 1 }
lived s untracked_files x = s
lived s (create_archive paths exclude format) x = no_archive_error s x
lived s (upload archive) e = no_error s e
lived s (save_cache key paths) x = s
lived s (restore_cache keys) x = s
lived s (download id token) x = s
lived s (update_job state reason exit_code) x = record s { reports = s.reports + 1 }

-- What is being left behind is sent before the cleanup and by no job known to be aborted.
abbrev pub MaySend : Life → Type 0
MaySend s = (s.cleaned ≡ 0) × (s.is_aborted ≡ false)

abbrev pub Truthful : Life → JobState → Type 0
Truthful s success = s.good ≡ true
Truthful s pending = Unit {0}
Truthful s JobState.running = Unit {0}
Truthful s failed = Unit {0}
Truthful s canceled = Unit {0}

-- The job is executed and sends its artifacts and caches before its workspace is cleaned up; its
-- state is reported once, behind that, and as a success only if nothing that it needs failed.
abbrev pub MayCall : Life → Op → Type 0
MayCall s (write text) = Unit {0}
MayCall s (section_start name header) = Unit {0}
MayCall s (section_end name) = Unit {0}
MayCall s finish_trace = Unit {0}
MayCall s cancel_state = Unit {0}
MayCall s shutdown_mode = Unit {0}
MayCall s start_heartbeat = Unit {0}
MayCall s stop_heartbeat = Unit {0}
MayCall s claim_workspace = Unit {0}
MayCall s release_workspace = s.cleaned ≡ 1
MayCall s evict_workspaces = Unit {0}
MayCall s prepare = s.cleaned ≡ 0
MayCall s create_project_dir = s.cleaned ≡ 0
MayCall s execute = s.cleaned ≡ 0
MayCall s (cleanup keep) = s.cleaned ≡ 0
MayCall s untracked_files = MaySend s
MayCall s (create_archive paths exclude format) = MaySend s
MayCall s (upload archive) = MaySend s
MayCall s (save_cache key paths) = MaySend s
MayCall s (restore_cache keys) = s.cleaned ≡ 0
MayCall s (download id token) = s.cleaned ≡ 0
MayCall s (update_job state reason exit_code) =
    (s.cleaned ≡ 1) × (s.released ≡ 1) × (s.reports ≡ 0) × Truthful s state

abbrev pub life : Protocol Op Answer Life
life = record { allowed = MayCall; expected = λ s op x. Unit {0}; next = lived }

-- Before the cleanup, and not known to be aborted; nothing is released or reported.
pub record Working (s : Life) : Type 0 where
  pub uncleaned : s.cleaned ≡ 0
  pub unreleased : s.released ≡ 0
  pub unreported : s.reports ≡ 0
  pub unaborted : s.is_aborted ≡ false

-- A step that ends without a failure has left `good` as it was.
abbrev pub Accounted : Bool → Life → JobOutcome → Type 0
Accounted g s none = s.good ≡ g
Accounted g s (some f) = Unit {0}

abbrev pub Ready : Bool → Life → JobOutcome → Type 0
Ready g s r = Working s × Accounted g s r
