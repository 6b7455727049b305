-- ===== src/Lib.antt =====
-- TurboCI, a GitLab runner in Rust. The runner asks GitLab for jobs, runs each one in an executor,
-- and streams the job's output to GitLab's job log, with the job's secrets masked. Several jobs run
-- at once; each has a cancellation signal, which GitLab's answers, a heartbeat and the runner's
-- shutdown raise.
--
-- The parts modelled, and where:
--   Prelude, Text: the shared helpers and lemmas, and what the source uses of the standard library's
--     strings (a text is the list of its UTF-8 bytes) and number parsing.
--   Job: the structures of the job that GitLab sends (src/gitlab/mod.rs).
--   Scrubber: src/security/secret_scrubber.rs. `scrub` masks a whole text, `push` and `finish` a
--     stream of chunks; `push` is `advance` after the test of the swallowing state, and `advance`
--     finds the boundary up to which output is safe (`safe_boundary`) and applies the limit. JobSecrets is
--     `with_job_secrets`, Encode is `percent_encode`.
--   Cancel: src/runner_daemon/cancel.rs, `RemoteState` of src/gitlab/mod.rs, the shutdown mode and
--     `spawn_heartbeat` of src/runner_daemon/mod.rs, as a step for each event that wakes the loop.
--   Trace: src/runner_daemon/trace.rs and `patch_trace` and `retry_with_backoff` of
--     src/gitlab/mod.rs. The writer scrubs what it is given (Scrubber), keeps it in its trace, sends
--     the part that GitLab has not acknowledged, and raises the job's signal (Cancel).
--   Slots: `ConcurrencySlots` of src/runner_daemon/mod.rs, with histories of job starts and ends.
--   Script: src/runner_daemon/script.rs. Script.Words reads lines as a POSIX shell does, by a reader
--     that stops where the shell would do more than read words; Script.Expand is about `expand`,
--     Script.Env about `JobEnv::set` and `service_env`, Script.Subdir about `project_subdir`,
--     Script.Environment about `job_env`.
--   Git: src/runner_daemon/git.rs: the strategies, the commands of a checkout and of an update
--     (`sync_commands`), and the script of them (`checkout_script`).
--   Image: src/runner_daemon/image.rs: tags, pull policies (`PullPolicy::resolve`) and the command of
--     a docker:dind service.
--   Program: asynchronous code as the calls that it makes of its environment, each with what follows
--     for every answer. `Keeps` says of every run, whatever is answered, that each call is one that a
--     protocol allows after the calls before it, and that the result fits them. The client, the
--     executor, the daemon and the extraction are such programs.
--   Outcome: `JobFailure` of src/runner_daemon/executor.rs, `FailureReason` and `JobState` of
--     src/gitlab/mod.rs.
--   Client: `GitLabClient` of src/gitlab/mod.rs: `request_job`, `update_job`, `touch_job`,
--     `verify_runner`, `reset_runner_token` and `upload_artifacts`. Its calls are the requests. Jobs,
--     Tokens and Uploads have the requests about these, Client itself `update_job`.
--   Executor: src/runner_daemon/executor.rs. Workspace is `workspace`; Sources is `get_sources` with
--     `run_hook` and `checkout`; JobSteps is `run_job_steps`, of which `with_start` to `with_deadline`
--     are what is left once a value is known, and Steps its loop over the steps, of which `round` is a
--     round. Its calls are the clock, the cancel signal, the log, `ScriptRunner::run` and the race of
--     the restore. The start and the job's timeout, a 32-bit number of seconds, never overflow.
--   Daemon: src/runner_daemon/mod.rs: Uploads is `upload_artifacts` and `upload_cache`, Restore is
--     `restore_workspace` and `download_dependencies`, RunJob is `run_job`. Its calls are the log, the
--     executor, the caches, the archives and the final update; Life says what is demanded of them.
--   LocalCache: src/runner_daemon/job_cache.rs: the names of archives (`encode_key`), `restore` with
--     `fetch`, and `save`. Its calls are the file system, S3, the archives and the eviction.
--   Token: `TokenStore` of src/runner_daemon/token.rs and `rotate_token` of src/runner_daemon/mod.rs. Its
--     calls are the clock, the files, GitLab, the lock `rotating` and what the tasks share. The
--     differences and sums of instants are taken not to overflow, and `rotate_token` is its first
--     rounds, as many as one likes.
--   Artifacts: `extract_zip_reader` of src/runner_daemon/artifacts.rs, with `safe_fs` and
--     `symlink_stays_inside`. Its calls are those of the file system below an open directory; Writes
--     says which of them are allowed.
--
-- Parameters. Regular expressions are those of the regex crate (`Regex`: the ranges of the matches
-- and the replacement). GitLab's side of the log is a `TraceServer`: a state and what it answers
-- to a PATCH request, a lost request or answer included. `IsJobLog` states what GitLab's API
-- documents of its offsets, `IsUp` that it also answers in some of its states and stays in them;
-- `plain_server` is a server of which both hold, and `lossy_server` one whose first answers are
-- lost. The JSON of serde and the times of chrono are the record `Json`; Debug output, durations
-- computed with floats and the last instant of the clock are `Executor.Externals`; glob patterns
-- and sizes in megabytes are `Daemon.Externals`; the JSON of a stored token and the share of its
-- lifetime `Token.Externals`; BLAKE3 is an argument of the cache's names, and the components of a
-- path one of the extraction.
--
-- Bounds and fuel. Numbers are unbounded, except where the source parses them (a 64-bit offset, a
-- 64-bit interval). The search for a free slot number has one round more than there are numbers in
-- use, which is enough by the pigeonhole principle (Slots.LowestFree). The loop of `expand` has as
-- many rounds as the text has bytes, and each takes at least one. `retry_with_backoff` has the
-- source's 3 attempts and `finish` its 5. The loops that move a boundary to one between characters have as many
-- rounds as there are bytes in that direction. The log's time is a number of milliseconds given to each
-- call, the executor's one of nanoseconds that the clock answers. Loops over attempts recur on the
-- attempts that are left, with the source's bounds: 8 for `update_job`, 3 for an upload, 1 to 10 for
-- the sources, the cache and the artifacts of a dependency.
--
-- Not modelled: of the executor, the preparation, cleanup and eviction of workspaces, the decoding of
-- the output, and the Docker and shell runners, which are calls of Docker and of the system; of the
-- daemon, the loop that asks for jobs, and `execute_job` with the configuration that it applies; of
-- the client, the download of artifacts; of the artifacts, the creation of archives; of the cache,
-- the eviction; S3 and the configuration; the command line, network set-up
-- and the installer, which are calls of libraries and of the system. Of the scrubber, the default
-- patterns and the constructor that compiles them; of the trace, a writer without a client, which
-- only collects; of the scripts, `parse_duration`, which computes with floats; of the images, service
-- aliases, registry credentials and address ranges.
pub mod Artifacts
pub mod Cancel
pub mod Client
pub mod Daemon
pub mod Executor
pub mod Git
pub mod Image
pub mod Job
pub mod LocalCache
pub mod Outcome
pub mod Prelude
pub mod Program
pub mod Script
pub mod Scrubber
pub mod Slots
pub mod Text
pub mod Token
pub mod Trace
