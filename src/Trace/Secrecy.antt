-- ===== src/Trace/Secrecy.antt =====
-- From a job's output to GitLab's log, by src/runner_daemon/trace.rs and
-- src/security/secret_scrubber.rs together.
