-- ===== src/Trace.antt =====
-- src/runner_daemon/trace.rs, the job log, with the calls of src/gitlab/mod.rs that it sends it by
-- (`patch_trace`, `retry_with_backoff`). GitLab is a parameter: a state and what it answers to a
-- PATCH request. Time is an argument in milliseconds; the waits between attempts change nothing.
mod Defs
pub mod Lossy
pub mod Server
pub mod Append
pub mod Secrecy
pub mod Prefix
pub mod Flush
pub mod Delivery
pub mod Finish
pub mod Tests
pub use Defs.{
  Reply, lost, answer, TraceServer, TracePatch, retry_with_backoff, patch_trace, TraceWriter,
  append, flush, flush_if_due, write, finish,
}
