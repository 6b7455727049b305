-- ===== src/Trace/Finish.antt =====
-- `finish` of src/runner_daemon/trace.rs brings the whole log to a GitLab that is up.
use turboci.Scrubber.{StreamScrubber}
use turboci.Scrubber
