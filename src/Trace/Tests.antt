-- ===== src/Trace/Tests.antt =====
-- Runs of src/runner_daemon/trace.rs and the theorems at concrete histories.
use turboci.Prelude.{
  ℕ, ◌≤◌, ◌<◌, length, ◌≡◌, refl, true, false, List, [], ◌∷◌, ◌++◌, none, some, Bytes, codes, ◌⊎◌,
}
use turboci.Text.{match_indices, is_char_boundary, ends_with, replace}
use turboci.Text.Number.{parse_unsigned}
use turboci.Cancel.{running, aborted, from_response, update}
use turboci.Scrubber.{
  SecretScrubber, emitted, push, advance, emit_at, limit, longest_secret, max_length, safe_boundary,
  before_matches, match_ranges, secret_ranges, pattern_ranges, floor_boundary, secret_start,
  suffix_prefix_len, longest_prefix, token_run, take_tokens, is_token_char, scrub, mask_secrets,
  mask_patterns,
}
use turboci.Scrubber
use turboci.Scrubber.Sample.{only}
use turboci.Trace.Defs.{
  answer, TraceWriter, read_reply, range_end, is_success, update_interval, next_interval,
  retry_with_backoff, try_patch, patch_trace, acknowledge, flush, flush_if_due, write,
  flush_attempts, append, limit_message, new, finish,
}
use turboci.Trace.Server.{plain_server, plain_server-IsJobLog}
use turboci.Trace.Prefix.{IsPrefix}
use turboci.Trace.Delivery.{Call, written, polled, calls, log_prefix, finish_complete}
use turboci.Trace.Lossy.{lossy_server}
use turboci.Trace.Append.{texts, trace_shows}

abbrev secret : Bytes
secret = codes "hunter2!"

-- Two chunks that split the secret, with a poll between them.
abbrev history : List Call
history = written 10 (codes "key hun") ∷ polled 4000 ∷ written 4100 (codes "ter2! ok\n") ∷ []

-- What the writer has at the end, and what GitLab has then.
abbrev run : TraceWriter × Bytes
run = calls plain_server (only secret) history (new 0) []

run_lem :
    let (done, w', s') = finish plain_server (only secret) 5000 run.0 run.1 in
    (run.0.cancel ≡ running)
    × (done ≡ true)
    × (w'.truncated ≡ false)
    × (length w'.trace ≡ 16)
    × (s' ≡ codes "key [MASKED] ok\n")
unfolding calls finish write flush_attempts flush flush_if_due append acknowledge new read_reply
    is_success patch_trace try_patch retry_with_backoff from_response update update_interval
    next_interval push Scrubber.finish advance limit longest_secret max_length safe_boundary
    before_matches match_ranges secret_ranges pattern_ranges match_indices floor_boundary
    secret_start suffix_prefix_len longest_prefix is_char_boundary ends_with token_run take_tokens
    is_token_char scrub replace mask_secrets mask_patterns emit_at
run_lem = (refl, refl, refl, refl, refl)

gone :
    read_reply (answer 403 none none none) 5 9
    ≡ some (record { offset = 5; remote = aborted; update_interval = none })
unfolding read_reply from_response update_interval
gone = refl

behind :
    read_reply (answer 416 none (some (codes "0-3")) none) 5 9
    ≡ some (record { offset = 3; remote = running; update_interval = none })
unfolding read_reply range_end parse_unsigned from_response update_interval
behind = refl

-- The answers to the three attempts at the first request are lost, so the writer does not know that
-- GitLab has the bytes.
abbrev lossy_run : TraceWriter × (Bytes × ℕ)
lossy_run = calls lossy_server (only secret) history (new 0) ([], 3)

log_prefix_example : IsPrefix run.1 run.0.trace
log_prefix_example = log_prefix plain_server plain_server-IsJobLog (only secret) 0 history [] refl

finish_complete_example :
    let (_, w', s') = finish plain_server (only secret) 5000 run.0 run.1 in
    (s' ≡ w'.trace) ⊎ (w'.cancel ≡ aborted)
finish_complete_example =
    finish_complete plain_server plain_server-IsJobLog (only secret) 0 5000 history [] refl
      run_lem.1

trace_shows_example :
    let w' = (finish plain_server (only secret) 5000 run.0 run.1).1 in
    ((w'.truncated ≡ false)
      × (length w'.trace ≤ w'.limit)
      × (w'.trace ≡ emitted (only secret) Scrubber.new (texts history)))
    ⊎ ((w'.truncated ≡ true)
        × (w'.limit < length (emitted (only secret) Scrubber.new (texts history)))
        × ((p : Bytes) × (x : Bytes) × (emitted (only secret) Scrubber.new (texts history) ≡ p ++ x)
            × (w'.trace ≡ p ++ limit_message w'.limit)))
trace_shows_example = trace_shows plain_server (only secret) 0 5000 history []
