-- ===== src/Trace/Defs.antt =====
-- The operations of src/runner_daemon/trace.rs and of the trace calls of src/gitlab/mod.rs.
use turboci.Prelude.{
  ℕ, zero, suc, ◌+◌, ◌-◌, ◌*◌, min, true, false, Bool, ◌&&◌, ltb, leb, ◌==◌, if◌then◌else◌, [], ◌∷◌,
  ◌++◌, length, take, drop, Option, none, some, Bytes, codes,
}
use turboci.Text.Number.{max_u64, parse_unsigned, to_decimal}
use turboci.Cancel.{RemoteState, running, aborted, from_response, update}
use turboci.Scrubber.{SecretScrubber, StreamScrubber, floor_boundary}
use turboci.Scrubber

-- What comes back for a request: nothing (an error of the connection: GitLab may have handled the
-- request or not), or a status with the headers `Job-Status`, `Range` and
-- `X-GitLab-Trace-Update-Interval`, where they are present and readable.
pub data Reply : Type 0 where
  lost : Reply
  answer : ℕ → Option Bytes → Option Bytes → Option Bytes → Reply

-- GitLab's side: `patch s offset bytes` handles one PATCH of the job's trace.
pub record TraceServer : Type 1 where
  pub State : Type 0
  pub stored : State → Bytes
  pub patch : State → ℕ → Bytes → Reply × State

pub record TracePatch : Type 0 where
  pub offset : ℕ
  pub remote : RemoteState
  pub update_interval : Option ℕ

-- The part behind the first `-` of a `Range` header.
unfoldable pub after_dash : Bytes → Option Bytes
after_dash [] = none
after_dash (c ∷ t) = if c == b'-' then some t else after_dash t

unfoldable pub range_end : Bytes → Option ℕ
unfolding after_dash
range_end header = elim (after_dash header) [ none ↦ none | some end ↦ parse_unsigned max_u64 end ]

-- `update_interval`, in milliseconds.
unfoldable pub update_interval : Option Bytes → Option ℕ
update_interval none = none
update_interval (some header) = elim (parse_unsigned max_u64 header) [
  | none ↦ none
  | some seconds ↦ if seconds == 0 then none else some (seconds * 1000)
]

unfoldable pub is_success : ℕ → Bool
is_success status = leb 200 status && ltb status 300

-- What the closure in `patch_trace` makes of a reply; `none` is an error.
unfoldable pub read_reply : Reply → ℕ → ℕ → Option TracePatch
unfolding is_success
read_reply lost offset end_offset = none
read_reply (answer status job_status range interval) offset end_offset =
    let patch : ℕ → TracePatch = λ end. record {
      offset = end;
      remote = from_response status job_status;
      update_interval = update_interval interval;
    } in
    if status == 403
    then some (patch offset)
    else if status == 416
    then elim range [
      | none ↦ none
      | some header ↦ elim (range_end header) [
        | none ↦ none
        | some server_offset ↦ some (patch server_offset)
      ]
    ]
    else if is_success status
    then some (patch end_offset)
    else none

-- `retry_with_backoff` over an operation that makes no permanent error: at most `attempts` rounds.
unfoldable pub retry_with_backoff {ℓ} : {S T : Type ℓ} → ℕ → (S → Option T × S) → S → Option T × S
retry_with_backoff zero operation s = (none, s)
retry_with_backoff (suc attempts) operation s =
    let (result, s') = operation s in
    elim result [ some r ↦ (some r, s') | none ↦ retry_with_backoff attempts operation s' ]

module _ (gitlab : TraceServer) where
  open gitlab use {State, stored, patch}

  -- One request of `patch_trace`.
  unfoldable pub try_patch : ℕ → Bytes → State → Option TracePatch × State
  try_patch offset trace s =
      let (reply, s') = patch s offset trace in
      (read_reply reply offset (offset + length trace), s')

  unfoldable pub patch_trace : ℕ → Bytes → State → Option TracePatch × State
  patch_trace offset trace s = elim trace [
    | [] ↦ (some (record { offset = offset; remote = running; update_interval = none }), s)
    | c ∷ t ↦ retry_with_backoff 3 (try_patch offset (c ∷ t)) s
  ]

abbrev pub default_limit : ℕ
default_limit = 4 * 1024 * 1024

abbrev pub default_update_interval : ℕ
default_update_interval = 3 * 1000

abbrev pub max_update_interval : ℕ
max_update_interval = 15 * 60 * 1000

abbrev pub flush_bytes : ℕ
flush_bytes = 256 * 1024

-- The writer with a client; `cancel` is the value of the job's signal.
pub record TraceWriter : Type 0 where
  pub scrubber : StreamScrubber
  pub trace : Bytes
  pub sent : ℕ
  pub last_flush : ℕ
  pub update_interval : ℕ
  pub limit : ℕ
  pub truncated : Bool
  pub cancel : RemoteState

unfoldable pub new : ℕ → TraceWriter
new now = record {
  scrubber = Scrubber.new;
  trace = [];
  sent = 0;
  last_flush = now;
  update_interval = default_update_interval;
  limit = default_limit;
  truncated = false;
  cancel = running;
}

-- What ends a log that is too long.
unfoldable pub limit_message : ℕ → Bytes
limit_message limit =
    codes "\nJob's log exceeded limit of "
    ++ (to_decimal limit
        ++ codes " bytes.\nJob execution will continue but no more output will be collected.\n")

unfoldable pub append : TraceWriter → Bytes → TraceWriter
append w text =
    let room = w.limit - length w.trace in
    if w.truncated
    then w
    else if leb (length text) room
    then record w { trace = w.trace ++ text }
    else record w {
      trace = w.trace ++ (take (floor_boundary text room) text ++ limit_message w.limit);
      truncated = true;
    }

unfoldable pub next_interval : Option ℕ → ℕ → ℕ
next_interval none current = current
next_interval (some interval) current = min interval max_update_interval

-- `ESC [0K`, then what starts and what ends a highlighted line.
abbrev clear_line : Bytes
clear_line = 0x1b ∷ codes "[0K"

abbrev start_style : Bytes
start_style = clear_line ++ 0x1b ∷ codes "[36;1m"

abbrev end_style : Bytes
end_style = 0x1b ∷ codes "[0;m\n"

section_marker : Bytes → ℕ → Bytes → Bytes
section_marker kind at name =
    codes "section_"
    ++ (kind ++ (codes ":" ++ (to_decimal at ++ (codes ":" ++ (name ++ 0x0d ∷ [])))))

-- What `flush` does with GitLab's answer.
unfoldable pub acknowledge : TraceWriter → TracePatch → TraceWriter
unfolding next_interval
acknowledge w p = record w {
  sent = elim p.remote [ aborted ↦ length w.trace | _ ↦ min p.offset (length w.trace) ];
  cancel = update w.cancel p.remote;
  update_interval = next_interval p.update_interval w.update_interval;
}

module _ (gitlab : TraceServer) where
  open gitlab use {State, stored, patch}

  -- The writer, what GitLab holds, and whether GitLab has it all.
  unfoldable pub flush : ℕ → TraceWriter → State → Bool × TraceWriter × State
  unfolding acknowledge
  flush now w s =
      let w' = record w { last_flush = now } in
      let (result, s') = patch_trace gitlab w.sent (drop w.sent w.trace) s in
      if leb (length w.trace) w.sent then (true, w', s) else elim result [
        | some p ↦ let w'' = acknowledge w' p in (leb (length w''.trace) w''.sent, w'', s')
        | none ↦ (leb (length w'.trace) w'.sent, w', s')
      ]

  unfoldable pub flush_if_due : ℕ → TraceWriter → State → TraceWriter × State
  flush_if_due now w s =
      let (done, w', s') = flush now w s in
      if leb w.update_interval (now - w.last_flush) then (w', s') else (w, s)

  unfoldable pub write : SecretScrubber → ℕ → Bytes → TraceWriter → State → TraceWriter × State
  write r now text w s =
      let (scrubber, safe) = Scrubber.push r w.scrubber text in
      let w' = append (record w { scrubber = scrubber }) safe in
      let (done, w'', s') = flush now w' s in
      if leb flush_bytes (length w'.trace - w'.sent) then (w'', s') else flush_if_due now w' s

  -- The sections of the log; `at` is the clock in seconds.
  pub section_start :
      SecretScrubber → ℕ → ℕ → Bytes → Bytes → TraceWriter → State → TraceWriter × State
  section_start r now at name header w s =
      write r now (section_marker (codes "start") at name ++ (start_style ++ (header ++ end_style)))
        w s

  pub section_end : SecretScrubber → ℕ → ℕ → Bytes → TraceWriter → State → TraceWriter × State
  section_end r now at name w s =
      write r now (section_marker (codes "end") at name ++ clear_line) w s

  -- The attempts of `finish` that are left.
  unfoldable pub flush_attempts : ℕ → ℕ → TraceWriter → State → Bool × TraceWriter × State
  flush_attempts zero now w s = (false, w, s)
  flush_attempts (suc attempts) now w s =
      let (done, w', s') = flush now w s in
      elim done [ true ↦ (true, w', s') | false ↦ flush_attempts attempts now w' s' ]

  unfoldable pub finish : SecretScrubber → ℕ → TraceWriter → State → Bool × TraceWriter × State
  finish r now w s =
      let (scrubber, rest) = Scrubber.finish r w.scrubber in
      flush_attempts 5 now (append (record w { scrubber = scrubber }) rest) s
