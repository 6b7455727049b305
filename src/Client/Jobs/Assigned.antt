-- ===== src/Client/Jobs/Assigned.antt =====
-- `request_job` of src/gitlab/mod.rs: what becomes of a job that GitLab assigns.
use turboci.Prelude.{
  ℕ, zero, suc, ◌+◌, ◌≡◌, refl, Bool, true, false, ◌&&◌, ◌||◌, ◌==◌, leb, ltb, if◌then◌else◌,
  Option, none, some, Bytes, arith,
}
use turboci.Outcome.{ℤ, FailureReason, JobState, pending, running, success, failed, canceled}
use turboci.Job.{Job}
use turboci.Program.{Program, Protocol, Keeps, Keeps-bind, observer, done}
use turboci.Client.{
  JobUpdate, Op, sleep, put_job, touch, post_request, patch_trace, post_verify, post_reset,
  post_artifacts, Reply, no_response, response, Answer, UpdateError, Result, ok, err, Verdict, stop,
  retry, Updated, Json, verdict, is_server_error, follow, backoff, not_attempted, update_loop,
  update_job,
}
use turboci.Client.Jobs.{
  Requested, fail_unparsed, read_job, read_body, invalid_token, refused, read_request, request_job,
}

abbrev identified : Option (ℕ × Bytes) → Option (ℕ × ℕ)
identified none = none
identified (some (id, token)) = some (id, 8)

abbrev unparsed : Json → Bytes → Result Bytes Job → Option (ℕ × ℕ)
unparsed json text (ok job) = none
unparsed json text (err reason) = identified (json.parse_identity text)

abbrev unparsed_body : Json → Option Bytes → Option (ℕ × ℕ)
unparsed_body json none = none
unparsed_body json (some text) = unparsed json text (json.parse_job text)

-- The job that an answer assigns in a payload that is no job, but tells which job it is, and the
-- eight requests after which the runner may give up on a GitLab that does not answer.
abbrev pub assigned : Json → Reply → Option (ℕ × ℕ)
assigned json no_response = none
assigned json (response status header body) =
    if (status == 200) || (status == 201) then unparsed_body json body else none

abbrev is_failed : JobState → Bool
is_failed pending = false
is_failed running = false
is_failed success = false
is_failed failed = true
is_failed canceled = false

-- No answer, or one that says to try again: 202, or an error of the server.
abbrev is_transient : Reply → Bool
is_transient no_response = true
is_transient (response status header body) = (status == 202) || (leb 500 status && ltb status 600)

abbrev owing : ℕ → ℕ → Option (ℕ × ℕ)
owing id zero = none
owing id (suc n) = some (id, suc n)

abbrev settle : Option (ℕ × ℕ) → ℕ → JobState → Reply → Option (ℕ × ℕ)
settle none id state reply = none
settle (some (owed, zero)) id state reply = none
settle (some (owed, suc n)) id state reply =
    if (owed == id) && is_failed state
    then if is_transient reply then owing owed n else none
    else some (owed, suc n)

-- The summary: the job, if there is one, that was assigned and is still to be reported as failed,
-- and the number of requests left to do so: until GitLab gives a final answer to one.
abbrev pub owed : Json → Option (ℕ × ℕ) → (op : Op) → Answer op → Option (ℕ × ℕ)
owed json o (sleep ms) x = o
owed json o (put_job id body) reply = settle o id body.state reply
owed json o (touch id token) x = o
owed json o (post_request token) reply = assigned json reply
owed json o (patch_trace id token trace) x = o
owed json o (post_verify token) x = o
owed json o (post_reset token) x = o
owed json o (post_artifacts id token upload) x = o

abbrev pub Settled : Option (ℕ × ℕ) → Requested → Type 0
Settled o r = o ≡ none

abbrev is_retry : Verdict → Bool
is_retry (stop r) = false
is_retry (retry e) = true

transient_retry : (reply : Reply) → is_transient reply ≡ is_retry (verdict reply)
unfolding verdict is_server_error
transient_retry no_response = refl
transient_retry (response status header body) = ground arith

module _ (json : Json) where
  abbrev Quiet : Option (ℕ × ℕ) → Updated → Type 0
  Quiet o r = o ≡ none

  abbrev p : Protocol Op Answer (Option (ℕ × ℕ))
  p = observer (owed json)

  same : (id : ℕ) → (id == id) ≡ true
  same id = ground arith

  -- A final answer settles the matter, and another one leaves as many requests as attempts.
  follow-owing :
      (id left : ℕ) (again : UpdateError → Program Op Answer Updated) (v : Verdict)
      → ((e : UpdateError) → Keeps p Quiet (owing id left) (again e))
      → Keeps p Quiet (if is_retry v then owing id left else none) (follow again v)
  unfolding follow
  follow-owing id left again (stop r) g = refl
  follow-owing id left again (retry e) g = g e

  put_owing :
      (id left : ℕ) (state : JobState) (reply : Reply)
      (again : UpdateError → Program Op Answer Updated)
      → is_failed state ≡ true
      → ((e : UpdateError) → Keeps p Quiet (owing id left) (again e))
      → Keeps p Quiet (settle (some (id, suc left)) id state reply) (follow again (verdict reply))
  put_owing id left state reply again f g =
      rw (same id)
        (rw f (rw (transient_retry reply) (follow-owing id left again (verdict reply) g)))

  loop_owing :
      (left attempt id : ℕ) (body : JobUpdate) (last : UpdateError)
      → is_failed body.state ≡ true
      → Keeps p Quiet (owing id left) (update_loop left attempt id body last)
  unfolding update_loop backoff
  loop_owing zero attempt id body last f = refl
  loop_owing (suc left) zero id body last f = (
    tt,
    λ reply e.
        put_owing id left body.state reply (update_loop left 1 id body) f
          (λ e. loop_owing left 1 id body e f),
  )
  loop_owing (suc left) (suc a) id body last f = (
    tt,
    λ x e. (
      tt,
      λ reply e.
          put_owing id left body.state reply (update_loop left (suc a + 1) id body) f
            (λ e. loop_owing left (suc a + 1) id body e f),
    ),
  )

  update_settles :
      (id : ℕ) (token : Bytes) (reason : Option FailureReason) (exit_code : Option ℤ)
      → Keeps p Quiet (some (id, 8)) (update_job id token failed reason exit_code)
  unfolding update_job
  update_settles id token reason exit_code = loop_owing 8 0 id _ not_attempted refl

  unparsed_settles :
      (identity : Option (ℕ × Bytes)) (reason : Bytes)
      → Keeps p Settled (identified identity) (fail_unparsed identity reason)
  unfolding fail_unparsed
  unparsed_settles none reason = refl
  unparsed_settles (some (id, token)) reason = (
    tt,
    λ x e.
        Keeps-bind p Quiet Settled (some (id, 8)) (update_job id token failed _ none) _
          (update_settles id token _ none) (λ o r h. h),
  )

  job_settles :
      (text : Bytes) (parsed : Result Bytes Job)
      → Keeps p Settled (unparsed json text parsed) (read_job json text parsed)
  unfolding read_job
  job_settles text (ok job) = refl
  job_settles text (err reason) = unparsed_settles (json.parse_identity text) reason

  body_settles :
      (body : Option Bytes) → Keeps p Settled (unparsed_body json body) (read_body json body)
  unfolding read_body
  body_settles none = refl
  body_settles (some text) = job_settles text (json.parse_job text)

  branches :
      (empty given denied : Bool) (o : Option (ℕ × ℕ)) (status : ℕ)
      (m : Program Op Answer Requested)
      → (given ≡ true → empty ≡ false)
      → Keeps p Settled o m
      → Keeps p Settled (if given then o else none) (
          if empty
          then done (ok none)
          else if given
          then m
          else if denied
          then done (err invalid_token)
          else done (err (refused status)))
  branches true true denied o status m f h = absurd (cc (f refl))
  branches false true denied o status m f h = h
  branches true false denied o status m f h = refl
  branches false false true o status m f h = refl
  branches false false false o status m f h = refl

  read_settles : (reply : Reply) → Keeps p Settled (assigned json reply) (read_request json reply)
  unfolding read_request
  read_settles no_response = refl
  read_settles (response status header body) =
      branches (status == 204) ((status == 200) || (status == 201))
        ((status == 403) || (status == 401)) (unparsed_body json body) status (read_body json body)
        (ground arith) (body_settles body)

-- Asking for a job never drops one that GitLab has assigned: if the answer's payload cannot be read
-- as a job but tells which job it is and its token, that job is reported to GitLab as failed before
-- the error is returned, until GitLab gives an answer other than 202 and an error of the server, or
-- eight requests have had none.
pub assigned_never_dropped :
    (json : Json) (runner_token : Bytes)
    → Keeps (observer (owed json)) Settled none (request_job json runner_token)
unfolding request_job
assigned_never_dropped json runner_token = (tt, λ reply e. read_settles json reply)
