-- ===== src/Client.antt =====
-- `GitLabClient` of src/gitlab/mod.rs: the requests about runners, jobs and artifacts. A request is a
-- call that GitLab, or the network, answers as it likes; an error is a constructor for each message.
pub mod Update
pub mod Jobs
pub mod Tokens
pub mod Uploads
pub mod Tests
use turboci.Prelude.{
  [], ◌∷◌, ◌++◌, ℕ, zero, suc, ◌+◌, ◌-◌, ◌*◌, ◌^◌, min, Bool, true, false, not, ◌&&◌, ◌||◌, ltb,
  leb, ◌==◌, if◌then◌else◌, Option, none, some, Bytes, codes,
}
use turboci.Cancel.{RemoteState, from_response}
use turboci.Outcome.{ℤ, FailureReason, runner_system_failure, JobState, failed, is_canceled}
use turboci.Job.{Job}
use turboci.Program.{Program, done, ask, ◌>>=◌, ◌>>◌}

-- The body of the update of a job.
pub record JobUpdate : Type 0 where
  pub token : Bytes
  pub state : JobState
  pub failure_reason : Option FailureReason
  pub exit_code : Option ℤ

pub record ArtifactUpload : Type 0 where
  pub path : Bytes
  pub len : ℕ
  pub file_name : Bytes
  pub format : Bytes
  pub artifact_type : Bytes
  pub expire_in : Option Bytes

-- A request, or a wait, in milliseconds.
pub data Op : Type 0 where
  sleep : ℕ → Op
  put_job : ℕ → JobUpdate → Op
  touch : ℕ → Bytes → Op
  post_request : Bytes → Op
  patch_trace : ℕ → Bytes → Bytes → Op
  post_verify : Bytes → Op
  post_reset : Bytes → Op
  post_artifacts : ℕ → Bytes → ArtifactUpload → Op

-- What comes back: no response, or one with its status, the `Job-Status` header if it is readable and
-- the body if it can be read.
pub data Reply : Type 0 where
  no_response : Reply
  response : ℕ → Option Bytes → Option Bytes → Reply

-- An archive that cannot be opened is not sent.
pub data Sent : Type 0 where
  not_opened : Sent
  replied : Reply → Sent

abbrev pub Answer : Op → Type 0
Answer (sleep ms) = Unit
Answer (put_job id body) = Reply
Answer (touch id token) = Reply
Answer (post_request token) = Reply
Answer (patch_trace id token trace) = Bool
Answer (post_verify token) = Reply
Answer (post_reset token) = Reply
Answer (post_artifacts id token upload) = Sent

abbrev pub Action : Type 0 → Type 0
Action A = Program Op Answer A

pub data UpdateError : Type 0 where
  not_attempted no_answer not_completed : UpdateError
  rejected server_failed failed_with : ℕ → UpdateError

pub data Result (E A : Type 0) : Type 0 where
  ok : A → Result E A
  err : E → Result E A

abbrev pub max_update_attempts : ℕ
max_update_attempts = 8

-- What the match on a response of `update_job` does: the end, or another attempt after an error.
pub data Verdict : Type 0 where
  stop : Result UpdateError (Unit {0}) → Verdict
  retry : UpdateError → Verdict

unfoldable pub is_server_error : ℕ → Bool
is_server_error status = leb 500 status && ltb status 600

unfoldable pub verdict : Reply → Verdict
unfolding is_server_error
verdict no_response = retry no_answer
verdict (response status header body) =
    if status == 200
    then stop (ok tt)
    else if status == 202
    then retry not_completed
    else if (status == 403) || (status == 404)
    then stop (err (rejected status))
    else if is_server_error status
    then retry (server_failed status)
    else stop (err (failed_with status))

unfoldable pub update_delay : ℕ → ℕ
update_delay attempt = 250 * 2 ^ min (attempt - 1) 4

-- `failure_reason.filter(..)`: the reason that GitLab is told.
unfoldable pub told_reason : Option FailureReason → Option FailureReason
told_reason none = none
told_reason (some reason) = if is_canceled reason then none else some reason

abbrev pub Updated : Type 0
Updated = Result UpdateError (Unit {0})

unfoldable pub follow : (UpdateError → Action Updated) → Verdict → Action Updated
follow again (stop result) = done result
follow again (retry error) = again error

-- The wait before every attempt but the first.
unfoldable pub backoff : ℕ → Action (Unit {0})
unfolding update_delay
backoff zero = done tt
backoff (suc n) = ask (sleep (update_delay (suc n)))

-- The loop over the attempts, of which `left` are left, with the last error.
unfoldable pub update_loop : ℕ → ℕ → ℕ → JobUpdate → UpdateError → Action Updated
unfolding verdict follow backoff
update_loop zero attempt id body last = done (err last)
update_loop (suc left) attempt id body last =
    backoff attempt
    >> (ask (put_job id body) >>= λ reply.
        follow (update_loop left (attempt + 1) id body) (verdict reply))

pub update_job : ℕ → Bytes → JobState → Option FailureReason → Option ℤ → Action Updated
unfolding told_reason update_loop
update_job id token state reason exit_code =
    update_loop max_update_attempts 0 id
      (record {
        token = token;
        state = state;
        failure_reason = told_reason reason;
        exit_code = exit_code;
      })
      not_attempted

pub record TokenResponse : Type 0 where
  pub token : Option Bytes
  pub token_expires_at : Option Bytes

-- What `serde` makes of a body: a job, or the reason why it is none, and a job's identity.
pub record Json : Type 0 where
  pub parse_job : Bytes → Result Bytes Job
  pub parse_identity : Bytes → Option (ℕ × Bytes)
  pub parse_token : Bytes → Option TokenResponse
  -- `chrono`: the seconds of an RFC 3339 time.
  pub parse_time : Bytes → Option ℤ
