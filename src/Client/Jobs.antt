-- ===== src/Client/Jobs.antt =====
-- `request_job` and `touch_job` of src/gitlab/mod.rs.
pub mod Assigned
use turboci.Prelude.{
  [], ◌∷◌, ◌++◌, ℕ, zero, suc, ◌+◌, ◌-◌, ◌*◌, ◌^◌, min, Bool, true, false, not, ◌&&◌, ◌||◌, ltb,
  leb, ◌==◌, if◌then◌else◌, Option, none, some, Bytes, codes,
}
use turboci.Cancel.{RemoteState, from_response}
use turboci.Outcome.{ℤ, FailureReason, runner_system_failure, JobState, failed, is_canceled}
use turboci.Job.{Job}
use turboci.Program.{Program, done, ask, ◌>>=◌, ◌>>◌}
use turboci.Client.{
  JobUpdate, ArtifactUpload, Op, sleep, put_job, touch, post_request, patch_trace, post_verify,
  post_reset, post_artifacts, Reply, no_response, response, Sent, not_opened, replied, Action,
  Result, ok, err, update_job, TokenResponse, Json,
}

pub data RequestError : Type 0 where
  no_answer not_read invalid_token : RequestError
  not_parsed : Bytes → RequestError
  refused : ℕ → RequestError

abbrev pub Requested : Type 0
Requested = Result RequestError (Option Job)

unparsed_trace : Bytes → Bytes
unparsed_trace reason = codes "TurboCI could not parse the job payload: " ++ (reason ++ codes "\n")

-- A job that is assigned but not understood is failed, if the payload tells at least which it is.
fail_unparsed : Option (ℕ × Bytes) → Bytes → Action Requested
unfolding unparsed_trace
fail_unparsed none reason = done (err (not_parsed reason))
fail_unparsed (some (id, token)) reason = do
  ask (patch_trace id token (unparsed_trace reason))
  update_job id token failed (some runner_system_failure) none
  done (err (not_parsed reason))

read_job : Json → Bytes → Result Bytes Job → Action Requested
unfolding fail_unparsed
read_job json text (ok job) = done (ok (some job))
read_job json text (err reason) = fail_unparsed (json.parse_identity text) reason

read_body : Json → Option Bytes → Action Requested
unfolding read_job
read_body json none = done (err not_read)
read_body json (some text) = read_job json text (json.parse_job text)

read_request : Json → Reply → Action Requested
unfolding read_body
read_request json no_response = done (err RequestError.no_answer)
read_request json (response status header body) =
    if status == 204
    then done (ok none)
    else if (status == 200) || (status == 201)
    then read_body json body
    else if (status == 403) || (status == 401)
    then done (err invalid_token)
    else done (err (refused status))

pub request_job : Json → Bytes → Action Requested
unfolding read_request
request_job json runner_token = ask (post_request runner_token) >>= read_request json

touched : Reply → Option RemoteState
touched no_response = none
touched (response status header body) = some (from_response status header)

-- `touch_job`: none is an error.
pub touch_job : ℕ → Bytes → Action (Option RemoteState)
unfolding touched
touch_job id token = do reply ← ask (touch id token); done (touched reply)
