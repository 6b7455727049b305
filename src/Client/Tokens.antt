-- ===== src/Client/Tokens.antt =====
-- `verify_runner` and `reset_runner_token` of src/gitlab/mod.rs.
use turboci.Prelude.{[], ◌∷◌, ℕ, ◌||◌, ◌==◌, if◌then◌else◌, Option, none, some, Bytes}
use turboci.Outcome.{ℤ}
use turboci.Program.{done, ask, ◌>>=◌}
use turboci.Client.{
  post_verify, post_reset, Reply, no_response, response, Action, Result, ok, err, TokenResponse,
  Json,
}

pub data TokenError : Type 0 where
  no_answer rejected invalid_body invalid_time no_token : TokenError
  failed_with : ℕ → TokenError

time_of : Option ℤ → Result TokenError (Option ℤ)
time_of none = err invalid_time
time_of (some at) = ok (some at)

-- `TokenResponse::expires_at`, of the text.
expires_at : Json → Option Bytes → Result TokenError (Option ℤ)
unfolding time_of
expires_at json none = ok none
expires_at json (some []) = ok none
expires_at json (some (c ∷ t)) = time_of (json.parse_time (c ∷ t))

expiry_of : Json → Option TokenResponse → Result TokenError (Option ℤ)
unfolding expires_at
expiry_of json none = err invalid_body
expiry_of json (some body) = expires_at json body.token_expires_at

parsed_body : Json → Option Bytes → Option TokenResponse
parsed_body json none = none
parsed_body json (some text) = json.parse_token text

verified : Json → Reply → Result TokenError (Option ℤ)
unfolding expiry_of parsed_body
verified json no_response = err TokenError.no_answer
verified json (response status header body) =
    if (status == 200) || (status == 201)
    then expiry_of json (parsed_body json body)
    else if status == 403
    then err TokenError.rejected
    else err (TokenError.failed_with status)

pub verify_runner : Json → Bytes → Action (Result TokenError (Option ℤ))
unfolding verified
verify_runner json runner_token = do
  reply ← ask (post_verify runner_token)
  done (verified json reply)

with_expiry : Bytes → Result TokenError (Option ℤ) → Result TokenError (Bytes × Option ℤ)
with_expiry token (ok at) = ok (token, at)
with_expiry token (err e) = err e

new_token : Json → Option Bytes → Option Bytes → Result TokenError (Bytes × Option ℤ)
unfolding with_expiry expires_at
new_token json none at = err no_token
new_token json (some []) at = err no_token
new_token json (some (c ∷ t)) at = with_expiry (c ∷ t) (expires_at json at)

reset_body : Json → Option TokenResponse → Result TokenError (Bytes × Option ℤ)
unfolding new_token
reset_body json none = err invalid_body
reset_body json (some body) = new_token json body.token body.token_expires_at

reset : Json → Reply → Result TokenError (Bytes × Option ℤ)
unfolding reset_body parsed_body
reset json no_response = err TokenError.no_answer
reset json (response status header body) =
    if (status == 201) || (status == 200)
    then reset_body json (parsed_body json body)
    else err (TokenError.failed_with status)

pub reset_runner_token : Json → Bytes → Action (Result TokenError (Bytes × Option ℤ))
unfolding reset
reset_runner_token json runner_token = do
  reply ← ask (post_reset runner_token)
  done (reset json reply)
