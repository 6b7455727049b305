-- ===== src/Client/Update.antt =====
-- `update_job` of src/gitlab/mod.rs against a description of the answers that it accepts.
use turboci.Prelude.{
  ℕ, zero, suc, ◌+◌, ◌≤◌, ◌≡◌, refl, ◌∙◌, Bool, true, false, ◌||◌, ◌==◌, if◌then◌else◌, List, [],
  ◌∷◌, Option, none, some, Bytes, arith,
}
use turboci.Outcome.{ℤ, FailureReason, is_canceled, JobState}
use turboci.Program.{Program, Protocol, Keeps, Keeps-weaken, World, perform}
use turboci.Client.{
  JobUpdate, Op, sleep, put_job, touch, post_request, patch_trace, post_verify, post_reset,
  post_artifacts, replied, Reply, no_response, response, Answer, UpdateError, ok, err, Verdict,
  stop, retry, Updated, verdict, is_server_error, update_delay, told_reason, follow, backoff,
  update_loop, update_job, not_attempted, not_completed, server_failed,
}

-- The updates that were sent and the milliseconds that were waited.
abbrev pub Effort : Type 0
Effort = ℕ × ℕ

abbrev pub spend : Effort → (op : Op) → Answer op → Effort
spend (sent, waited) (sleep ms) x = (sent, waited + ms)
spend (sent, waited) (put_job id body) x = (sent + 1, waited)
spend e (touch id token) x = e
spend e (post_request token) x = e
spend e (patch_trace id token trace) x = e
spend e (post_verify token) x = e
spend e (post_reset token) x = e
spend e (post_artifacts id token upload) x = e

abbrev pub reason_told : Option FailureReason → Bool
reason_told none = true
reason_told (some reason) = if is_canceled reason then false else true

-- An update never tells GitLab the reason that only the runner knows.
abbrev pub Told : Effort → Op → Type 0
Told e (put_job id body) = reason_told body.failure_reason ≡ true
Told e op = Unit {0}

abbrev pub effort : Protocol Op Answer Effort
effort = record { allowed = Told; expected = λ s op x. Unit {0}; next = spend }

-- At most the attempts, and the waits of 250 ms to 4 s between them.
abbrev pub Bounded : Effort → Updated → Type 0
Bounded e r = (e.0 ≤ 8) × (e.1 ≤ 15750)

abbrev wait_before : ℕ → ℕ
unfolding update_delay
wait_before zero = 0
wait_before (suc n) = update_delay (suc n)

abbrev waits : ℕ → ℕ → ℕ
waits zero attempt = 0
waits (suc left) attempt = wait_before attempt + waits left (attempt + 1)

abbrev Left : ℕ → ℕ → ℕ → ℕ → Effort → Updated → Type 0
Left left attempt n w e r = (e.0 ≤ n + left) × (e.1 ≤ w + waits left attempt)

follow-effort :
    (Q : Effort → Updated → Type 0) (s : Effort) (again : UpdateError → Program Op Answer Updated)
    (v : Verdict)
    → ((r : Updated) → Q s r)
    → ((e : UpdateError) → Keeps effort Q s (again e))
    → Keeps effort Q s (follow again v)
unfolding follow
follow-effort Q s again (stop r) f g = f r
follow-effort Q s again (retry e) f g = g e

loop_effort :
    (left attempt n w id : ℕ) (body : JobUpdate) (last : UpdateError)
    → reason_told body.failure_reason ≡ true
    → Keeps effort (Left left attempt n w) (n, w) (update_loop left attempt id body last)
unfolding update_loop backoff
loop_effort zero attempt n w id body last h = (omega arith, omega arith)
loop_effort (suc left) zero n w id body last h = (
  h,
  λ reply e.
      follow-effort (Left (suc left) 0 n w) (n + 1, w) (update_loop left 1 id body) (verdict reply)
        (λ r. (omega arith, omega arith))
        (λ error.
          Keeps-weaken effort (Left left 1 (n + 1) w) (Left (suc left) 0 n w) (n + 1, w)
            (update_loop left 1 id body error) (λ t r b. (omega (arith, b.0), omega (arith, b.1)))
            (loop_effort left 1 (n + 1) w id body error h)),
)
loop_effort (suc left) (suc a) n w id body last h = (
  tt,
  λ x e. (
    h,
    λ reply e.
        let w' = w + update_delay (suc a) in
        follow-effort (Left (suc left) (suc a) n w) (n + 1, w')
          (update_loop left (suc a + 1) id body) (verdict reply) (λ r. (omega arith, omega arith))
          (λ error.
            Keeps-weaken effort (Left left (suc a + 1) (n + 1) w') (Left (suc left) (suc a) n w)
              (n + 1, w') (update_loop left (suc a + 1) id body error)
              (λ t r b. (omega (arith, b.0), omega (arith, b.1)))
              (loop_effort left (suc a + 1) (n + 1) w' id body error h)),
  ),
)

told : (reason : Option FailureReason) → reason_told (told_reason reason) ≡ true
unfolding told_reason
told none = refl
told (some reason) = ground arith

-- Reporting a job's state ends after at most eight requests and less than 16 seconds of waiting
-- between them, whatever GitLab and the network answer, and no request names the runner's own reason
-- `JobCanceled`.
pub update_job-Bounded :
    (id : ℕ) (token : Bytes) (state : JobState) (reason : Option FailureReason)
    (exit_code : Option ℤ)
    → Keeps effort Bounded (0, 0) (update_job id token state reason exit_code)
unfolding update_job update_delay
update_job-Bounded id token state reason exit_code =
    Keeps-weaken effort (Left 8 0 0 0) Bounded (0, 0) (update_job id token state reason exit_code)
      (λ t r b. (omega (arith, b.0), omega (arith, b.1)))
      (loop_effort 8 0 0 0 id _ not_attempted (told reason))

-- GitLab's answers in their order; after the last one the network is down.
abbrev pub replies : List Reply → (op : Op) → Answer op × List Reply
replies rs (sleep ms) = (tt, rs)
replies [] (put_job id body) = (no_response, [])
replies (r ∷ rs) (put_job id body) = (r, rs)
replies rs (touch id token) = (no_response, rs)
replies rs (post_request token) = (no_response, rs)
replies rs (patch_trace id token trace) = (false, rs)
replies rs (post_verify token) = (no_response, rs)
replies rs (post_reset token) = (no_response, rs)
replies rs (post_artifacts id token upload) = (replied no_response, rs)

abbrev pub gitlab : World Op Answer (List Reply)
gitlab = record { answer = replies }

-- An answer after which the update is tried again: none, 202, or a server error.
abbrev pub is_transient : Reply → Bool
unfolding is_server_error
is_transient no_response = true
is_transient (response status header body) = (status == 202) || is_server_error status

abbrev pub is_ok_reply : Reply → Bool
is_ok_reply no_response = false
is_ok_reply (response status header body) = status == 200

-- Among the first `n` answers, the first that is not transient is a 200.
abbrev pub accepts : ℕ → List Reply → Bool
accepts zero rs = false
accepts (suc n) [] = false
accepts (suc n) (r ∷ rs) = is_ok_reply r || (if is_transient r then accepts n rs else false)

abbrev pub is_ok : Updated → Bool
is_ok (ok x) = true
is_ok (err e) = false

follow_accepts :
    (rs : List Reply) (again : UpdateError → Program Op Answer Updated) (rest : Bool) (r : Reply)
    → ((e : UpdateError) → is_ok (perform gitlab rs (again e)).0 ≡ rest)
    → is_ok (perform gitlab rs (follow again (verdict r))).0
      ≡ (is_ok_reply r || (if is_transient r then rest else false))
unfolding follow verdict is_server_error
follow_accepts rs again rest no_response h = h UpdateError.no_answer
follow_accepts rs again rest (response status header body) h =
    ground (arith, h not_completed, h (server_failed status))

accepts-nil : (n : ℕ) → accepts n [] ≡ false
accepts-nil zero = refl
accepts-nil (suc n) = refl

loop_accepts :
    (left attempt id : ℕ) (body : JobUpdate) (last : UpdateError) (rs : List Reply)
    → is_ok (perform gitlab rs (update_loop left attempt id body last)).0 ≡ accepts left rs
unfolding update_loop backoff
loop_accepts zero attempt id body last rs = refl
loop_accepts (suc left) zero id body last [] =
    follow_accepts [] (update_loop left 1 id body) false no_response
      (λ e. loop_accepts left 1 id body e [] ∙ accepts-nil left)
loop_accepts (suc left) zero id body last (r ∷ rs) =
    follow_accepts rs (update_loop left 1 id body) (accepts left rs) r
      (λ e. loop_accepts left 1 id body e rs)
loop_accepts (suc left) (suc a) id body last [] =
    follow_accepts [] (update_loop left (suc a + 1) id body) false no_response
      (λ e. loop_accepts left (suc a + 1) id body e [] ∙ accepts-nil left)
loop_accepts (suc left) (suc a) id body last (r ∷ rs) =
    follow_accepts rs (update_loop left (suc a + 1) id body) (accepts left rs) r
      (λ e. loop_accepts left (suc a + 1) id body e rs)

-- Reporting a job's state succeeds exactly if GitLab answers 200 within eight attempts and every
-- answer before that is one that promises nothing yet: none at all, 202 or a server error. A 403 or
-- 404, or any other answer, ends it at once.
pub update_job_accepted :
    (rs : List Reply) (id : ℕ) (token : Bytes) (state : JobState) (reason : Option FailureReason)
    (exit_code : Option ℤ)
    → is_ok (perform gitlab rs (update_job id token state reason exit_code)).0 ≡ accepts 8 rs
unfolding update_job
update_job_accepted rs id token state reason exit_code = loop_accepts 8 0 id _ not_attempted rs
