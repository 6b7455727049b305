-- ===== src/Trace/Delivery.antt =====
-- Histories of calls of src/runner_daemon/trace.rs: what GitLab has after them, and that `finish`
-- delivers the whole trace to a GitLab that is up.
use turboci.Prelude.{
  ℕ, suc, ◌+◌, ◌≤◌, ◌<◌, ◌≡◌, ◌≢◌, refl, sym, ap, subst, ◌∙◌, inl, inr, ◌⊎◌, true, false,
  Bool-cases, ◌==◌, List, [], ◌∷◌, ◌++◌, length, length-drop, drop, Option, none, some, Bytes,
  arith,
}
use turboci.Text.Number.{max_u64}
use turboci.Cancel.{running, aborted, from_response, update}
use turboci.Scrubber.{SecretScrubber}
use turboci.Trace.Server.{IsJobLog, IsUp}
use turboci.Trace.Prefix.{IsPrefix, Inv}
use turboci.Trace.Flush.{
  patch_trace-retry, flush_cases, write-Inv, flush_if_due-Inv, finish-Inv, Inv-delivered,
}
use turboci.Trace.Defs.{
  TraceServer, answer, range_end, read_reply, update_interval, retry_with_backoff, try_patch,
  patch_trace, TraceWriter, new, acknowledge, flush, flush_if_due, write, flush_attempts, finish,
}

-- A call of the runner, with its time.
pub data Call : Type 0 where
  written : ℕ → Bytes → Call
  polled : ℕ → Call

module _ (gitlab : TraceServer) where
  open gitlab use {State, stored}

  unfoldable pub calls : SecretScrubber → List Call → TraceWriter → State → TraceWriter × State
  calls r [] w s = (w, s)
  calls r (written now text ∷ cs) w s =
      let (w', s') = write gitlab r now text w s in calls r cs w' s'
  calls r (polled now ∷ cs) w s = let (w', s') = flush_if_due gitlab now w s in calls r cs w' s'

module _ (gitlab : TraceServer) (log : IsJobLog gitlab) where
  open gitlab use {State, stored}

  pub calls-Inv :
      (r : SecretScrubber) (cs : List Call) (w : TraceWriter) (s : State)
      → Inv gitlab log w s
      → let (w', s') = calls gitlab r cs w s in Inv gitlab log w' s'
  unfolding calls
  calls-Inv r [] w s v = v
  calls-Inv r (written now text ∷ cs) w s v =
      calls-Inv r cs _ _ (write-Inv gitlab log r now text w s v)
  calls-Inv r (polled now ∷ cs) w s v = calls-Inv r cs _ _ (flush_if_due-Inv gitlab log now w s v)

  pub new-Inv : (now : ℕ) (s : State) → stored s ≡ [] → Inv gitlab log (new now) s
  unfolding new
  new-Inv now s e = record {
    prefix = rw e ([], refl);
    known = inl (omega arith);
    within = omega arith;
  }

  -- For a GitLab that keeps the log as documented and starts from an empty log: its log is a
  -- prefix of the writer's trace after every history of writes and polls, whatever requests and
  -- answers are lost and however often a part is sent again.
  pub log_prefix :
      (r : SecretScrubber) (now : ℕ) (cs : List Call) (s : State)
      → stored s ≡ []
      → let (w', s') = calls gitlab r cs (new now) s in IsPrefix (stored s') w'.trace
  log_prefix r now cs s e = (calls-Inv r cs (new now) s (new-Inv now s e)).prefix

  -- For a GitLab that keeps the log as documented and starts from an empty log: when `finish`
  -- reports success after a history of writes and polls, GitLab's log is the whole trace, or the
  -- job's signal is aborted.
  pub finish_complete :
      (r : SecretScrubber) (now later : ℕ) (cs : List Call) (s : State)
      → stored s ≡ []
      → (finish gitlab r later
          (calls gitlab r cs (new now) s).0
          (calls gitlab r cs (new now) s).1).0
        ≡ true
      → let (w, s1) = calls gitlab r cs (new now) s in
        let (_, w', s') = finish gitlab r later w s1 in
        (stored s' ≡ w'.trace) ⊎ (w'.cancel ≡ aborted)
  finish_complete r now later cs s e done =
      let (w, s1) = calls gitlab r cs (new now) s in
      let (v, all) =
        finish-Inv gitlab log r later w s1 (calls-Inv r cs (new now) s (new-Inv now s e)) in
      Inv-delivered gitlab log _ _ v (all done)

retry_first :
    {S T : Type 0} (n : ℕ) (operation : S → Option T × S) (s : S) (r : T)
    → (operation s).0 ≡ some r
    → retry_with_backoff (suc n) operation s ≡ (some r, (operation s).1)
unfolding retry_with_backoff
retry_first n operation s r h = rw (h, retry_with_backoff)

try_patch_reply :
    (gitlab : TraceServer) (offset : ℕ) (t : Bytes) (s : gitlab.State)
    → ((try_patch gitlab offset t s).0
        ≡ read_reply (gitlab.patch s offset t).0 offset (offset + length t))
      × ((try_patch gitlab offset t s).1 ≡ (gitlab.patch s offset t).1)
unfolding try_patch
try_patch_reply gitlab offset t s = (refl, refl)

read_accepted :
    (offset end : ℕ)
    → read_reply (answer 202 none none none) offset end
      ≡ some (record { offset = end; remote = running; update_interval = none })
unfolding read_reply from_response update_interval
read_accepted offset end = refl

read_redirected :
    (offset end at_end : ℕ) (range : Bytes)
    → range_end range ≡ some at_end
    → read_reply (answer 416 none (some range) none) offset end
      ≡ some (record { offset = at_end; remote = running; update_interval = none })
unfolding read_reply from_response update_interval
read_redirected offset end at_end range h = rw h refl

module _ (gitlab : TraceServer) (Up : gitlab.State → Type 0) (up : IsUp gitlab Up) where
  open gitlab use {State, stored}

  -- GitLab's answer to what comes at the end of its log, and to anything else.
  accepts :
      (t : Bytes) (s : State)
      → Up s
      → 0 < length t
      → let (result, s') = patch_trace gitlab (length (stored s)) t s in
        (result
          ≡ some (record {
            offset = length (stored s) + length t;
            remote = running;
            update_interval = none;
          }))
        × (stored s' ≡ stored s ++ t)
        × Up s'
  accepts t s u h =
      let offset = length (stored s) in
      let (reply, grown, stays) = up.takes s t u in
      let (first, after) = try_patch_reply gitlab offset t s in
      rw
        (
          patch_trace-retry gitlab offset t s h,
          retry_first 2 (try_patch gitlab offset t) s _ (
              first
              ∙ (ap (λ r. read_reply r offset (offset + length t)) reply
                  ∙ read_accepted offset (offset + length t))),
        )
        (refl, ap stored after ∙ grown, subst Up (sym after) stays)

  pub redirects :
      (offset : ℕ) (t : Bytes) (s : State)
      → Up s
      → 0 < length t
      → offset ≢ length (stored s)
      → length (stored s) ≤ max_u64
      → let (result, s') = patch_trace gitlab offset t s in
        (result
          ≡ some (record { offset = length (stored s); remote = running; update_interval = none }))
        × (stored s' ≡ stored s)
        × Up s'
  redirects offset t s u h ne fits =
      let (range, reply, end, same, stays) = up.redirects s offset t u ne fits in
      let (first, after) = try_patch_reply gitlab offset t s in
      rw
        (
          patch_trace-retry gitlab offset t s h,
          retry_first 2 (try_patch gitlab offset t) s _ (
              first
              ∙ (ap (λ r. read_reply r offset (offset + length t)) reply
                  ∙ read_redirected offset (offset + length t) (length (stored s)) range end)),
        )
        (refl, ap stored after ∙ same, subst Up (sym after) stays)

  pub accepts_at :
      (offset : ℕ) (t : Bytes) (s : State)
      → Up s
      → 0 < length t
      → offset ≡ length (stored s)
      → let (result, s') = patch_trace gitlab offset t s in
        result
        ≡ some (record { offset = offset + length t; remote = running; update_interval = none })
  accepts_at offset t s u h e = rw e (accepts t s u h).0

  patch_trace-Up :
      (offset : ℕ) (t : Bytes) (s : State)
      → Up s
      → 0 < length t
      → length (stored s) ≤ max_u64
      → Up (patch_trace gitlab offset t s).1
  patch_trace-Up offset t s u h fits = elim (Bool-cases (offset == length (stored s))) [
    | inl here ↦ let e : offset ≡ length (stored s) = ground arith in rw e ((accepts t s u h).2)
    | inr away ↦ (redirects offset t s u h (λ q. ground arith) fits).2
  ]

  pub flush-Up :
      (now : ℕ) (w : TraceWriter) (s : State)
      → Up s
      → length (stored s) ≤ max_u64
      → Up (flush gitlab now w s).2
  flush-Up now w s u fits =
      let size = length-drop w.sent w.trace in
      flush_cases gitlab now w s (λ r. Up r.2) (λ all. u)
        (λ p lt found. patch_trace-Up w.sent (drop w.sent w.trace) s u (omega arith) fits)
        (λ lt failed. patch_trace-Up w.sent (drop w.sent w.trace) s u (omega arith) fits)

  -- A flush from where GitLab is completes the log; any other puts the writer there.
  flush_at_end :
      (now : ℕ) (w : TraceWriter) (s : State)
      → Up s
      → w.sent ≡ length (stored s)
      → (flush gitlab now w s).0 ≡ true
  unfolding acknowledge
  flush_at_end now w s u e =
      flush_cases gitlab now w s (λ r. r.0 ≡ true) (λ all. refl)
        (λ p lt found.
          let size = length-drop w.sent w.trace in
          let answered = accepts_at w.sent (drop w.sent w.trace) s u (omega arith) e in
          ground (arith, found, answered, size))
        (λ lt failed.
          let size = length-drop w.sent w.trace in
          let answered = accepts_at w.sent (drop w.sent w.trace) s u (omega arith) e in
          cc (failed, answered))

  flush_elsewhere :
      (now : ℕ) (w : TraceWriter) (s : State)
      → Up s
      → w.sent ≢ length (stored s)
      → length (stored s) ≤ length w.trace
      → length w.trace ≤ max_u64
      → let (done, w', s') = flush gitlab now w s in
        (done ≡ true)
        ⊎ ((w'.sent ≡ length (stored s')) × (w'.trace ≡ w.trace) × (w'.cancel ≡ w.cancel))
  unfolding acknowledge update
  flush_elsewhere now w s u ne le fits =
      flush_cases gitlab now w s
        (λ r.
          (r.0 ≡ true)
          ⊎ ((r.1.sent ≡ length (stored r.2)) × (r.1.trace ≡ w.trace) × (r.1.cancel ≡ w.cancel)))
        (λ all. inl refl)
        (λ p lt found.
          let size = length-drop w.sent w.trace in
          let (answered, same, _) =
            redirects w.sent (drop w.sent w.trace) s u (omega arith) ne (omega arith) in
          let size' = ap length same in inr (ground (arith, found, answered, size')))
        (λ lt failed.
          let size = length-drop w.sent w.trace in
          let (answered, same, _) =
            redirects w.sent (drop w.sent w.trace) s u (omega arith) ne (omega arith) in
          cc (failed, answered))

  pub flush_twice :
      (n now : ℕ) (w : TraceWriter) (s : State)
      → Up s
      → length (stored s) ≤ length w.trace
      → length w.trace ≤ max_u64
      → (flush_attempts gitlab (suc (suc n)) now w s).0 ≡ true
  unfolding flush_attempts
  flush_twice n now w s u le fits = elim (Bool-cases (flush gitlab now w s).0) [
    | inl done ↦ rw (done, flush_attempts) refl
    | inr more ↦
        rw (more, flush_attempts) (let again = second more in rw (again, flush_attempts) refl)
  ]
    where
      second :
          (flush gitlab now w s).0 ≡ false
          → let (_, w', s') = flush gitlab now w s in (flush gitlab now w' s').0 ≡ true
      second more = elim (Bool-cases (w.sent == length (stored s))) [
        | inl e ↦ cc (more, flush_at_end now w s u (ground arith))
        | inr e ↦ elim (flush_elsewhere now w s u (λ q. ground arith) le fits) [
          | inl done ↦ cc (more, done)
          | inr (at, _, _) ↦ flush_at_end now _ _ (flush-Up now w s u (omega arith)) at
        ]
      ]
