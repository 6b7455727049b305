-- ===== src/Trace/Flush.antt =====
-- The calls of src/runner_daemon/trace.rs keep what the writer knows of GitLab's log.
use turboci.Prelude.{
  ℕ, zero, suc, ◌-◌, ◌≤◌, ◌<◌, ◌≡◌, refl, inl, inr, ◌⊎◌, true, false, Bool, Bool-cases,
  Option-cases, leb, [], ◌∷◌, length, length-drop, drop, none, some, Bytes, arith,
}
use turboci.Cancel.{aborted}
use turboci.Scrubber.{SecretScrubber, StreamScrubber}
use turboci.Scrubber
use turboci.Trace.Server.{IsJobLog}
use turboci.Trace.Prefix.{
  IsPrefix, prefix_whole, Kept, Says, Inv, retry-Kept, append-Inv, acknowledge-Inv,
}
use turboci.Trace.Defs.{
  TraceServer, TracePatch, retry_with_backoff, try_patch, patch_trace, TraceWriter, append,
  acknowledge, flush, flush_if_due, write, flush_attempts, finish, flush_bytes,
}

pub patch_trace-retry :
    (gitlab : TraceServer) (offset : ℕ) (t : Bytes) (s : gitlab.State)
    → 0 < length t
    → patch_trace gitlab offset t s ≡ retry_with_backoff 3 (try_patch gitlab offset t) s
unfolding patch_trace
patch_trace-retry gitlab offset [] s h = absurd (omega arith)
patch_trace-retry gitlab offset (c ∷ t) s h = refl

-- The three ways in which `flush` ends.
pub flush_cases {ℓ} :
    (gitlab : TraceServer) (now : ℕ) (w : TraceWriter) (s : gitlab.State)
    (P : Bool × TraceWriter × gitlab.State → Type ℓ)
    → let w' = record w { last_flush = now } in
      let (result, s') = patch_trace gitlab w.sent (drop w.sent w.trace) s in
      (length w.trace ≤ w.sent → P (true, w', s))
      → ((p : TracePatch)
          → w.sent < length w.trace
          → result ≡ some p
          → let w'' = acknowledge w' p in P (leb (length w''.trace) w''.sent, w'', s'))
      → (w.sent < length w.trace → result ≡ none → P (false, w', s'))
      → P (flush gitlab now w s)
unfolding flush
flush_cases gitlab now w s P nothing answered failed =
    elim (Bool-cases (leb (length w.trace) w.sent)) [
      | inl all ↦ rw all (nothing (ground arith))
      | inr more ↦
          let lt : w.sent < length w.trace = ground arith in
          rw more (elim (Option-cases (patch_trace gitlab w.sent (drop w.sent w.trace) s).0) [
            | inl e ↦ rw (e, more) (failed lt e)
            | inr (p, e) ↦ rw e (answered p lt e)
          ])
    ]

module _ (gitlab : TraceServer) (log : IsJobLog gitlab) where
  open gitlab use {State, stored}

  touch-Inv :
      (w : TraceWriter) (s : State) (now : ℕ)
      → Inv gitlab log w s
      → Inv gitlab log (record w { last_flush = now }) s
  touch-Inv w s now v = record { prefix = v.prefix; known = v.known; within = v.within }

  patch_trace-Kept :
      (w : TraceWriter) (s : State)
      → IsPrefix (stored s) w.trace
      → w.sent < length w.trace
      → let (result, s') = patch_trace gitlab w.sent (drop w.sent w.trace) s in
        Kept gitlab log w.trace (length (stored s)) s'
        × ((p : TracePatch) → result ≡ some p → Says gitlab log p s')
  patch_trace-Kept w s prefix lt =
      rw
        (patch_trace-retry gitlab w.sent (drop w.sent w.trace) s
          (omega (arith, length-drop w.sent w.trace)))
        (retry-Kept gitlab log 3 w.trace (length (stored s)) w.sent s (prefix, omega arith))

  still_known :
      (w : TraceWriter) (s s' : State)
      → ((w.sent ≤ length (stored s)) ⊎ (w.cancel ≡ aborted))
      → length (stored s) ≤ length (stored s')
      → (w.sent ≤ length (stored s')) ⊎ (w.cancel ≡ aborted)
  still_known w s s' (inl le) grown = inl (omega arith)
  still_known w s s' (inr gone) grown = inr gone

  pub flush-Inv :
      (now : ℕ) (w : TraceWriter) (s : State)
      → Inv gitlab log w s
      → let (_, w', s') = flush gitlab now w s in Inv gitlab log w' s'
  flush-Inv now w s v =
      flush_cases gitlab now w s (λ r. Inv gitlab log r.1 r.2) (λ all. touch-Inv w s now v)
        (λ p lt e.
          let (kept, says) = patch_trace-Kept w s v.prefix lt in
          acknowledge-Inv gitlab log (record w { last_flush = now }) _ p kept.0 (says p e)
            (still_known w s _ v.known kept.1))
        (λ lt e.
          let (kept, says) = patch_trace-Kept w s v.prefix lt in
          record { prefix = kept.0; known = still_known w s _ v.known kept.1; within = v.within })

  -- A flush that says so has brought the whole trace to GitLab, unless the job is aborted there.
  pub flush-done :
      (now : ℕ) (w : TraceWriter) (s : State)
      → (flush gitlab now w s).0 ≡ true
      → let (_, w', s') = flush gitlab now w s in length w'.trace ≤ w'.sent
  flush-done now w s =
      flush_cases gitlab now w s (λ r. r.0 ≡ true → length r.1.trace ≤ r.1.sent) (λ all e. all)
        (λ p lt e d. ground arith) (λ lt e d. cc)

  pub Inv-delivered :
      (w : TraceWriter) (s : State)
      → Inv gitlab log w s
      → length w.trace ≤ w.sent
      → (stored s ≡ w.trace) ⊎ (w.cancel ≡ aborted)
  Inv-delivered w s v all = elim v.known [
    | inl le ↦ inl (prefix_whole (stored s) w.trace v.prefix (omega arith))
    | inr gone ↦ inr gone
  ]

  pub flush_if_due-Inv :
      (now : ℕ) (w : TraceWriter) (s : State)
      → Inv gitlab log w s
      → let (w', s') = flush_if_due gitlab now w s in Inv gitlab log w' s'
  unfolding flush_if_due
  flush_if_due-Inv now w s v = elim (Bool-cases (leb w.update_interval (now - w.last_flush))) [
    | inl due ↦ rw due (flush-Inv now w s v)
    | inr early ↦ rw early v
  ]

  pub push-Inv :
      (w : TraceWriter) (s : State) (scrubber : StreamScrubber) (t : Bytes)
      → Inv gitlab log w s
      → Inv gitlab log (append (record w { scrubber = scrubber }) t) s
  push-Inv w s scrubber t v =
      append-Inv gitlab log (record w { scrubber = scrubber }) s t
        (record { prefix = v.prefix; known = v.known; within = v.within })

  pub write-Inv :
      (r : SecretScrubber) (now : ℕ) (text : Bytes) (w : TraceWriter) (s : State)
      → Inv gitlab log w s
      → let (w', s') = write gitlab r now text w s in Inv gitlab log w' s'
  unfolding write
  write-Inv r now text w s v =
      let (scrubber, safe) = Scrubber.push r w.scrubber text in
      let w1 = append (record w { scrubber = scrubber }) safe in
      let v1 = push-Inv w s scrubber safe v in
      elim (Bool-cases (leb flush_bytes (length w1.trace - w1.sent))) [
        | inl full ↦ rw full (flush-Inv now w1 s v1)
        | inr small ↦ rw small (flush_if_due-Inv now w1 s v1)
      ]

  pub flush_attempts-Inv :
      (n now : ℕ) (w : TraceWriter) (s : State)
      → Inv gitlab log w s
      → let (done, w', s') = flush_attempts gitlab n now w s in
        Inv gitlab log w' s' × (done ≡ true → length w'.trace ≤ w'.sent)
  unfolding flush_attempts
  flush_attempts-Inv zero now w s v = (v, λ e. cc)
  flush_attempts-Inv (suc n) now w s v = elim (Bool-cases (flush gitlab now w s).0) [
    | inl done ↦ rw (done, flush_attempts) (flush-Inv now w s v, λ e. flush-done now w s done)
    | inr more ↦ rw (more, flush_attempts) (flush_attempts-Inv n now _ _ (flush-Inv now w s v))
  ]

  pub finish-Inv :
      (r : SecretScrubber) (now : ℕ) (w : TraceWriter) (s : State)
      → Inv gitlab log w s
      → let (done, w', s') = finish gitlab r now w s in
        Inv gitlab log w' s' × (done ≡ true → length w'.trace ≤ w'.sent)
  unfolding finish
  finish-Inv r now w s v = flush_attempts-Inv 5 now _ s (push-Inv w s _ _ v)
