-- ===== src/Trace/Prefix.antt =====
-- GitLab's log is always a prefix of the trace of src/runner_daemon/trace.rs: nothing is lost
-- between two of its parts or sent twice, whatever happens to requests and answers.
use turboci.Prelude.{
  ℕ, zero, suc, ◌+◌, ◌-◌, ◌≤◌, ◌<◌, ◌≡◌, refl, sym, ap, ◌∙◌, inl, inr, ◌⊎◌, true, false, Bool-cases,
  Option-cases, leb, ◌==◌, [], ◌∷◌, ◌++◌, length, length-append, drop, Option, some, Bytes, arith,
  append_assoc, append-nil,
}
use turboci.Cancel.{aborted, from_response, update}
use turboci.Text.Slices.{drop-append}
use turboci.Trace.Server.{IsJobLog}
use turboci.Trace.Defs.{
  Reply, lost, answer, TraceServer, TracePatch, range_end, read_reply, is_success,
  retry_with_backoff, try_patch, TraceWriter, append, acknowledge,
}

abbrev pub IsPrefix : Bytes → Bytes → Type 0
IsPrefix p t = (rest : Bytes) × (t ≡ p ++ rest)

IsPrefix-append : (p t x : Bytes) → IsPrefix p t → IsPrefix p (t ++ x)
IsPrefix-append p t x (rest, e) = (rest ++ x, rw e (append_assoc p rest x))

-- The rest of a text behind a prefix of it completes the prefix.
drop-prefix : (p t : Bytes) → IsPrefix p t → p ++ drop (length p) t ≡ t
drop-prefix p t (rest, e) =
    let size : length p + 0 ≡ length p = omega arith in
    rw e (ap (◌++◌ p) (ap (λ (n : ℕ). drop n (p ++ rest)) (sym size) ∙ drop-append 0 p rest))

pub prefix_whole : (p t : Bytes) → IsPrefix p t → length t ≤ length p → p ≡ t
prefix_whole p t (rest, e) le = whole rest e
  where
    whole : (rest : Bytes) → t ≡ p ++ rest → p ≡ t
    whole [] e = sym (e ∙ append-nil p)
    whole (c ∷ rest) e = absurd (omega (arith, ap length e, length-append p (c ∷ rest)))

-- What `read_reply` makes of each kind of status.
module _ (status : ℕ) (job_status range interval : Option Bytes) (offset end_offset : ℕ)
    (p : TracePatch) where
  read_gone :
      (status == 403) ≡ true
      → read_reply (answer status job_status range interval) offset end_offset ≡ some p
      → p.remote ≡ aborted
  unfolding read_reply from_response
  read_gone e h = ground arith

  read_range :
      (status == 403) ≡ false
      → (status == 416) ≡ true
      → read_reply (answer status job_status range interval) offset end_offset ≡ some p
      → (header : Bytes) × (end : ℕ) × (range ≡ some header)
        × (range_end header ≡ some end)
        × (p.offset ≡ end)
  unfolding read_reply
  read_range e f h = elim (Option-cases range) [
    | inl missing ↦ absurd (ground arith)
    | inr (header, found) ↦ elim (Option-cases (range_end header)) [
      | inl bad ↦ absurd (ground arith)
      | inr (end, good) ↦ (header, end, found, good, ground arith)
    ]
  ]

  read_success :
      (status == 403) ≡ false
      → (status == 416) ≡ false
      → read_reply (answer status job_status range interval) offset end_offset ≡ some p
      → (is_success status ≡ true) × (p.offset ≡ end_offset)
  unfolding read_reply
  read_success e f h = ground arith

good_status : (status : ℕ) → is_success status ≡ true → (200 ≤ status) × (status < 300)
unfolding is_success
good_status status h = ground arith

-- `append` only adds to the trace.
pub append-grows :
    (w : TraceWriter) (t : Bytes)
    → let w' = append w t in
      (x : Bytes) × (w'.trace ≡ w.trace ++ x) × (w'.sent ≡ w.sent) × (w'.cancel ≡ w.cancel)
unfolding append
append-grows w t = elim (Bool-cases w.truncated) [
  | inl done ↦ rw done ([], sym (append-nil w.trace), refl, refl)
  | inr open_log ↦ elim (Bool-cases (leb (length t) (w.limit - length w.trace))) [
    | inl fits ↦ rw (open_log, fits) (t, refl, refl, refl)
    | inr over ↦ rw (open_log, over) (_, refl, refl, refl)
  ]
]

module _ (gitlab : TraceServer) (log : IsJobLog gitlab) where
  open gitlab use {State, stored, patch}

  -- What an attempt keeps, for a trace and the length that GitLab had at first.
  abbrev pub Kept : Bytes → ℕ → State → Type 0
  Kept trace had s = IsPrefix (stored s) trace × (had ≤ length (stored s))

  -- What a patch says of what GitLab has.
  abbrev pub Says : TracePatch → State → Type 0
  Says p s = (p.offset ≤ length (stored s)) ⊎ (p.remote ≡ aborted)

  patch-Kept :
      (trace : Bytes) (had offset : ℕ) (s : State)
      → Kept trace had s
      → Kept trace had (patch s offset (drop offset trace)).1
  patch-Kept trace had offset s (prefix, le) = elim (log.appends s offset (drop offset trace)) [
    | inl same ↦ rw same (prefix, le)
    | inr (here, grown) ↦
        let whole : stored s ++ drop offset trace ≡ trace =
          rw here (drop-prefix (stored s) trace prefix) in
        (
          rw (grown, whole) ([], sym (append-nil trace)),
          rw grown (omega (arith, length-append (stored s) (drop offset trace))),
        )
  ]

  read_reply-Says :
      (offset : ℕ) (t : Bytes) (s : State) (reply : Reply) (p : TracePatch)
      → (patch s offset t).0 ≡ reply
      → read_reply reply offset (offset + length t) ≡ some p
      → Says p (patch s offset t).1
  read_reply-Says offset t s lost p e h = unfold read_reply in cc
  read_reply-Says offset t s (answer status job_status range interval) p e h =
      elim (Bool-cases (status == 403)) [
        | inl gone ↦ inr (read_gone status job_status range interval offset _ p gone h)
        | inr held ↦ elim (Bool-cases (status == 416)) [
          | inl beyond ↦
              let (header, end, er, ee, ep) =
                read_range status job_status range interval offset _ p held beyond h in
              let st : status ≡ 416 = ground arith in
              let (exact, same) =
                log.refused s offset t job_status interval header end (cc (e, st, er)) ee in
              inl (omega (arith, ep, exact, ap length same))
          | inr within ↦
              let (good, ep) =
                read_success status job_status range interval offset _ p held within h in
              let (here, grown) =
                log.accepted s offset t status job_status range interval e
                  (good_status status good).0 (good_status status good).1 in
              inl (omega (arith, ep, here, ap length grown, length-append (stored s) t))
        ]
      ]

  try_patch-Kept :
      (trace : Bytes) (had offset : ℕ) (s : State)
      → Kept trace had s
      → Kept trace had (try_patch gitlab offset (drop offset trace) s).1
  unfolding try_patch
  try_patch-Kept trace had offset s k = patch-Kept trace had offset s k

  try_patch-Says :
      (offset : ℕ) (t : Bytes) (s : State) (p : TracePatch)
      → (try_patch gitlab offset t s).0 ≡ some p
      → Says p (try_patch gitlab offset t s).1
  unfolding try_patch
  try_patch-Says offset t s p h = read_reply-Says offset t s (patch s offset t).0 p refl h

  -- However many attempts are made, and whichever requests GitLab saw.
  pub retry-Kept :
      (n : ℕ) (trace : Bytes) (had offset : ℕ) (s : State)
      → Kept trace had s
      → let (result, s') = retry_with_backoff n (try_patch gitlab offset (drop offset trace)) s in
        Kept trace had s' × ((p : TracePatch) → result ≡ some p → Says p s')
  unfolding retry_with_backoff
  retry-Kept zero trace had offset s k = (k, λ p e. cc)
  retry-Kept (suc n) trace had offset s k =
      elim (Option-cases (try_patch gitlab offset (drop offset trace) s).0) [
        | inl failed ↦
            rw (failed, retry_with_backoff)
              (retry-Kept n trace had offset _ (try_patch-Kept trace had offset s k))
        | inr (q, found) ↦
            rw (found, retry_with_backoff)
              (
                try_patch-Kept trace had offset s k,
                λ p e. try_patch-Says offset (drop offset trace) s p (found ∙ e),
              )
      ]

  -- What the writer knows of GitLab's log: it is a prefix of the trace, and unless the job is
  -- aborted it is at least as long as what the writer counts as sent.
  pub record Inv (w : TraceWriter) (s : State) : Type 0 where
    pub prefix : IsPrefix (stored s) w.trace
    pub known : (w.sent ≤ length (stored s)) ⊎ (w.cancel ≡ aborted)
    pub within : w.sent ≤ length w.trace

  pub append-Inv : (w : TraceWriter) (s : State) (t : Bytes) → Inv w s → Inv (append w t) s
  append-Inv w s t v = grows (append w t) (append-grows w t)
    where
      grows :
          (w' : TraceWriter)
          → (x : Bytes) × (w'.trace ≡ w.trace ++ x) × (w'.sent ≡ w.sent) × (w'.cancel ≡ w.cancel)
          → Inv w' s
      grows w' (x, et, es, ec) = record {
        prefix = rw et (IsPrefix-append (stored s) w.trace x v.prefix);
        known = rw (es, ec) v.known;
        within = omega (arith, v.within, ap length et, length-append w.trace x);
      }

  pub acknowledge-Inv :
      (w : TraceWriter) (s : State) (p : TracePatch)
      → IsPrefix (stored s) w.trace
      → Says p s
      → ((w.sent ≤ length (stored s)) ⊎ (w.cancel ≡ aborted))
      → Inv (acknowledge w p) s
  unfolding acknowledge update
  acknowledge-Inv w s p prefix says known = record {
    prefix = prefix;
    known = ground (arith, says, known);
    within = ground arith;
  }
