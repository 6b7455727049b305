-- ===== src/Trace/Append.antt =====
-- What the trace of src/runner_daemon/trace.rs holds: the scrubbed output, up to the limit.
use turboci.Prelude.{
  ℕ, zero, suc, ◌-◌, ◌≤◌, ◌<◌, arith, length-append, ◌≡◌, refl, sym, subst, ap, ◌∙◌, inl, inr, ◌⊎◌,
  true, false, Bool-cases, leb, List, [], ◌∷◌, ◌++◌, length, take, drop, take-append-drop, Bytes,
  append_assoc, append-nil,
}
use turboci.Scrubber.{SecretScrubber, StreamScrubber, emitted, floor_boundary}
use turboci.Scrubber
use turboci.Trace.Flush.{flush_cases}
use turboci.Trace.Delivery.{Call, written, polled, calls}
use turboci.Trace.Defs.{
  TraceServer, TraceWriter, new, append, acknowledge, limit_message, flush, flush_if_due, write,
  flush_attempts, finish, flush_bytes,
}

-- The writer's fields that the log is made of.
abbrev SameLog : TraceWriter → TraceWriter → Type 0
SameLog w w' =
    (w'.trace ≡ w.trace)
    × (w'.truncated ≡ w.truncated)
    × (w'.limit ≡ w.limit)
    × (w'.scrubber ≡ w.scrubber)

flush-SameLog :
    (gitlab : TraceServer) (now : ℕ) (w : TraceWriter) (s : gitlab.State)
    → SameLog w (flush gitlab now w s).1
unfolding acknowledge
flush-SameLog gitlab now w s =
    flush_cases gitlab now w s (λ r. SameLog w r.1) (λ all. (refl, refl, refl, refl))
      (λ p lt e. (refl, refl, refl, refl)) (λ lt e. (refl, refl, refl, refl))

flush_if_due-SameLog :
    (gitlab : TraceServer) (now : ℕ) (w : TraceWriter) (s : gitlab.State)
    → SameLog w (flush_if_due gitlab now w s).0
unfolding flush_if_due
flush_if_due-SameLog gitlab now w s =
    elim (Bool-cases (leb w.update_interval (now - w.last_flush))) [
      | inl due ↦ rw due (flush-SameLog gitlab now w s)
      | inr early ↦ rw early (refl, refl, refl, refl)
    ]

-- What `write` makes of the chunk before it flushes.
abbrev pushed : SecretScrubber → TraceWriter → Bytes → TraceWriter
pushed r w text =
    let (scrubber, safe) = Scrubber.push r w.scrubber text in
    append (record w { scrubber = scrubber }) safe

write-SameLog :
    (gitlab : TraceServer) (r : SecretScrubber) (now : ℕ) (text : Bytes) (w : TraceWriter)
    (s : gitlab.State)
    → SameLog (pushed r w text) (write gitlab r now text w s).0
unfolding write
write-SameLog gitlab r now text w s =
    let w1 = pushed r w text in
    elim (Bool-cases (leb flush_bytes (length w1.trace - w1.sent))) [
      | inl full ↦ rw full (flush-SameLog gitlab now w1 s)
      | inr small ↦ rw small (flush_if_due-SameLog gitlab now w1 s)
    ]

flush_attempts-SameLog :
    (gitlab : TraceServer) (n now : ℕ) (w : TraceWriter) (s : gitlab.State)
    → SameLog w (flush_attempts gitlab n now w s).1
unfolding flush_attempts
flush_attempts-SameLog gitlab zero now w s = (refl, refl, refl, refl)
flush_attempts-SameLog gitlab (suc n) now w s = elim (Bool-cases (flush gitlab now w s).0) [
  | inl done ↦ rw (done, flush_attempts) (flush-SameLog gitlab now w s)
  | inr more ↦
      rw (more, flush_attempts)
        (let (a, b, c, d) = flush-SameLog gitlab now w s in
          let (a', b', c', d') = flush_attempts-SameLog gitlab n now _ _ in
          (a' ∙ a, b' ∙ b, c' ∙ c, d' ∙ d))
]

-- The log of a writer, against all that there is to say: all of it so far, within the limit, or, if
-- that is more than the limit, a part and the notice.
abbrev Shows : TraceWriter → Bytes → Bytes → Type 0
Shows w all rest =
    ((w.truncated ≡ false) × (length w.trace ≤ w.limit) × (all ≡ w.trace ++ rest))
    ⊎ ((w.truncated ≡ true)
        × (w.limit < length all)
        × ((p : Bytes) × (x : Bytes) × (all ≡ p ++ x) × (w.trace ≡ p ++ limit_message w.limit)))

append-Shows :
    (w : TraceWriter) (all t rest : Bytes) → Shows w all (t ++ rest) → Shows (append w t) all rest
unfolding append
append-Shows w all t rest (inr (cut, over, part)) = rw cut (inr (refl, over, part))
append-Shows w all t rest (inl (open_log, within, e)) =
    elim (Bool-cases (leb (length t) (w.limit - length w.trace))) [
      | inl fits ↦
          rw (open_log, fits)
            (inl (
              refl,
              ground (arith, fits, length-append w.trace t),
              e ∙ sym (append_assoc w.trace t rest),
            ))
      | inr over ↦
          let n = floor_boundary t (w.limit - length w.trace) in
          rw (open_log, over)
            (inr (
              refl,
              ground (
                arith,
                over,
                ap length e,
                length-append w.trace (t ++ rest),
                length-append t rest,
              ),
              (
                w.trace ++ take n t,
                drop n t ++ rest,
                e ∙ regroup w.trace (take n t) (drop n t) t rest (take-append-drop n t),
                sym (append_assoc w.trace (take n t) (limit_message w.limit)),
              ),
            ))
    ]
  where
    regroup : (u a b t x : Bytes) → a ++ b ≡ t → u ++ (t ++ x) ≡ (u ++ a) ++ (b ++ x)
    regroup u a b t x e =
        rw (← e) (ap (◌++◌ u) (append_assoc a b x) ∙ sym (append_assoc u a (b ++ x)))

Shows-SameLog :
    (w w' : TraceWriter) (all rest : Bytes) → SameLog w w' → Shows w all rest → Shows w' all rest
Shows-SameLog w w' all rest (et, eb, el, es) (inl (open_log, within, e)) = inl (
  eb ∙ open_log,
  omega (arith, within, ap length et, el),
  e ∙ ap (λ (t : Bytes). t ++ rest) (sym et),
)
Shows-SameLog w w' all rest (et, eb, el, es) (inr (cut, over, (p, x, e, f))) = inr (
  eb ∙ cut,
  omega (arith, over, el),
  (p, x, e, et ∙ (f ∙ ap (λ (n : ℕ). p ++ limit_message n) (sym el))),
)

-- The chunks of a history.
abbrev pub texts : List Call → List Bytes
texts [] = []
texts (written now text ∷ cs) = text ∷ texts cs
texts (polled now ∷ cs) = texts cs

append-scrubber : (w : TraceWriter) (t : Bytes) → (append w t).scrubber ≡ w.scrubber
unfolding append
append-scrubber w t = elim (Bool-cases w.truncated) [
  | inl cut ↦ rw cut refl
  | inr open_log ↦ elim (Bool-cases (leb (length t) (w.limit - length w.trace))) [
    | inl fits ↦ rw (open_log, fits) refl
    | inr over ↦ rw (open_log, over) refl
  ]
]

module _ (gitlab : TraceServer) where
  open gitlab use {State}

  calls-Shows :
      (r : SecretScrubber) (cs : List Call) (w : TraceWriter) (s : State) (all : Bytes)
      → Shows w all (emitted r w.scrubber (texts cs))
      → let w' = (calls gitlab r cs w s).0 in Shows w' all (Scrubber.finish r w'.scrubber).1
  unfolding calls emitted
  calls-Shows r [] w s all h = h
  calls-Shows r (written now text ∷ cs) w s all h = calls-Shows r cs w' _ all (
      subst (λ st'. Shows w' all (emitted r st' (texts cs))) (sym scrubber)
        (Shows-SameLog (pushed r w text) w' all (emitted r st (texts cs)) same shown))
    where
      w' : TraceWriter
      w' = (write gitlab r now text w s).0

      st : StreamScrubber
      st = (Scrubber.push r w.scrubber text).0

      safe : Bytes
      safe = (Scrubber.push r w.scrubber text).1

      same : SameLog (pushed r w text) w'
      same = write-SameLog gitlab r now text w s

      scrubber : w'.scrubber ≡ st
      scrubber = same.3 ∙ append-scrubber (record w { scrubber = st }) safe

      shown : Shows (pushed r w text) all (emitted r st (texts cs))
      shown = append-Shows (record w { scrubber = st }) all safe (emitted r st (texts cs)) h
  calls-Shows r (polled now ∷ cs) w s all h = calls-Shows r cs w' _ all (
      subst (λ st'. Shows w' all (emitted r st' (texts cs))) (sym same.3)
        (Shows-SameLog w w' all (emitted r w.scrubber (texts cs)) same h))
    where
      w' : TraceWriter
      w' = (flush_if_due gitlab now w s).0

      same : SameLog w w'
      same = flush_if_due-SameLog gitlab now w s

  finish-Shows :
      (r : SecretScrubber) (later : ℕ) (w : TraceWriter) (s : State) (all : Bytes)
      → Shows w all (Scrubber.finish r w.scrubber).1
      → Shows (finish gitlab r later w s).1 all []
  unfolding finish
  finish-Shows r later w s all h =
      Shows-SameLog w1 (flush_attempts gitlab 5 later w1 s).1 all []
        (flush_attempts-SameLog gitlab 5 later w1 s)
        (append-Shows (record w { scrubber = st }) all rest []
          (subst (Shows w all) (sym (append-nil rest)) h))
    where
      st : StreamScrubber
      st = (Scrubber.finish r w.scrubber).0

      rest : Bytes
      rest = (Scrubber.finish r w.scrubber).1

      w1 : TraceWriter
      w1 = append (record w { scrubber = st }) rest

  -- After every history of writes and polls and `finish`, the trace is what the stream scrubber
  -- emits for the chunks written, at most as long as the limit; or that is longer than the limit,
  -- the writer is truncated, and the trace is a prefix of it and the notice.
  pub trace_shows :
      (r : SecretScrubber) (now later : ℕ) (cs : List Call) (s : State)
      → let (w, s1) = calls gitlab r cs (new now) s in
        let w' = (finish gitlab r later w s1).1 in
        ((w'.truncated ≡ false)
          × (length w'.trace ≤ w'.limit)
          × (w'.trace ≡ emitted r Scrubber.new (texts cs)))
        ⊎ ((w'.truncated ≡ true)
            × (w'.limit < length (emitted r Scrubber.new (texts cs)))
            × ((p : Bytes) × (x : Bytes) × (emitted r Scrubber.new (texts cs) ≡ p ++ x)
                × (w'.trace ≡ p ++ limit_message w'.limit)))
  unfolding new
  trace_shows r now later cs s =
      elim (finish-Shows r later w s1 all
        (calls-Shows r cs (new now) s all (inl (refl, omega arith, refl)))) [
          | inl (whole, within, e) ↦ inl (whole, within, sym (e ∙ append-nil _))
          | inr part ↦ inr part
        ]
    where
      all : Bytes
      all = emitted r Scrubber.new (texts cs)

      w : TraceWriter
      w = (calls gitlab r cs (new now) s).0

      s1 : State
      s1 = (calls gitlab r cs (new now) s).1
