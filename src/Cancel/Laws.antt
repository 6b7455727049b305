-- ===== src/Cancel/Laws.antt =====
-- The signal of src/runner_daemon/cancel.rs only escalates, whoever writes it and in what order.
use mathlib.Core.List.{Perm, Permᴰ}
use mathlib.Core.List.Permᴰ.{nil, cons, swap, trans}
use mathlib.Core.Bool.{not}
use mathlib.Core.Logic.{∥∥₁_elim}
use turboci.Prelude.{Bool, true, false, ◌≡◌, refl, ◌∙◌, ap, List, [], ◌∷◌, arith, ◌||◌}
use turboci.Cancel.{
  RemoteState, aborted, update, reached, updates, Shutdown, request, abort_requested, Beat,
  answered, unanswered, mode_changed, Heartbeat, beat, beats, heartbeat_start,
}

-- The waiter for `level` is woken by one of the values seen so far.
abbrev pub any_reached : RemoteState → List RemoteState → Bool
any_reached level [] = false
any_reached level (s ∷ ss) = reached level s || any_reached level ss

RemoteState-set : IsSet RemoteState
RemoteState-set = hlevel

update_comm : (c s t : RemoteState) → update (update c s) t ≡ update (update c t) s
unfolding update
update_comm c s t = ground arith

reached-update :
    (level c s : RemoteState) → reached level (update c s) ≡ (reached level c || reached level s)
unfolding update reached
reached-update level c s = ground arith

updates-rank :
    (level c : RemoteState) (ss : List RemoteState)
    → reached level (updates c ss) ≡ (reached level c || any_reached level ss)
unfolding updates
updates-rank level c [] = ground arith
updates-rank level c (s ∷ ss) =
    ground (arith, updates-rank level (update c s) ss, reached-update level c s)

updates-Permᴰ :
    {ss ts : List RemoteState} → Permᴰ ss ts → (c : RemoteState) → updates c ss ≡ updates c ts
unfolding updates
updates-Permᴰ nil c = refl
updates-Permᴰ (cons {b = b} e p) c = rw e (updates-Permᴰ p (update c b))
updates-Permᴰ (swap {a = a} {b = b} {l = l} e f) c =
    rw (← e, ← f) (ap (λ x. updates x l) (update_comm c a b))
updates-Permᴰ (trans p q) c = updates-Permᴰ p c ∙ updates-Permᴰ q c

-- Two orders of the same updates leave the signal in the same state, so it does not matter in
-- which order the trace responses, the heartbeat and the shutdown make theirs.
pub updates-perm :
    (c : RemoteState) {ss ts : List RemoteState} → Perm ss ts → updates c ss ≡ updates c ts
updates-perm c p = ∥∥₁_elim p (RemoteState-set _ _) (λ d. updates-Permᴰ d c)

-- What a waiter for a level waits for holds after a sequence of updates exactly if it held at the
-- start or some update recorded a state of that level or above; no later, weaker update undoes
-- it.
pub reached-updates :
    (level c : RemoteState) (ss : List RemoteState)
    → reached level (updates c ss) ≡ (reached level c || any_reached level ss)
reached-updates level c ss = updates-rank level c ss

-- The modes that the events of a heartbeat loop request.
abbrev pub modes : List Beat → List Shutdown
modes [] = []
modes (answered s ∷ bs) = modes bs
modes (unanswered ∷ bs) = modes bs
modes (mode_changed m ∷ bs) = m ∷ modes bs

abbrev pub any_abort : List Shutdown → Bool
any_abort [] = false
any_abort (m ∷ ms) = abort_requested m || any_abort ms

-- What the loop keeps: it has returned exactly if an abort was requested, and then the job is aborted.
abbrev IsHeld : Heartbeat → Type 0
IsHeld h =
    (h.alive ≡ not (abort_requested h.mode)) × (abort_requested h.mode ≡ true → h.signal ≡ aborted)

start_mode : abort_requested heartbeat_start.mode ≡ false
unfolding abort_requested
start_mode = refl

start-IsHeld : IsHeld heartbeat_start
unfolding abort_requested
start-IsHeld = (refl, λ e. cc)

beat-IsHeld : (h : Heartbeat) (b : Beat) → IsHeld h → IsHeld (beat h b)
unfolding beat
beat-IsHeld h (answered s) v = ground arith
beat-IsHeld h unanswered v = v
beat-IsHeld h (mode_changed m) v = ground arith

request-abort :
    (c m : Shutdown) → abort_requested (request c m) ≡ (abort_requested c || abort_requested m)
unfolding request abort_requested
request-abort c m = ground arith

beats-IsHeld : (h : Heartbeat) (bs : List Beat) → IsHeld h → IsHeld (beats h bs)
unfolding beats
beats-IsHeld h [] v = v
beats-IsHeld h (b ∷ bs) v = beats-IsHeld (beat h b) bs (beat-IsHeld h b v)

beat-abort :
    (h : Heartbeat) (b : Beat)
    → abort_requested (beat h b).mode ≡ (abort_requested h.mode || any_abort (modes (b ∷ [])))
unfolding beat
beat-abort h (answered s) = ground arith
beat-abort h unanswered = ground arith
beat-abort h (mode_changed m) = ground (arith, request-abort h.mode m)

any_abort-modes :
    (b : Beat) (bs : List Beat)
    → any_abort (modes (b ∷ bs)) ≡ (any_abort (modes (b ∷ [])) || any_abort (modes bs))
any_abort-modes (answered s) bs = refl
any_abort-modes unanswered bs = refl
any_abort-modes (mode_changed m) bs = ground arith

beats-abort :
    (h : Heartbeat) (bs : List Beat)
    → abort_requested (beats h bs).mode ≡ (abort_requested h.mode || any_abort (modes bs))
unfolding beats
beats-abort h [] = ground arith
beats-abort h (b ∷ bs) =
    ground (arith, beats-abort (beat h b) bs, beat-abort h b, any_abort-modes b bs)

-- If some event of a heartbeat loop requests an abort, then after the events the job's signal is
-- aborted and the loop has returned, whatever GitLab answered before or after.
pub beats_shutdown :
    (bs : List Beat)
    → any_abort (modes bs) ≡ true
    → let h = beats heartbeat_start bs in (h.signal ≡ aborted) × (h.alive ≡ false)
beats_shutdown bs h =
    let held = beats-IsHeld heartbeat_start bs start-IsHeld in
    let asked = beats-abort heartbeat_start bs in ground (arith, held, asked, start_mode)
