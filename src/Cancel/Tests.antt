-- ===== src/Cancel/Tests.antt =====
-- Runs of src/runner_daemon/cancel.rs and the theorems at concrete histories.
use turboci.Prelude.{◌≡◌, refl, false, ◌||◌, [], ◌∷◌, some, none, codes}
use turboci.Cancel.{
  running, canceling, aborted, from_response, update, reached, updates, graceful, abort,
  abort_requested, request, answered, unanswered, mode_changed, beats, heartbeat_start,
}
use mathlib.Core.List.Perm
use turboci.Cancel.Laws.{updates-perm, reached-updates, beats_shutdown, any_reached}

canceling_header : from_response 200 (some (codes "canceling")) ≡ canceling
unfolding from_response
canceling_header = refl

forbidden_without_header : from_response 403 none ≡ aborted
unfolding from_response
forbidden_without_header = refl

stays_aborted : updates running (canceling ∷ aborted ∷ running ∷ []) ≡ aborted
unfolding updates update
stays_aborted = refl

graceful_after_abort : request abort graceful ≡ abort
unfolding request
graceful_after_abort = refl

updates-perm_example :
    updates running (aborted ∷ canceling ∷ []) ≡ updates running (canceling ∷ aborted ∷ [])
updates-perm_example = updates-perm running (Perm.swap canceling aborted [])

reached-updates_example :
    reached canceling (updates running (aborted ∷ running ∷ []))
    ≡ (reached canceling running || any_reached canceling (aborted ∷ running ∷ []))
reached-updates_example = reached-updates canceling running (aborted ∷ running ∷ [])

beats_shutdown_example :
    let h = beats heartbeat_start (unanswered ∷ mode_changed abort ∷ answered running ∷ []) in
    (h.signal ≡ aborted) × (h.alive ≡ false)
unfolding abort_requested
beats_shutdown_example =
    beats_shutdown (unanswered ∷ mode_changed abort ∷ answered running ∷ []) refl
