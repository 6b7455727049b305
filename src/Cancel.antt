-- ===== src/Cancel.antt =====
-- Cancellation: src/runner_daemon/cancel.rs (the job's signal and the stop flag of blocking work),
-- `RemoteState` of src/gitlab/mod.rs, and the shutdown mode and the heartbeat loop of
-- src/runner_daemon/mod.rs. A watch channel is the value that it holds: a `send_if_modified` is one
-- atomic step, and a waiter is the test that its `wait_for` makes.
pub mod Laws
pub mod Tests
use turboci.Prelude.{
  ℕ, Bool, true, false, ltb, leb, ◌==◌, if◌then◌else◌, List, [], ◌∷◌, Option, none, some, Bytes,
  codes, bytes_eq, ◌&&◌,
}

pub data RemoteState : Type 0 where
  running canceling aborted : RemoteState

-- The derived order of the enum, by its discriminants.
abbrev pub rank : RemoteState → ℕ
rank running = 0
rank canceling = 1
rank aborted = 2

-- `RemoteState::from_response`: the status code, and the `Job-Status` header if it is readable.
unfoldable pub from_response : ℕ → Option Bytes → RemoteState
from_response status header = if status == 403 then aborted else elim header [
  | none ↦ running
  | some value ↦
      if bytes_eq value (codes "canceling")
      then canceling
      else if bytes_eq value (codes "canceled")
      then aborted
      else if bytes_eq value (codes "failed")
      then aborted
      else running
]

-- `CancelSignal::update`, on the current value.
unfoldable pub update : RemoteState → RemoteState → RemoteState
update current state = if ltb (rank current) (rank state) then state else current

-- `CancelSignal::reached`: what the waiter for `level` waits for.
unfoldable pub reached : RemoteState → RemoteState → Bool
reached level state = leb (rank level) (rank state)

-- The updates of a job's signal, in the order in which its writers make them.
pub updates : RemoteState → List RemoteState → RemoteState
updates current [] = current
updates current (s ∷ ss) = updates (update current s) ss

-- `Stop`: `check` fails once stopped.
abbrev pub Stop : Type 0
Stop = Bool

pub stop : Stop → Stop
stop flag = true

pub check : Stop → Bool
check flag = if flag then false else true

-- `up` is the source's `Running`.
pub data Shutdown : Type 0 where
  up graceful abort : Shutdown

abbrev pub shutdown_rank : Shutdown → ℕ
shutdown_rank up = 0
shutdown_rank graceful = 1
shutdown_rank abort = 2

-- `ShutdownHandle::request`.
pub request : Shutdown → Shutdown → Shutdown
request current mode = if ltb (shutdown_rank current) (shutdown_rank mode) then mode else current

-- What `shutdown_requested` and `abort_requested` wait for.
pub shutdown_requested : Shutdown → Bool
shutdown_requested up = false
shutdown_requested graceful = true
shutdown_requested abort = true

pub abort_requested : Shutdown → Bool
abort_requested up = false
abort_requested graceful = false
abort_requested abort = true

pub requests : Shutdown → List Shutdown → Shutdown
requests current [] = current
requests current (m ∷ ms) = requests (request current m) ms

-- What wakes the loop of `spawn_heartbeat`: the timer, whose keep-alive GitLab answers or not, or a
-- change of the shutdown mode.
pub data Beat : Type 0 where
  answered : RemoteState → Beat
  unanswered : Beat
  mode_changed : Shutdown → Beat

pub record Heartbeat : Type 0 where
  pub signal : RemoteState
  pub mode : Shutdown
  pub alive : Bool

-- One event: the mode is shared, so it changes also when the loop has returned.
pub beat : Heartbeat → Beat → Heartbeat
unfolding update request abort_requested
beat h (answered s) = if h.alive then record h { signal = update h.signal s } else h
beat h unanswered = h
beat h (mode_changed m) =
    let mode = request h.mode m in
    if h.alive && abort_requested mode
    then record { signal = update h.signal aborted; mode = mode; alive = false }
    else record h { mode = mode }

pub beats : Heartbeat → List Beat → Heartbeat
beats h [] = h
beats h (b ∷ bs) = beats (beat h b) bs

abbrev pub heartbeat_start : Heartbeat
heartbeat_start = record { signal = running; mode = up; alive = true }
