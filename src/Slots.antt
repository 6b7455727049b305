-- ===== src/Slots.antt =====
-- `ConcurrencySlots` of src/runner_daemon/mod.rs, which hands out CI_CONCURRENT_ID and
-- CI_CONCURRENT_PROJECT_ID. A `BTreeSet<u32>` is its ascending list of members, the `HashMap` an
-- association list; the lock makes each call one step. Fewer than 2^32 jobs run at once, so the
-- search for a free number stays below the end of `u32`.
mod Sets
pub mod LowestFree
pub mod Invariant
pub mod Drained
pub mod Tests
use turboci.Prelude.{
  ℕ, zero, suc, ◌+◌, Bool, true, false, ◌==◌, if◌then◌else◌, List, [], ◌∷◌, length, Option, none,
  some,
}
use Sets.{Set, contains, insert, remove, Table, entry, set_entry, delete_entry, is_empty}

-- `(0..).find(|id| !used.contains(id))`: the rounds are the fuel, one more than the members.
find_free : ℕ → ℕ → Set → Option ℕ
find_free zero id used = none
find_free (suc rounds) id used =
    let rest = find_free rounds (id + 1) used in if contains used id then rest else some id

unwrap_or : Option ℕ → ℕ → ℕ
unwrap_or none d = d
unwrap_or (some a) d = a

pub lowest_free : Set → ℕ
unfolding unwrap_or
lowest_free used = unwrap_or (find_free (suc (length used)) 0 used) 0

pub record ConcurrencySlots : Type 0 where
  pub runner : Set
  pub projects : Table

-- The numbers of one running job.
pub record Slot : Type 0 where
  pub id : ℕ
  pub project_id : ℕ

pub acquire : ConcurrencySlots → ℕ → ConcurrencySlots × Slot
acquire s project =
    let id = lowest_free s.runner in
    let used = entry project s.projects in
    let project_id = lowest_free used in
    (
      record {
        runner = insert id s.runner;
        projects = set_entry project (insert project_id used) s.projects;
      },
      record { id = id; project_id = project_id },
    )

release_project : ℕ → Set → Table → Table
release_project project used projects =
    if is_empty used then delete_entry project projects else set_entry project used projects

pub release : ConcurrencySlots → ℕ → Slot → ConcurrencySlots
unfolding release_project
release s project slot = record {
  runner = remove slot.id s.runner;
  projects = elim (Sets.lookup project s.projects) [
    | none ↦ s.projects
    | some used ↦ release_project project (remove slot.project_id used) s.projects
  ];
}

abbrev pub start : ConcurrencySlots
start = record { runner = []; projects = [] }

-- A running job: `execute_job` acquires its slot first and releases it last.
pub record Running : Type 0 where
  pub project : ℕ
  pub slot : Slot

pub data Event : Type 0 where
  started : ℕ → Event
  finished : ℕ → Event

-- The daemon's slots and its running jobs, newest first; `finished n` ends the n-th of them.
pub record Daemon : Type 0 where
  pub slots : ConcurrencySlots
  pub jobs : List Running

pub nth : List Running → ℕ → Option Running
nth [] n = none
nth (j ∷ js) zero = some j
nth (j ∷ js) (suc n) = nth js n

pub drop_nth : List Running → ℕ → List Running
drop_nth [] n = []
drop_nth (j ∷ js) zero = js
drop_nth (j ∷ js) (suc n) = j ∷ drop_nth js n

pub step : Daemon → Event → Daemon
step d (started project) =
    let (slots, slot) = acquire d.slots project in
    record { slots = slots; jobs = record { project = project; slot = slot } ∷ d.jobs }
step d (finished n) = elim (nth d.jobs n) [
  | none ↦ d
  | some j ↦ record { slots = release d.slots j.project j.slot; jobs = drop_nth d.jobs n }
]

pub run : Daemon → List Event → Daemon
run d [] = d
run d (e ∷ es) = run (step d e) es

abbrev pub idle : Daemon
idle = record { slots = start; jobs = [] }
