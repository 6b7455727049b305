-- ===== src/Slots/Tests.antt =====
-- Runs of the slots of src/runner_daemon/mod.rs, and the theorems at concrete histories.
use turboci.Prelude.{◌≡◌, ◌<◌, refl, false, List, [], ◌∷◌, arith}
use turboci.Slots.Sets.{contains, insert, remove, entry, set_entry, delete_entry, is_empty}
use turboci.Slots.{
  find_free, lowest_free, start, acquire, release, Event, started, finished, nth, drop_nth, step,
  run, idle,
}
use turboci.Slots.Invariant.{Inv, has_id, has_project_id, run-idle-Inv, acquire_bound}
use turboci.Slots.Drained.{slots_drained}

-- Two jobs of project 7 and one of project 8 start; the first one ends.
abbrev history : List Event
history = started 7 ∷ started 7 ∷ started 8 ∷ finished 2 ∷ []

-- As in the unit test `concurrency_slots_reuse_the_lowest_free_ids`.
reuses_the_lowest : (acquire (run idle history).slots 7).1 ≡ record { id = 0; project_id = 0 }
unfolding run step acquire release lowest_free find_free nth drop_nth contains insert remove entry
    set_entry delete_entry is_empty
reuses_the_lowest = refl

run-idle-Inv_example : Inv (run idle history)
run-idle-Inv_example = run-idle-Inv history

acquire_bound_example :
    let slot = (acquire (run idle history).slots 7).1 in
    (slot.id < 3)
    × (has_id (run idle history).jobs slot.id ≡ false)
    × (has_project_id 7 (run idle history).jobs slot.project_id ≡ false)
unfolding run step acquire release lowest_free find_free nth drop_nth contains insert remove entry
    set_entry delete_entry is_empty
acquire_bound_example = acquire_bound history 3 7 (omega arith)

slots_drained_example : (run idle (started 7 ∷ finished 0 ∷ [])).slots ≡ start
unfolding run step acquire nth drop_nth
slots_drained_example = slots_drained (started 7 ∷ finished 0 ∷ []) refl
