-- ===== src/Slots/Drained.antt =====
-- When the last job has ended, the slots of src/runner_daemon/mod.rs are as new: no set is left.
use turboci.Prelude.{ℕ, false, ◌≡◌, refl, inl, inr, List, [], ◌∷◌, arith, Option-cases, All}
use turboci.Slots.Sets.{
  Set, contains, insert, remove, Table, lookup, entry, set_entry, delete_entry, is_empty,
}
use turboci.Slots.{
  ConcurrencySlots, Slot, acquire, release, release_project, Event, started, finished, Daemon, nth,
  step, run, idle, start,
}
use turboci.Slots.Invariant.{Inv, run-idle-Inv}

-- No project keeps an empty set.
abbrev Lean : Table → Type 0
Lean t = All (λ (e : ℕ × Set). is_empty e.1 ≡ false) t

set_entry-Lean :
    (p : ℕ) (s : Set) (t : Table) → is_empty s ≡ false → Lean t → Lean (set_entry p s t)
unfolding set_entry
set_entry-Lean p s [] h l = (h, tt)
set_entry-Lean p s ((q, r) ∷ t) h l = ground (arith, set_entry-Lean p s t h l.1)

delete_entry-Lean : (p : ℕ) (t : Table) → Lean t → Lean (delete_entry p t)
unfolding delete_entry
delete_entry-Lean p [] l = tt
delete_entry-Lean p ((q, r) ∷ t) l = ground (arith, delete_entry-Lean p t l.1)

insert-is_empty : (x : ℕ) (s : Set) → is_empty (insert x s) ≡ false
unfolding insert is_empty
insert-is_empty x [] = refl
insert-is_empty x (y ∷ s) = ground arith

release_project-Lean : (p : ℕ) (used : Set) (t : Table) → Lean t → Lean (release_project p used t)
unfolding release_project is_empty
release_project-Lean p [] t l = delete_entry-Lean p t l
release_project-Lean p (u ∷ used) t l = set_entry-Lean p (u ∷ used) t (unfold is_empty in refl) l

release-Lean :
    (s : ConcurrencySlots) (p : ℕ) (slot : Slot)
    → Lean s.projects
    → Lean (release s p slot).projects
unfolding release
release-Lean s p slot l = elim (Option-cases (lookup p s.projects)) [
  | inl missing ↦ rw (missing, release) l
  | inr (used, found) ↦
      rw (found, release) (release_project-Lean p (remove slot.project_id used) s.projects l)
]

step-Lean : (d : Daemon) (e : Event) → Lean d.slots.projects → Lean (step d e).slots.projects
unfolding step acquire
step-Lean d (started p) l =
    set_entry-Lean p _ d.slots.projects (insert-is_empty _ (entry p d.slots.projects)) l
step-Lean d (finished n) l = elim (Option-cases (nth d.jobs n)) [
  | inl missing ↦ rw (missing, step) l
  | inr (j, found) ↦ rw (found, step) (release-Lean d.slots j.project j.slot l)
]

run-Lean : (d : Daemon) (es : List Event) → Lean d.slots.projects → Lean (run d es).slots.projects
unfolding run
run-Lean d [] l = l
run-Lean d (e ∷ es) l = run-Lean (step d e) es (step-Lean d e l)

empty_set : (s : Set) → ((x : ℕ) → contains s x ≡ false) → s ≡ []
unfolding contains
empty_set [] h = refl
empty_set (y ∷ s) h = ground (arith, h y)

empty_table : (t : Table) → Lean t → ((p x : ℕ) → contains (entry p t) x ≡ false) → t ≡ []
unfolding contains entry lookup is_empty
empty_table [] l h = refl
empty_table ((q, []) ∷ t) l h = cc (l.0)
empty_table ((q, x ∷ s) ∷ t) l h = ground (arith, h q x)

-- When no job runs, after any history of starts and ends, the slots are those of a new daemon: no
-- number is held and no project keeps an entry.
pub slots_drained : (es : List Event) → (run idle es).jobs ≡ [] → (run idle es).slots ≡ start
slots_drained es ended = slots_empty (run idle es) ended (run-idle-Inv es) (run-Lean idle es tt)
  where
    slots_empty : (d : Daemon) → d.jobs ≡ [] → Inv d → Lean d.slots.projects → d.slots ≡ start
    slots_empty d e v l = λ i. record {
      runner = empty_set d.slots.runner (λ x. ground (arith, v.ids x)) i;
      projects = empty_table d.slots.projects l (λ p x. ground (arith, v.project_ids p x)) i;
    }
