-- ===== src/Slots/Invariant.antt =====
-- The slots agree with the running jobs, through every history of job starts and ends.
use turboci.Prelude.{
  ℕ, zero, suc, ◌≤◌, ◌<◌, Bool, true, false, ◌≡◌, refl, inl, inr, List, [], ◌∷◌, length, none, some,
  arith, Option-cases, ◌==◌, not, ◌&&◌, ◌||◌, if◌then◌else◌,
}
use turboci.Slots.Sets.{
  Set, contains, insert, remove, Table, lookup, entry, set_entry, is_empty, contains-insert,
  contains-remove, length-insert-le, length-remove-lt, lookup-set_entry, lookup-delete_entry,
}
use turboci.Slots.{
  ConcurrencySlots, Slot, Running, lowest_free, acquire, release, release_project, Event, started,
  finished, Daemon, nth, drop_nth, step, run, idle,
}
use turboci.Slots.LowestFree.{lowest_free_lem, lowest_free-le-length}

-- Whether some running job holds the runner-wide number `x`.
abbrev pub has_id : List Running → ℕ → Bool
has_id [] x = false
has_id (j ∷ js) x = (j.slot.id == x) || has_id js x

-- Whether some running job of `p` holds the project number `x`.
abbrev pub has_project_id : ℕ → List Running → ℕ → Bool
has_project_id p [] x = false
has_project_id p (j ∷ js) x =
    ((j.project == p) && (j.slot.project_id == x)) || has_project_id p js x

-- No two running jobs share a runner-wide number, no two of one project a project number.
abbrev pub Distinct : List Running → Type 0
Distinct [] = Unit
Distinct (j ∷ js) =
    (has_id js j.slot.id ≡ false)
    × (has_project_id j.project js j.slot.project_id ≡ false)
    × Distinct js

entry-set_entry :
    (p q : ℕ) (s : Set) (t : Table) → entry q (set_entry p s t) ≡ (if p == q then s else entry q t)
unfolding entry
entry-set_entry p q s t = ground (arith, lookup-set_entry p q s t)

entry-release_project :
    (p q : ℕ) (used : Set) (t : Table) (x : ℕ)
    → contains (entry q (release_project p used t)) x
      ≡ (if p == q then contains used x else contains (entry q t) x)
unfolding release_project entry is_empty contains
entry-release_project p q [] t x = ground (arith, lookup-delete_entry p q t)
entry-release_project p q (u ∷ used) t x = ground (arith, lookup-set_entry p q (u ∷ used) t)

lookup-same : (p q : ℕ) (t : Table) → (p == q) ≡ true → lookup q t ≡ lookup p t
lookup-same p q t h = let e : p ≡ q = ground arith in rw e refl

contains-nil : (x : ℕ) → contains [] x ≡ false
unfolding contains
contains-nil x = refl

-- The set of a project after `release` lacks the released number, the other sets stay.
entry-release :
    (s : ConcurrencySlots) (p q : ℕ) (slot : Slot)
    → (x : ℕ)
    → contains (entry q (release s p slot).projects) x
      ≡ (contains (entry q s.projects) x && not ((p == q) && (slot.project_id == x)))
unfolding entry release
entry-release s p q slot x = elim (Option-cases (lookup p s.projects)) [
  | inl missing ↦ ground (arith, missing, lookup-same p q s.projects, contains-nil x)
  | inr (used, found) ↦ ground (
    arith,
    found,
    lookup-same p q s.projects,
    contains-remove slot.project_id x used,
    entry-release_project p q (remove slot.project_id used) s.projects x,
  )
]

pub record Inv (d : Daemon) : Type 0 where
  pub ids : (x : ℕ) → contains d.slots.runner x ≡ has_id d.jobs x
  pub project_ids : (p x : ℕ) → contains (entry p d.slots.projects) x ≡ has_project_id p d.jobs x
  pub distinct : Distinct d.jobs
  pub size : length d.slots.runner ≤ length d.jobs

acquire-Inv : (d : Daemon) (project : ℕ) → Inv d → Inv (step d (started project))
unfolding step acquire
acquire-Inv d project v = record {
  ids = λ x. ground (arith, contains-insert (lowest_free d.slots.runner) x d.slots.runner, v.ids x);
  project_ids = λ p x. ground (
    arith,
    entry-set_entry project p
        (insert (lowest_free (entry project d.slots.projects)) (entry project d.slots.projects))
        d.slots.projects,
    contains-insert (lowest_free (entry project d.slots.projects)) x
        (entry project d.slots.projects),
    v.project_ids p x,
  );
  distinct = ground (
    arith,
    v.ids (lowest_free d.slots.runner),
    (lowest_free_lem d.slots.runner).0,
    v.project_ids project (lowest_free (entry project d.slots.projects)),
    (lowest_free_lem (entry project d.slots.projects)).0,
    v.distinct,
  );
  size = omega (arith, v.size, length-insert-le (lowest_free d.slots.runner) d.slots.runner);
}

has_id-nth :
    (n : ℕ) (js : List Running) (j : Running) → nth js n ≡ some j → has_id js j.slot.id ≡ true
unfolding nth
has_id-nth n [] j h = cc
has_id-nth zero (k ∷ js) j h = ground arith
has_id-nth (suc n) (k ∷ js) j h = ground (arith, has_id-nth n js j h)

has_project_id-nth :
    (n : ℕ) (js : List Running) (j : Running)
    → nth js n ≡ some j
    → has_project_id j.project js j.slot.project_id ≡ true
unfolding nth
has_project_id-nth n [] j h = cc
has_project_id-nth zero (k ∷ js) j h = ground arith
has_project_id-nth (suc n) (k ∷ js) j h = ground (arith, has_project_id-nth n js j h)

has_id-drop_nth :
    (n x : ℕ) (js : List Running) (j : Running)
    → Distinct js
    → nth js n ≡ some j
    → has_id (drop_nth js n) x ≡ (has_id js x && not (j.slot.id == x))
unfolding nth drop_nth
has_id-drop_nth n x [] j d h = cc
has_id-drop_nth zero x (k ∷ js) j d h = ground arith
has_id-drop_nth (suc n) x (k ∷ js) j d h =
    ground (arith, has_id-drop_nth n x js j d.2 h, has_id-nth n js j h)

has_project_id-drop_nth :
    (n p x : ℕ) (js : List Running) (j : Running)
    → Distinct js
    → nth js n ≡ some j
    → has_project_id p (drop_nth js n) x
      ≡ (has_project_id p js x && not ((j.project == p) && (j.slot.project_id == x)))
unfolding nth drop_nth
has_project_id-drop_nth n p x [] j d h = cc
has_project_id-drop_nth zero p x (k ∷ js) j d h = ground arith
has_project_id-drop_nth (suc n) p x (k ∷ js) j d h =
    ground (arith, has_project_id-drop_nth n p x js j d.2 h, has_project_id-nth n js j h)

length-drop_nth :
    (n : ℕ) (js : List Running) (j : Running)
    → nth js n ≡ some j
    → suc (length (drop_nth js n)) ≡ length js
unfolding nth drop_nth
length-drop_nth n [] j h = cc
length-drop_nth zero (k ∷ js) j h = refl
length-drop_nth (suc n) (k ∷ js) j h = omega (arith, length-drop_nth n js j h)

drop_nth_missing : (n : ℕ) (js : List Running) → nth js n ≡ none → drop_nth js n ≡ js
unfolding nth drop_nth
drop_nth_missing n [] h = refl
drop_nth_missing zero (k ∷ js) h = cc
drop_nth_missing (suc n) (k ∷ js) h = ground (arith, drop_nth_missing n js h)

release-runner :
    (s : ConcurrencySlots) (p : ℕ) (slot : Slot)
    → (release s p slot).runner ≡ remove slot.id s.runner
unfolding release
release-runner s p slot = refl

Distinct-drop_nth : (n : ℕ) (js : List Running) → Distinct js → Distinct (drop_nth js n)
unfolding drop_nth
Distinct-drop_nth n [] d = tt
Distinct-drop_nth zero (k ∷ js) d = d.2
Distinct-drop_nth (suc n) (k ∷ js) d = elim (Option-cases (nth js n)) [
  | inl missing ↦ rw (drop_nth_missing n js missing) d
  | inr (j, found) ↦ ground (
    arith,
    Distinct-drop_nth n js d.2,
    has_id-drop_nth n k.slot.id js j d.2 found,
    has_project_id-drop_nth n k.project k.slot.project_id js j d.2 found,
  )
]

-- Ending a job releases just its numbers.
release-Inv :
    (d : Daemon) (n : ℕ) (j : Running)
    → Inv d
    → nth d.jobs n ≡ some j
    → Inv (record { slots = release d.slots j.project j.slot; jobs = drop_nth d.jobs n })
release-Inv d n j v found = record {
  ids = λ x. ground (
    arith,
    contains-remove j.slot.id x d.slots.runner,
    v.ids x,
    has_id-drop_nth n x d.jobs j v.distinct found,
    release-runner d.slots j.project j.slot,
  );
  project_ids = λ p x. ground (
    arith,
    entry-release d.slots j.project p j.slot x,
    v.project_ids p x,
    has_project_id-drop_nth n p x d.jobs j v.distinct found,
  );
  distinct = Distinct-drop_nth n d.jobs v.distinct;
  size = ground (
    arith,
    v.size,
    v.ids j.slot.id,
    has_id-nth n d.jobs j found,
    length-remove-lt j.slot.id d.slots.runner,
    length-drop_nth n d.jobs j found,
    release-runner d.slots j.project j.slot,
  );
}

step-Inv : (d : Daemon) (e : Event) → Inv d → Inv (step d e)
unfolding step
step-Inv d (started project) v = acquire-Inv d project v
step-Inv d (finished n) v = elim (Option-cases (nth d.jobs n)) [
  | inl missing ↦ rw (missing, step) v
  | inr (j, found) ↦ rw (found, step) (release-Inv d n j v found)
]

run-Inv : (d : Daemon) (es : List Event) → Inv d → Inv (run d es)
unfolding run
run-Inv d [] v = v
run-Inv d (e ∷ es) v = run-Inv (step d e) es (step-Inv d e v)

idle-Inv : Inv idle
unfolding contains entry lookup
idle-Inv = record { ids = λ x. refl; project_ids = λ p x. refl; distinct = tt; size = omega arith }

-- After every history of job starts and ends the set of runner-wide numbers in use is exactly that
-- of the running jobs, each project's set exactly that of its running jobs, no two running jobs
-- share a runner-wide number, no two running jobs of one project share a project number, and there
-- are at most as many runner-wide numbers in use as running jobs.
pub run-idle-Inv : (es : List Event) → Inv (run idle es)
run-idle-Inv es = run-Inv idle es idle-Inv

-- While at most `concurrent - 1` jobs run, the next one gets a CI_CONCURRENT_ID below `concurrent`
-- that no running job has, and a CI_CONCURRENT_PROJECT_ID that no running job of its project has.
pub acquire_bound :
    (es : List Event) (concurrent project : ℕ)
    → length (run idle es).jobs < concurrent
    → let slot = (acquire (run idle es).slots project).1 in
      (slot.id < concurrent)
      × (has_id (run idle es).jobs slot.id ≡ false)
      × (has_project_id project (run idle es).jobs slot.project_id ≡ false)
unfolding acquire
acquire_bound es concurrent project room =
    let v = run-idle-Inv es in
    let slots = (run idle es).slots in
    ground (
      arith,
      v.size,
      lowest_free-le-length slots.runner,
      (lowest_free_lem slots.runner).0,
      v.ids (lowest_free slots.runner),
      (lowest_free_lem (entry project slots.projects)).0,
      v.project_ids project (lowest_free (entry project slots.projects)),
    )
