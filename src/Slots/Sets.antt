-- ===== src/Slots/Sets.antt =====
-- The sets and the table of src/runner_daemon/mod.rs's `ConcurrencySlots`.
use turboci.Prelude.{
  ℕ, suc, ◌≤◌, ◌<◌, Bool, true, false, ◌&&◌, ◌||◌, not, ◌≡◌, refl, ltb, ◌==◌, if◌then◌else◌, List,
  [], ◌∷◌, length, Option, none, some, arith,
}

abbrev pub Set : Type 0
Set = List ℕ

unfoldable pub contains : Set → ℕ → Bool
contains [] x = false
contains (y ∷ ys) x = (y == x) || contains ys x

unfoldable pub insert : ℕ → Set → Set
insert x [] = x ∷ []
insert x (y ∷ ys) = if ltb x y then x ∷ y ∷ ys else if x == y then y ∷ ys else y ∷ insert x ys

unfoldable pub remove : ℕ → Set → Set
remove x [] = []
remove x (y ∷ ys) = if y == x then remove x ys else y ∷ remove x ys

unfoldable pub is_empty : Set → Bool
is_empty [] = true
is_empty (x ∷ xs) = false

abbrev pub Table : Type 0
Table = List (ℕ × Set)

unfoldable pub lookup : ℕ → Table → Option Set
lookup p [] = none
lookup p ((q, s) ∷ t) = if q == p then some s else lookup p t

-- `entry(project).or_default()`.
unfoldable pub entry : ℕ → Table → Set
unfolding lookup
entry p t = elim (lookup p t) [ none ↦ [] | some s ↦ s ]

unfoldable pub set_entry : ℕ → Set → Table → Table
set_entry p s [] = (p, s) ∷ []
set_entry p s ((q, r) ∷ t) = if q == p then (q, s) ∷ t else (q, r) ∷ set_entry p s t

unfoldable pub delete_entry : ℕ → Table → Table
delete_entry p [] = []
delete_entry p ((q, r) ∷ t) = if q == p then delete_entry p t else (q, r) ∷ delete_entry p t

pub contains-insert : (x y : ℕ) (s : Set) → contains (insert x s) y ≡ ((x == y) || contains s y)
unfolding contains insert
contains-insert x y [] = refl
contains-insert x y (z ∷ s) = ground (arith, contains-insert x y s)

pub contains-remove : (x y : ℕ) (s : Set) → contains (remove x s) y ≡ (not (x == y) && contains s y)
unfolding contains remove
contains-remove x y [] = ground arith
contains-remove x y (z ∷ s) = ground (arith, contains-remove x y s)

pub length-insert-le : (x : ℕ) (s : Set) → length (insert x s) ≤ suc (length s)
unfolding insert
length-insert-le x [] = omega arith
length-insert-le x (y ∷ s) = ground (arith, length-insert-le x s)

pub length-remove-le : (x : ℕ) (s : Set) → length (remove x s) ≤ length s
unfolding remove
length-remove-le x [] = omega arith
length-remove-le x (y ∷ s) = ground (arith, length-remove-le x s)

pub length-remove-lt : (x : ℕ) (s : Set) → contains s x ≡ true → length (remove x s) < length s
unfolding remove contains
length-remove-lt x [] h = cc
length-remove-lt x (y ∷ s) h = ground (arith, length-remove-lt x s, length-remove-le x s)

pub lookup-set_entry :
    (p q : ℕ) (s : Set) (t : Table)
    → lookup q (set_entry p s t) ≡ (if p == q then some s else lookup q t)
unfolding lookup set_entry
lookup-set_entry p q s [] = refl
lookup-set_entry p q s ((r, u) ∷ t) = ground (arith, lookup-set_entry p q s t)

pub lookup-delete_entry :
    (p q : ℕ) (t : Table) → lookup q (delete_entry p t) ≡ (if p == q then none else lookup q t)
unfolding lookup delete_entry
lookup-delete_entry p q [] = ground arith
lookup-delete_entry p q ((r, u) ∷ t) = ground (arith, lookup-delete_entry p q t)
