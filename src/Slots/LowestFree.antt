-- ===== src/Slots/LowestFree.antt =====
-- `ConcurrencySlots::lowest_free` finds the least number that the set does not hold.
use turboci.Prelude.{
  ℕ, zero, suc, ◌+◌, ◌≤◌, ◌<◌, true, false, ◌≡◌, refl, inl, inr, length, none, some, arith,
  Bool-cases, Option-cases, ◌==◌,
}
use turboci.Slots.Sets.{Set, contains, remove, contains-remove, length-remove-lt}
use turboci.Slots.{find_free, unwrap_or, lowest_free}

-- What the search returns is free, and everything from its start up to it is taken.
find_free_sound :
    (f i : ℕ) (s : Set) {r : ℕ}
    → find_free f i s ≡ some r
    → (contains s r ≡ false) × (i ≤ r) × ((x : ℕ) → i ≤ x → x < r → contains s x ≡ true)
unfolding find_free
find_free_sound zero i s h = cc
find_free_sound (suc f) i s {r} h = elim (Bool-cases (contains s i)) [
  | inl taken ↦
      let (free, le, below) = find_free_sound f (i + 1) s {r = r} (ground arith) in
      (
        free,
        omega arith,
        λ x p q. elim (Bool-cases (x == i)) [
          | inl e ↦ let e' : x ≡ i = ground arith in ground (arith)
          | inr e ↦ below x (ground arith) q
        ],
      )
  | inr free ↦
      let e : i ≡ r = ground arith in (ground arith, omega arith, λ x p q. absurd (omega arith))
]

find_free-remove :
    (f i j : ℕ) (s : Set) → j < i → find_free f i s ≡ none → find_free f i (remove j s) ≡ none
unfolding find_free
find_free-remove zero i j s lt h = refl
find_free-remove (suc f) i j s lt h =
    ground (arith, contains-remove j i s, find_free-remove f (i + 1) j s)

-- A search that fails has met a different member in each round.
find_free-none : (f i : ℕ) (s : Set) → find_free f i s ≡ none → f ≤ length s
unfolding find_free
find_free-none zero i s h = omega arith
find_free-none (suc f) i s h = ground (
  arith,
  find_free-none f (i + 1) (remove i s),
  find_free-remove f (i + 1) i s,
  length-remove-lt i s,
)

find_free_total : (s : Set) → (r : ℕ) × (find_free (suc (length s)) 0 s ≡ some r)
find_free_total s = elim (Option-cases (find_free (suc (length s)) 0 s)) [
  | inl e ↦ absurd (omega (arith, find_free-none (suc (length s)) 0 s e))
  | inr found ↦ found
]

-- The number returned is not in use, every smaller one is.
pub lowest_free_lem :
    (s : Set)
    → (contains s (lowest_free s) ≡ false) × ((x : ℕ) → x < lowest_free s → contains s x ≡ true)
unfolding lowest_free unwrap_or
lowest_free_lem s =
    let (r, e) = find_free_total s in
    let (free, _, below) = find_free_sound (suc (length s)) 0 s {r = r} e in
    rw e (free, λ x lt. below x (omega arith) lt)

-- A number below the one that `lowest_free` returns is in use, and that one is not.
pub lowest_free_least :
    (s : Set) (x : ℕ)
    → x < lowest_free s
    → (contains s x ≡ true) × (contains s (lowest_free s) ≡ false)
lowest_free_least s x lt = let (free, below) = lowest_free_lem s in (below x lt, free)

-- So a set of n members has a free number that is at most n.
find_free_le : (f i : ℕ) (s : Set) {r : ℕ} → find_free f i s ≡ some r → r < i + f
unfolding find_free
find_free_le zero i s h = cc
find_free_le (suc f) i s {r} h = ground (arith, find_free_le f (i + 1) s {r = r})

pub lowest_free-le-length : (s : Set) → lowest_free s ≤ length s
unfolding lowest_free unwrap_or
lowest_free-le-length s =
    let (r, e) = find_free_total s in
    let lt = find_free_le (suc (length s)) 0 s {r = r} e in rw e (omega arith)
