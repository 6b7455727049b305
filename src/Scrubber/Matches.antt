-- ===== src/Scrubber/Matches.antt =====
-- The matches of one secret follow one another, and the loop of `push` over them.
use turboci.Prelude.{
  ℕ, zero, suc, ◌+◌, ◌-◌, ◌≤◌, ◌<◌, ◌≡◌, refl, Bool-cases, inl, inr, List, [], ◌∷◌, length, arith,
  Bytes,
}
use turboci.Text.{starts_with, match_from}
use turboci.Scrubber.{before_matches}
use turboci.Scrubber.Boundary.{NoCross}

-- Matches of `size` bytes from `e` on, one after the other.
abbrev pub Ascending : ℕ → ℕ → List (ℕ × ℕ) → Type 0
Ascending size e [] = Unit
Ascending size e ((start, end) ∷ ms) = (e ≤ start) × (end ≡ start + size) × Ascending size end ms

Ascending-weaken :
    (size e e' : ℕ) (ms : List (ℕ × ℕ)) → e' ≤ e → Ascending size e ms → Ascending size e' ms
Ascending-weaken size e e' [] le a = tt
Ascending-weaken size e e' ((start, end) ∷ ms) le a = (omega arith, a.1, a.2)

pub match_from-Ascending :
    (s : Bytes) (pos k : ℕ) (t : Bytes)
    → 0 < length s
    → Ascending (length s) (pos + k) (match_from s pos k t)
unfolding match_from
match_from-Ascending s pos k [] h = tt
match_from-Ascending s pos (suc k) (c ∷ t) h =
    let e : pos + 1 + k ≡ pos + suc k = omega arith in
    rw (← e) (match_from-Ascending s (pos + 1) k t h)
match_from-Ascending s pos zero (c ∷ t) h = elim (Bool-cases (starts_with s (c ∷ t))) [
  | inl found ↦
      let e : pos + 1 + (length s - 1) ≡ pos + length s = omega arith in
      rw (found, match_from)
        (omega arith, refl, rw (← e) (match_from-Ascending s (pos + 1) (length s - 1) t h))
  | inr missing ↦
      rw (missing, match_from)
        (Ascending-weaken (length s) (pos + 1 + 0) (pos + 0) _ (omega arith)
          (match_from-Ascending s (pos + 1) 0 t h))
]

module _ (size len : ℕ) (pos : 0 < size) where
  NoCross-before : (e b : ℕ) (ms : List (ℕ × ℕ)) → Ascending size e ms → b ≤ e → NoCross b ms
  NoCross-before e b [] a le = tt
  NoCross-before e b ((start, end) ∷ ms) a le =
      (inr (omega arith), NoCross-before end b ms a.2 (omega arith))

  pub before_matches-le : (ms : List (ℕ × ℕ)) (b : ℕ) → before_matches len ms b ≤ b
  unfolding before_matches
  before_matches-le [] b = omega arith
  before_matches-le ((start, end) ∷ ms) b =
      ground (arith, before_matches-le ms b, before_matches-le ms start)

  before_matches_stays :
      (e b : ℕ) (ms : List (ℕ × ℕ)) → Ascending size e ms → b ≤ e → before_matches len ms b ≡ b
  unfolding before_matches
  before_matches_stays e b [] a le = refl
  before_matches_stays e b ((start, end) ∷ ms) a le =
      ground (arith, before_matches_stays end b ms a.2 (omega arith))

  before_matches-ge :
      (e b : ℕ) (ms : List (ℕ × ℕ)) → Ascending size e ms → e ≤ b → e ≤ before_matches len ms b
  unfolding before_matches
  before_matches-ge e b [] a le = le
  before_matches-ge e b ((start, end) ∷ ms) a le = ground (
    arith,
    before_matches_stays end start ms a.2 (omega arith),
    before_matches-ge e b ms (Ascending-weaken size end e ms (omega arith) a.2) le,
  )

  pub before_matches-NoCross :
      (e b : ℕ) (ms : List (ℕ × ℕ)) → Ascending size e ms → NoCross (before_matches len ms b) ms
  unfolding before_matches
  before_matches-NoCross e b [] a = tt
  before_matches-NoCross e b ((start, end) ∷ ms) a = (
    ground (
      arith,
      before_matches_stays end start ms a.2 (omega arith),
      before_matches-ge end b ms a.2,
      before_matches-le ms b,
    ),
    before_matches-NoCross end _ ms a.2,
  )

  pub before_matches-near :
      (e b : ℕ) (ms : List (ℕ × ℕ))
      → Ascending size e ms
      → b ≤ len
      → b ≤ before_matches len ms b + size
  unfolding before_matches
  before_matches-near e b [] a le = omega arith
  before_matches-near e b ((start, end) ∷ ms) a le = ground (
    arith,
    before_matches-near end b ms a.2 le,
    before_matches_stays end start ms a.2 (omega arith),
  )
