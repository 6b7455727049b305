-- ===== src/Scrubber/Cut.antt =====
-- Where a text may be cut without changing what the masking of one secret gives.
use turboci.Prelude.{
  ℕ, zero, suc, ◌-◌, ◌≤◌, ◌≡◌, refl, true, false, Bool-cases, inl, inr, ◌⊎◌, [], ◌∷◌, ◌++◌, length,
  take, drop, arith, Bytes, append_assoc,
}
use turboci.Text.{starts_with, replace_from}
use turboci.Text.Search.{
  starts_with-append, starts_with-split, starts_with-take, starts_with-take_le,
}

-- The scan for `p` passes the position `b` bytes ahead between two matches, and at no position
-- before it is the rest of the text the beginning of a match that is not complete.
abbrev pub CutsAt : Bytes → ℕ → ℕ → Bytes → Type 0
CutsAt p zero skip t = skip ≡ 0
CutsAt p (suc b) skip [] = ⊥
CutsAt p (suc b) (suc k) (c ∷ t) = CutsAt p b k t
CutsAt p (suc b) zero (c ∷ t) =
    ((starts_with p (c ∷ t) ≡ true) × CutsAt p b (length p - 1) t)
    ⊎ ((starts_with p (c ∷ t) ≡ false) × (starts_with (c ∷ t) p ≡ false) × CutsAt p b zero t)

-- A match that the scan is inside of ends before the cut.
CutsAt-skip : (p : Bytes) (b k : ℕ) (t : Bytes) → CutsAt p b k t → k ≤ b
CutsAt-skip p zero k t h = omega arith
CutsAt-skip p (suc b) k [] h = absurd h
CutsAt-skip p (suc b) zero (c ∷ t) h = omega arith
CutsAt-skip p (suc b) (suc k) (c ∷ t) h = omega (arith, CutsAt-skip p b k t h)

-- A complete match before the cut is found in the text before it, and in the whole.
match_before :
    (p : Bytes) (b : ℕ) (c : ℕ) (t x : Bytes)
    → starts_with p (c ∷ t) ≡ true
    → length p - 1 ≤ b
    → (starts_with p (c ∷ t ++ x) ≡ true) × (starts_with p (c ∷ take b t) ≡ true)
match_before p b c t x h le =
    (starts_with-append p (c ∷ t) x h, starts_with-take_le p (c ∷ t) (suc b) h (omega arith))

-- No match is found in the text before the cut nor in the whole where the scan finds none.
no_match_before :
    (p : Bytes) (b : ℕ) (c : ℕ) (t x : Bytes)
    → starts_with p (c ∷ t) ≡ false
    → starts_with (c ∷ t) p ≡ false
    → (starts_with p (c ∷ t ++ x) ≡ false) × (starts_with p (c ∷ take b t) ≡ false)
no_match_before p b c t x h g = (whole, before)
  where
    whole : starts_with p (c ∷ t ++ x) ≡ false
    whole = elim (Bool-cases (starts_with p (c ∷ t ++ x))) [
      | inl e ↦ cc (h, starts_with-split p (c ∷ t) x e g)
      | inr e ↦ e
    ]

    before : starts_with p (c ∷ take b t) ≡ false
    before = elim (Bool-cases (starts_with p (c ∷ take b t))) [
      | inl e ↦ cc (h, starts_with-take p (c ∷ t) (suc b) e)
      | inr e ↦ e
    ]

pub replace_from_found :
    (p by : Bytes) (c : ℕ) (t : Bytes)
    → starts_with p (c ∷ t) ≡ true
    → replace_from p by 0 (c ∷ t) ≡ by ++ replace_from p by (length p - 1) t
unfolding replace_from
replace_from_found p by c t h = rw (h, replace_from)

pub replace_from_missing :
    (p by : Bytes) (c : ℕ) (t : Bytes)
    → starts_with p (c ∷ t) ≡ false
    → replace_from p by 0 (c ∷ t) ≡ c ∷ replace_from p by 0 t
unfolding replace_from
replace_from_missing p by c t h = rw (h, replace_from)

-- At such a cut the text before it is masked by itself, whatever follows.
pub replace_from-cut :
    (p by : Bytes) (b k : ℕ) (t x : Bytes)
    → CutsAt p b k t
    → replace_from p by k (t ++ x)
      ≡ replace_from p by k (take b t) ++ replace_from p by 0 (drop b t ++ x)
unfolding replace_from
replace_from-cut p by zero k t x h = rw h refl
replace_from-cut p by (suc b) k [] x h = absurd h
replace_from-cut p by (suc b) (suc k) (c ∷ t) x h = replace_from-cut p by b k t x h
replace_from-cut p by (suc b) zero (c ∷ t) x (inl (found, h)) =
    let (e, e') = match_before p b c t x found (CutsAt-skip p b _ t h) in
    cc (
      replace_from_found p by c (t ++ x) e,
      replace_from_found p by c (take b t) e',
      replace_from-cut p by b (length p - 1) t x h,
      append_assoc by (replace_from p by (length p - 1) (take b t))
          (replace_from p by 0 (drop b t ++ x)),
    )
replace_from-cut p by (suc b) zero (c ∷ t) x (inr (missing, partial, h)) =
    let (e, e') = no_match_before p b c t x missing partial in
    cc (
      replace_from_missing p by c (t ++ x) e,
      replace_from_missing p by c (take b t) e',
      replace_from-cut p by b 0 t x h,
    )
