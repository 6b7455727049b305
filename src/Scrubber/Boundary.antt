-- ===== src/Scrubber/Boundary.antt =====
-- The boundary that `push` of src/security/secret_scrubber.rs chooses, for one secret: it cuts no
-- match and leaves no start of one behind it.
use turboci.Prelude.{
  ℕ, zero, suc, ◌+◌, ◌-◌, ◌≤◌, ◌<◌, ◌≡◌, refl, true, false, Bool-cases, inl, inr, ◌⊎◌, List, [],
  ◌∷◌, length, take, drop, arith, Bytes, ltb, ◌==◌, ap, subst, length-drop, All,
}
use turboci.Text.{
  starts_with, ends_with, is_char_boundary, boundary_head, match_from, is_continuation,
}
use turboci.Text.Search.{starts_with→take}
use turboci.Text.Slices.{bytes_eq_refl, All-drop, drop-suc}
use turboci.Scrubber.{longest_prefix, suffix_prefix_len}
use turboci.Scrubber.Cut.{CutsAt}

abbrev pub IsAscii : Bytes → Type 0
IsAscii = All (λ c. c < 0x80)

-- In ASCII text every position is a character boundary.
pub ascii_head : (t : Bytes) → IsAscii t → boundary_head t ≡ true
unfolding boundary_head is_continuation
ascii_head [] h = refl
ascii_head (c ∷ t) h = ground arith

pub ascii_boundary : (t : Bytes) (i : ℕ) → IsAscii t → i ≤ length t → is_char_boundary t i ≡ true
unfolding is_char_boundary
ascii_boundary t i h le = ground (arith, ascii_head (drop i t) (All-drop _ i t h))

pub longest_prefix-le : (n : ℕ) (t s : Bytes) → longest_prefix n t s ≤ n
unfolding longest_prefix
longest_prefix-le zero t s = omega arith
longest_prefix-le (suc n) t s = ground (arith, longest_prefix-le n t s)

pub longest_prefix-ge :
    (n k : ℕ) (t s : Bytes)
    → 0 < k
    → k ≤ n
    → is_char_boundary s k ≡ true
    → ends_with (take k s) t ≡ true
    → k ≤ longest_prefix n t s
unfolding longest_prefix
longest_prefix-ge zero k t s pos le hb he = absurd (omega arith)
longest_prefix-ge (suc n) k t s pos le hb he = elim (Bool-cases (k == suc n)) [
  | inl e ↦ let e' : k ≡ suc n = ground arith in ground arith
  | inr e ↦ ground (arith, longest_prefix-ge n k t s pos (ground arith) hb he)
]

-- The rest of the text from `i` on, if it begins the secret and is shorter, is one of the starts
-- that `suffix_prefix_len` looks for.
ends_with-drop :
    (t s : Bytes) (i : ℕ)
    → i ≤ length t
    → starts_with (drop i t) s ≡ true
    → ends_with (take (length t - i) s) t ≡ true
unfolding ends_with
ends_with-drop t s i le h =
    let size = length-drop i t in
    let e : take (length t - i) s ≡ drop i t = ground (arith, starts_with→take (drop i t) s h) in
    let e' : length t - (length t - i) ≡ i = omega arith in
    rw e (ground (arith, bytes_eq_refl (drop i t)))

partial_start :
    (t s : Bytes) (i : ℕ)
    → IsAscii s
    → i < length t
    → length (drop i t) < length s
    → starts_with (drop i t) s ≡ true
    → length t - i ≤ suffix_prefix_len t s
unfolding suffix_prefix_len
partial_start t s i ascii lt short h =
    let size = length-drop i t in
    longest_prefix-ge (length s - 1) (length t - i) t s (omega arith) (omega arith)
      (ascii_boundary s (length t - i) ascii (omega arith)) (ends_with-drop t s i (omega arith) h)

-- No position among the next `d` ones starts a match that the text leaves incomplete.
abbrev pub NoPartial : Bytes → ℕ → Bytes → Type 0
NoPartial s zero t = Unit
NoPartial s (suc d) [] = Unit
NoPartial s (suc d) (c ∷ t) =
    (length (c ∷ t) < length s → starts_with (c ∷ t) s ≡ false) × NoPartial s d t

pub no_partial :
    (w s : Bytes) (d i : ℕ) (t : Bytes)
    → IsAscii s
    → drop i w ≡ t
    → i + d ≤ length w - suffix_prefix_len w s
    → NoPartial s d t
no_partial w s zero i t ascii e le = tt
no_partial w s (suc d) i [] ascii e le = tt
no_partial w s (suc d) i (c ∷ t) ascii e le =
    (now, no_partial w s d (suc i) t ascii (drop-suc i w c t e) (omega arith))
  where
    now : length (c ∷ t) < length s → starts_with (c ∷ t) s ≡ false
    now short = elim (Bool-cases (starts_with (c ∷ t) s)) [
      | inl h ↦ absurd (
          omega (
            arith,
            length-drop i w,
            ap length e,
            partial_start w s i ascii (omega (arith, length-drop i w, ap length e)) (rw e short)
                (rw e h),
          ))
      | inr h ↦ h
    ]

-- No match of the list lies on both sides of `b`.
abbrev pub NoCross : ℕ → List (ℕ × ℕ) → Type 0
NoCross b = All (λ (m : ℕ × ℕ). (m.1 ≤ b) ⊎ (b ≤ m.0))

-- A text that is as long as the secret and begins it is the secret.
starts_with_whole :
    (s t : Bytes) → starts_with t s ≡ true → length s ≤ length t → starts_with s t ≡ true
starts_with_whole [] t h le = refl
starts_with_whole (a ∷ s) [] h le = absurd (omega arith)
starts_with_whole (a ∷ s) (c ∷ t) h le = ground (arith, starts_with_whole s t)

match_from_found :
    (s : Bytes) (pos c : ℕ) (t : Bytes)
    → starts_with s (c ∷ t) ≡ true
    → match_from s pos 0 (c ∷ t) ≡ (pos, pos + length s) ∷ match_from s (pos + 1) (length s - 1) t
unfolding match_from
match_from_found s pos c t h = rw (h, match_from)

match_from_missing :
    (s : Bytes) (pos c : ℕ) (t : Bytes)
    → starts_with s (c ∷ t) ≡ false
    → match_from s pos 0 (c ∷ t) ≡ match_from s (pos + 1) 0 t
unfolding match_from
match_from_missing s pos c t h = rw (h, match_from)

-- A position that no match crosses and no incomplete match reaches is one to cut at.
pub cuts_at :
    (s : Bytes) (d pos b k : ℕ) (t : Bytes)
    → pos + d ≡ b
    → d ≤ length t
    → k ≤ d
    → NoCross b (match_from s pos k t)
    → NoPartial s d t
    → CutsAt s d k t
cuts_at s zero pos b k t eq le in_match cross partial = omega arith
cuts_at s (suc d) pos b k [] eq le in_match cross partial = absurd (omega arith)
cuts_at s (suc d) pos b (suc k) (c ∷ t) eq le in_match cross partial =
    cuts_at s d (pos + 1) b k t (omega arith) (omega arith) (omega arith)
      (unfold match_from in cross) partial.1
cuts_at s (suc d) pos b zero (c ∷ t) eq le in_match cross partial =
    elim (Bool-cases (starts_with s (c ∷ t))) [
      | inl h ↦
          let cross' : NoCross b ((pos, pos + length s) ∷ match_from s (pos + 1) (length s - 1) t) =
            subst (NoCross b) (match_from_found s pos c t h) cross in
          inl (
            h,
            cuts_at s d (pos + 1) b (length s - 1) t (omega arith) (omega arith)
                (omega (arith, cross'.0)) cross'.1 partial.1,
          )
      | inr h ↦
          let cross' : NoCross b (match_from s (pos + 1) 0 t) =
            subst (NoCross b) (match_from_missing s pos c t h) cross in
          inr (
            h,
            not_partial h,
            cuts_at s d (pos + 1) b 0 t (omega arith) (omega arith) (omega arith) cross' partial.1,
          )
    ]
  where
    not_partial : starts_with s (c ∷ t) ≡ false → starts_with (c ∷ t) s ≡ false
    not_partial h = elim (Bool-cases (starts_with (c ∷ t) s)) [
      | inl g ↦ elim (Bool-cases (ltb (length (c ∷ t)) (length s))) [
        | inl short ↦ partial.0 (ground arith)
        | inr long ↦ cc (h, starts_with_whole s (c ∷ t) g (ground arith))
      ]
      | inr g ↦ g
    ]
