-- ===== src/Scrubber/Tokens.antt =====
-- The first boundary of `push`, before the matches are looked at, is a character boundary: the loop
-- that lowers it does nothing when the secret is ASCII.
use mathlib.Core.List.{reverse, reverse-cons, reverse-append, reverse-reverse}
use turboci.Prelude.{
  ℕ, zero, suc, ◌+◌, ◌-◌, ◌≤◌, ◌<◌, ◌≡◌, refl, sym, subst, ap, ◌∙◌, true, Bool-cases, inl, inr, [],
  ◌∷◌, ◌++◌, length, take, drop, arith, Bytes, min, max, ◌&&◌, leb, length-take, length-drop,
  length-append, List, All, All-append, take-append-drop,
}
use turboci.Text.{ends_with, is_char_boundary}
use turboci.Text.Slices.{bytes_eq→eq, drop-append}
use turboci.Scrubber.{
  secret_start, max_length, longest_prefix, suffix_prefix_len, floor_boundary, is_token_char,
  take_tokens, token_run,
}
use turboci.Scrubber.Boundary.{IsAscii, ascii_head, longest_prefix-le}

pub IsAscii-take : (k : ℕ) (t : Bytes) → IsAscii t → IsAscii (take k t)
IsAscii-take zero t h = tt
IsAscii-take (suc k) [] h = tt
IsAscii-take (suc k) (c ∷ t) h = (h.0, IsAscii-take k t h.1)

length-reverse : (t : Bytes) → length (reverse t) ≡ length t
length-reverse [] = refl
length-reverse (c ∷ t) =
    omega
      (arith, ap length (reverse-cons c t), length-append (reverse t) (c ∷ []), length-reverse t)

IsAscii-reverse : (t : Bytes) → IsAscii t → IsAscii (reverse t)
IsAscii-reverse [] h = tt
IsAscii-reverse (c ∷ t) h =
    rw (reverse-cons c t) (All-append _ (reverse t) (c ∷ []) (IsAscii-reverse t h.1) (h.0, tt))

-- The last `k` bytes, read backwards.
drop-reverse :
    (k : ℕ) (t : Bytes) → k ≤ length t → drop (length t - k) t ≡ reverse (take k (reverse t))
drop-reverse k t le =
    subst (λ (n : ℕ). drop n t ≡ reverse (take k r)) size
      (ap (drop (length (reverse (drop k r)) + 0)) whole
        ∙ drop-append 0 (reverse (drop k r)) (reverse (take k r)))
  where
    r : Bytes
    r = reverse t

    whole : t ≡ reverse (drop k r) ++ reverse (take k r)
    whole =
        sym (reverse-reverse t)
        ∙ (ap reverse (sym (take-append-drop k r)) ∙ reverse-append (take k r) (drop k r))

    size : length (reverse (drop k r)) + 0 ≡ length t - k
    size = omega (arith, length-reverse (drop k r), length-drop k r, length-reverse t)

is_token_char-ascii : (c : ℕ) → is_token_char c ≡ true → c < 0x80
unfolding is_token_char
is_token_char-ascii c h = ground arith

take_tokens-IsAscii : (k : ℕ) (t : Bytes) → k ≤ take_tokens t → IsAscii (take k t)
unfolding take_tokens
take_tokens-IsAscii zero t le = tt
take_tokens-IsAscii (suc k) [] le = tt
take_tokens-IsAscii (suc k) (c ∷ t) le = elim (Bool-cases (is_token_char c)) [
  | inl h ↦ (is_token_char-ascii c h, take_tokens-IsAscii k t (ground arith))
  | inr h ↦ absurd (ground arith)
]

take_tokens-le : (t : Bytes) → take_tokens t ≤ length t
unfolding take_tokens
take_tokens-le [] = omega arith
take_tokens-le (c ∷ t) = ground (arith, take_tokens-le t)

pub token_run-le : (t : Bytes) → token_run t ≤ length t
unfolding token_run
token_run-le t = omega (arith, take_tokens-le (reverse t), length-reverse t)

token_run-IsAscii : (k : ℕ) (t : Bytes) → k ≤ token_run t → IsAscii (drop (length t - k) t)
unfolding token_run
token_run-IsAscii k t le =
    rw (drop-reverse k t (omega (arith, take_tokens-le (reverse t), length-reverse t)))
      (IsAscii-reverse (take k (reverse t)) (take_tokens-IsAscii k (reverse t) le))

longest_prefix_sound :
    (n : ℕ) (t s : Bytes)
    → 0 < longest_prefix n t s
    → ends_with (take (longest_prefix n t s) s) t ≡ true
unfolding longest_prefix
longest_prefix_sound zero t s h = absurd (omega arith)
longest_prefix_sound (suc n) t s h =
    elim (Bool-cases (is_char_boundary s (suc n) && ends_with (take (suc n) s) t)) [
      | inl e ↦ rw e (ground arith)
      | inr e ↦ rw e (longest_prefix_sound n t s (ground arith))
    ]

pub suffix_prefix_len-lt : (t s : Bytes) → 0 < length s → suffix_prefix_len t s < length s
unfolding suffix_prefix_len
suffix_prefix_len-lt t s h = omega (arith, longest_prefix-le (length s - 1) t s)

-- The start of a secret that the text ends with: its length, and that it is ASCII.
suffix-IsAscii :
    (t s : Bytes)
    → IsAscii s
    → 0 < suffix_prefix_len t s
    → (suffix_prefix_len t s ≤ length t) × IsAscii (drop (length t - suffix_prefix_len t s) t)
unfolding suffix_prefix_len ends_with
suffix-IsAscii t s ascii h =
    let k = suffix_prefix_len t s in
    let found = longest_prefix_sound (length s - 1) t s h in
    let size = length-take k s in
    let short = longest_prefix-le (length s - 1) t s in
    let e : length (take k s) ≡ k = omega arith in
    let fits : leb (length (take k s)) (length t) ≡ true = ground arith in
    let same : drop (length t - length (take k s)) t ≡ take k s = bytes_eq→eq _ _ (ground arith) in
    (
      ground arith,
      subst IsAscii (sym same ∙ ap (λ (n : ℕ). drop (length t - n) t) e) (IsAscii-take k s ascii),
    )

pub ascii_at : (t : Bytes) (i : ℕ) → i ≤ length t → IsAscii (drop i t) → is_char_boundary t i ≡ true
unfolding is_char_boundary
ascii_at t i le h = ground (arith, ascii_head (drop i t) h)

floor_boundary_stays : (t : Bytes) (b : ℕ) → is_char_boundary t b ≡ true → floor_boundary t b ≡ b
unfolding floor_boundary
floor_boundary_stays t zero h = refl
floor_boundary_stays t (suc b) h = rw h

pub floor_boundary-le : (t : Bytes) (b : ℕ) → floor_boundary t b ≤ b
unfolding floor_boundary
floor_boundary-le t zero = omega arith
floor_boundary-le t (suc b) = ground (arith, floor_boundary-le t b)

secret_start-at :
    (t : Bytes) (ss : List Bytes)
    → All IsAscii ss
    → 0 < secret_start ss t
    → is_char_boundary t (length t - secret_start ss t) ≡ true
unfolding secret_start
secret_start-at t [] ascii pos = absurd (omega arith)
secret_start-at t (s ∷ ss) ascii pos =
    elim (Bool-cases (leb (secret_start ss t) (suffix_prefix_len t s))) [
      | inl first ↦
          let e : max (suffix_prefix_len t s) (secret_start ss t) ≡ suffix_prefix_len t s =
            ground arith in
          rw e (ascii_at t _ (omega arith) (suffix-IsAscii t s ascii.0 (omega (arith, e, pos))).1)
      | inr later ↦
          let e : max (suffix_prefix_len t s) (secret_start ss t) ≡ secret_start ss t =
            ground arith in
          rw e (secret_start-at t ss ascii.1 (omega (arith, e, pos)))
    ]

pub secret_start-le : (t : Bytes) (ss : List Bytes) → secret_start ss t ≤ max_length ss
unfolding secret_start max_length suffix_prefix_len
secret_start-le t [] = omega arith
secret_start-le t (s ∷ ss) =
    omega (arith, longest_prefix-le (length s - 1) t s, secret_start-le t ss)

-- The boundary before the matches is where the held back suffix starts.
pub held_boundary :
    (t : Bytes) (ss : List Bytes) (hold : ℕ)
    → All IsAscii ss
    → let k = max (secret_start ss t) (min (token_run t) hold) in
      floor_boundary t (length t - k) ≡ length t - k
held_boundary t ss hold ascii = floor_boundary_stays t _ (boundary k refl)
  where
    k : ℕ
    k = max (secret_start ss t) (min (token_run t) hold)

    boundary : (n : ℕ) → k ≡ n → is_char_boundary t (length t - n) ≡ true
    boundary n e = elim (Bool-cases (leb n (token_run t))) [
      | inl in_run ↦ ascii_at t _ (omega arith) (token_run-IsAscii n t (ground arith))
      | inr beyond ↦
          let big : n ≡ secret_start ss t = ground arith in
          rw big (secret_start-at t ss ascii (ground arith))
    ]
