-- ===== src/Scrubber/Pending.antt =====
-- What the stream scrubber of src/security/secret_scrubber.rs holds back, for every list of secrets
-- and every list of patterns.
use turboci.Prelude.{
  ℕ, zero, suc, ◌+◌, ◌-◌, ◌≤◌, ◌≡◌, refl, true, false, Bool-cases, Option-cases, inl, inr, List, [],
  ◌∷◌, ◌++◌, length, drop, take, arith, Bytes, ltb, length-drop,
}
use turboci.Text.{from_whitespace}
use turboci.Scrubber.{
  SecretScrubber, StreamScrubber, limit, max_length, secret_start, suffix_prefix_len, safe_boundary,
  match_ranges, growing_start, emit_at, ceil_boundary, advance, push, scrub, masked,
}

ceil_boundary-ge : (t : Bytes) (n b : ℕ) → b ≤ ceil_boundary t n b
unfolding ceil_boundary
ceil_boundary-ge t zero b = omega arith
ceil_boundary-ge t (suc n) b = ground (arith, ceil_boundary-ge t n (b + 1))

-- The three ways in which `push` ends.
advance_cases {ℓ} :
    (P : StreamScrubber × Bytes → Type ℓ) (r : SecretScrubber) (t : Bytes)
    → ((ltb (limit r) (length t - safe_boundary r t) ≡ false) → P (emit_at r t (safe_boundary r t)))
    → ((start : ℕ)
        → P (record { pending = []; swallowing = true }, scrub r (take start t) ++ masked))
    → ((ltb (limit r) (length t - safe_boundary r t) ≡ true)
        → P (emit_at r t (ceil_boundary t (limit r) (length t - limit r))))
    → P (advance r t)
unfolding advance
advance_cases P r t kept swallowed cut =
    elim (Bool-cases (ltb (limit r) (length t - safe_boundary r t))) [
      | inr e ↦ rw e (kept e)
      | inl e ↦ elim (Option-cases (growing_start (length t) (match_ranges r t))) [
        | inl none_grows ↦ rw (e, none_grows) (cut e)
        | inr (start, grows) ↦ rw (e, grows) (swallowed start)
      ]
    ]

pending-emit_at :
    (r : SecretScrubber) (t : Bytes) (b : ℕ)
    → (length (emit_at r t b).0.pending ≡ length t - b) × ((emit_at r t b).0.swallowing ≡ false)
unfolding emit_at
pending-emit_at r t b = (length-drop b t, refl)

advance-bounded : (r : SecretScrubber) (t : Bytes) → length (advance r t).0.pending ≤ limit r
advance-bounded r t =
    advance_cases (λ p. length p.0.pending ≤ limit r) r t
      (λ e. ground (arith, (pending-emit_at r t (safe_boundary r t)).0)) (λ start. omega arith)
      (λ e. omega (
        arith,
        (pending-emit_at r t (ceil_boundary t (limit r) (length t - limit r))).0,
        ceil_boundary-ge t (limit r) (length t - limit r),
      ))

-- If at most `limit` bytes are held back before a chunk, at most `limit` bytes are held back
-- after it, for every scrubber, however large the chunk and whatever matches.
pub push-bounded :
    (r : SecretScrubber) (st : StreamScrubber) (chunk : Bytes)
    → length st.pending ≤ limit r
    → length (push r st chunk).0.pending ≤ limit r
unfolding push
push-bounded r st chunk h = elim (Bool-cases st.swallowing) [
  | inr e ↦ rw e (advance-bounded r (st.pending ++ chunk))
  | inl e ↦ elim (Option-cases (from_whitespace chunk)) [
    | inl no_end ↦ rw (e, no_end) h
    | inr (rest, found) ↦ rw (e, found) (advance-bounded r (st.pending ++ rest))
  ]
]

pub suffix_prefix_len-secret_start :
    (before after : List Bytes) (s t : Bytes)
    → suffix_prefix_len t s ≤ secret_start (before ++ s ∷ after) t
unfolding secret_start
suffix_prefix_len-secret_start [] after s t = omega arith
suffix_prefix_len-secret_start (x ∷ before) after s t =
    omega (arith, suffix_prefix_len-secret_start before after s t)

pub length-max_length :
    (before after : List Bytes) (s : Bytes) → length s ≤ max_length (before ++ s ∷ after)
unfolding max_length
length-max_length [] after s = omega arith
length-max_length (x ∷ before) after s = omega (arith, length-max_length before after s)

-- The last `k` bytes of `t` at least are pending, and what is emitted is the text in front.
abbrev pub Held : SecretScrubber → Bytes → ℕ → StreamScrubber × Bytes → Type 0
Held r t k p = (n : ℕ) × (n + k ≤ length t) × (p.0.pending ≡ drop n t) × (p.1 ≡ scrub r (take n t))

-- The rest of `t` from some place on is masked and dropped.
abbrev pub Dropping : SecretScrubber → Bytes → StreamScrubber × Bytes → Type 0
Dropping r t p = (p.0.swallowing ≡ true) × ((n : ℕ) × (p.1 ≡ scrub r (take n t) ++ masked))
