-- ===== src/Scrubber/Streaming.antt =====
-- Scrubbing a stream chunk by chunk, in src/security/secret_scrubber.rs, against scrubbing the
-- whole text.
use turboci.Prelude.{
  ℕ, ◌-◌, ◌≤◌, ◌<◌, ◌≡◌, refl, sym, ap, subst, ◌∙◌, false, List, [], ◌∷◌, ◌++◌, All, length, take,
  drop, arith, Bytes, min, max, ltb, append_assoc, append-nil, take-append-drop,
}
use turboci.Text.{replace, match_indices}
use turboci.Scrubber.{
  SecretScrubber, StreamScrubber, masked, max_holdback, scrub, match_ranges, longest_secret,
  secret_start, suffix_prefix_len, token_run, floor_boundary, before_matches, limit, safe_boundary,
  advance, push, finish, emitted, new,
}
use turboci.Scrubber.Cut.{CutsAt, replace_from-cut}
use turboci.Scrubber.Boundary.{IsAscii, NoCross, no_partial, cuts_at}
use turboci.Scrubber.Matches.{
  Ascending, match_from-Ascending, before_matches-le, before_matches-NoCross, before_matches-near,
}
use turboci.Scrubber.Tokens.{held_boundary, secret_start-le, floor_boundary-le}
use turboci.Scrubber.Pending.{suffix_prefix_len-secret_start, length-max_length}

abbrev pub concat : List Bytes → Bytes
concat [] = []
concat (c ∷ cs) = c ++ concat cs

-- In no piece of the text does the scrubber find or mask anything but the secret `s`: no pattern and
-- no other secret matches there, nor where the secret is masked.
abbrev pub Alone : SecretScrubber → Bytes → Bytes → Type 0
Alone r s text =
    (x t y : Bytes)
    → x ++ (t ++ y) ≡ text
    → (match_ranges r t ≡ match_indices s t) × (scrub r t ≡ replace s masked t)

IsAscii-of : (before after : List Bytes) (s : Bytes) → All IsAscii (before ++ s ∷ after) → IsAscii s
IsAscii-of [] after s h = h.0
IsAscii-of (x ∷ before) after s h = IsAscii-of before after s h.1

module _ (r : SecretScrubber) (before after : List Bytes) (s text : Bytes)
    (known : r.secrets ≡ before ++ s ∷ after) (all_ascii : All IsAscii r.secrets)
    (long : 4 < length s) (short : longest_secret r ≤ 8192) (alone : Alone r s text) where
  abbrev Part : Bytes → Type 0
  Part t = (x : Bytes) × (y : Bytes) × (x ++ (t ++ y) ≡ text)

  ascii : IsAscii s
  ascii = IsAscii-of before after s (subst (All IsAscii) known all_ascii)

  -- Where `push` starts from, before it looks at the matches.
  abbrev held : Bytes → ℕ
  held t = max (secret_start r.secrets t) (min (token_run t) max_holdback)

  start_held : (t : Bytes) → suffix_prefix_len t s ≤ held t
  start_held t = rw known (omega (arith, suffix_prefix_len-secret_start before after s t))

  safe_boundary-alone :
      (t : Bytes)
      → Part t
      → safe_boundary r t
        ≡ before_matches (length t) (match_indices s t) (floor_boundary t (length t - held t))
  unfolding safe_boundary
  safe_boundary-alone t part = rw ((alone part.0 t part.1 part.2).0) refl

  match_indices-Ascending : (t : Bytes) → Ascending (length s) 0 (match_indices s t)
  unfolding match_indices
  match_indices-Ascending t = match_from-Ascending s 0 0 t (omega arith)

  safe_boundary-NoCross : (t : Bytes) → Part t → NoCross (safe_boundary r t) (match_indices s t)
  safe_boundary-NoCross t part = rw (safe_boundary-alone t part) (
      before_matches-NoCross (length s) (length t) (omega arith) 0 _ (match_indices s t)
        (match_indices-Ascending t))

  safe_boundary-le : (t : Bytes) → Part t → safe_boundary r t ≤ length t - held t
  safe_boundary-le t part = omega (
    arith,
    safe_boundary-alone t part,
    before_matches-le (length s) (length t) (omega arith) (match_indices s t)
        (floor_boundary t (length t - held t)),
    floor_boundary-le t (length t - held t),
  )

  -- The boundary is one that the masking of the whole text may be cut at.
  safe_boundary-CutsAt : (t : Bytes) → Part t → CutsAt s (safe_boundary r t) 0 t
  unfolding match_indices
  safe_boundary-CutsAt t part =
      let b = safe_boundary r t in
      cuts_at s b 0 b 0 t (omega arith) (omega (arith, safe_boundary-le t part)) (omega arith)
        (safe_boundary-NoCross t part)
        (no_partial t s b 0 t ascii refl (omega (arith, safe_boundary-le t part, start_held t)))

  -- It never holds back more than the limit allows.
  safe_boundary-limit : (t : Bytes) → Part t → ltb (limit r) (length t - safe_boundary r t) ≡ false
  unfolding limit longest_secret
  safe_boundary-limit t part =
      let size : length s ≤ longest_secret r = rw known (length-max_length before after s) in
      ground (
        arith,
        size,
        safe_boundary-alone t part,
        before_matches-near (length s) (length t) (omega arith) 0
            (floor_boundary t (length t - held t)) (match_indices s t) (match_indices-Ascending t)
            (omega (arith, floor_boundary-le t (length t - held t))),
        held_boundary t r.secrets max_holdback all_ascii,
        secret_start-le t r.secrets,
      )

  regroup :
      (x t y : Bytes) (b : ℕ) → x ++ (t ++ y) ≡ text → x ++ (take b t ++ (drop b t ++ y)) ≡ text
  regroup x t y b e =
      ap (◌++◌ x) (
        sym (append_assoc (take b t) (drop b t) y)
        ∙ ap (λ (l : Bytes). l ++ y) (take-append-drop b t))
      ∙ e

  advance-alone :
      (t : Bytes)
      → Part t
      → advance r t ≡ (
        record { pending = drop (safe_boundary r t) t; swallowing = false },
        replace s masked (take (safe_boundary r t) t),
      )
  unfolding advance
  advance-alone t part =
      let b = safe_boundary r t in
      let masks =
        (alone part.0 (take b t) (drop b t ++ part.1) (regroup part.0 t part.1 b part.2)).1 in
      rw (safe_boundary-limit t part) (rw masks refl)

  -- What is emitted and what is still pending mask together as the whole, whatever follows.
  advance_masks :
      (t x : Bytes)
      → Part t
      → (advance r t).1 ++ replace s masked ((advance r t).0.pending ++ x)
        ≡ replace s masked (t ++ x)
  unfolding replace
  advance_masks t x part =
      rw (advance-alone t part)
        (sym (replace_from-cut s masked (safe_boundary r t) 0 t x (safe_boundary-CutsAt t part)))

  push-alone :
      (st : StreamScrubber) (c : Bytes)
      → st.swallowing ≡ false
      → push r st c ≡ advance r (st.pending ++ c)
  unfolding push
  push-alone st c h = rw h refl

  emitted-alone :
      (st : StreamScrubber) (cs : List Bytes) (past : Bytes)
      → st.swallowing ≡ false
      → past ++ (st.pending ++ concat cs) ≡ text
      → emitted r st cs ≡ replace s masked (st.pending ++ concat cs)
  unfolding emitted push finish
  emitted-alone st [] past h e =
      (alone past st.pending [] e).1 ∙ ap (replace s masked) (sym (append-nil st.pending))
  emitted-alone st (c ∷ cs) past h e =
      let t = st.pending ++ c in
      let b = safe_boundary r t in
      let whole = ap (◌++◌ past) (append_assoc st.pending c (concat cs)) ∙ e in
      let part : Part t = (past, concat cs, whole) in
      let next = push-alone st c h in
      let cut = next ∙ advance-alone t part in
      let pend : (push r st c).0.pending ≡ drop b t = ap (λ p. p.0.pending) cut in
      let rest =
        emitted-alone (push r st c).0 cs (past ++ take b t) (ap (λ p. p.0.swallowing) cut) (
          ap (λ (l : Bytes). (past ++ take b t) ++ (l ++ concat cs)) pend
          ∙ (append_assoc past (take b t) (drop b t ++ concat cs)
              ∙ regroup past t (concat cs) b whole)) in
      cc (rest, next, advance_masks t (concat cs) part, append_assoc st.pending c (concat cs))

-- For a scrubber whose secrets are ASCII and at most 8192 bytes long, one of its secrets, of more
-- than 4 bytes, and a text in which the scrubber finds and masks nothing else: a stream in chunks,
-- however it is cut, comes out as its whole text comes out of `scrub`, so nothing is lost, and the
-- secret is masked also where it is split over chunks. The scrubber may have any patterns and other
-- secrets.
pub streaming :
    (r : SecretScrubber) (before after : List Bytes) (s : Bytes) (cs : List Bytes)
    → r.secrets ≡ before ++ s ∷ after
    → All IsAscii r.secrets
    → 4 < length s
    → longest_secret r ≤ 8192
    → Alone r s (concat cs)
    → emitted r new cs ≡ scrub r (concat cs)
streaming r before after s cs known ascii long short alone =
    emitted-alone r before after s (concat cs) known ascii long short alone new cs [] refl refl
    ∙ sym (alone [] (concat cs) [] (append-nil (concat cs))).1
