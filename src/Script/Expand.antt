-- ===== src/Script/Expand.antt =====
-- The expansion of variables of src/runner_daemon/script.rs.
use turboci.Prelude.{
  ℕ, zero, suc, ◌≤◌, ◌<◌, ◌≡◌, refl, sym, ap, ◌∙◌, false, Bool-cases, Option-cases, inl, inr, ◌==◌,
  if◌then◌else◌, [], ◌∷◌, ◌++◌, length, length-drop, arith, Option, none, some, Bytes,
}
use turboci.Text.{split_once}
use turboci.Script.{
  Values, is_valid_key, name_length, expand_braced, expand_name, expand_step, expand_loop, expand,
}

split_once-length :
    (c : ℕ) (t before after : Bytes)
    → split_once c t ≡ some (before, after)
    → length after < length t
unfolding split_once
split_once-length c [] before after h = absurd cc
split_once-length c (b ∷ t) before after h = elim (Bool-cases (b == c)) [
  | inl here ↦ ground (arith, h, here)
  | inr later ↦ elim (Option-cases (split_once c t)) [
    | inl missing ↦ absurd (ground (arith, h, later, missing))
    | inr ((before', after'), found) ↦
        ground (arith, h, later, found, split_once-length c t before' after' found)
  ]
]

expand_braced-length :
    (values : Values) (t : Bytes) → length (expand_braced values t).1 ≤ suc (length t)
unfolding expand_braced
expand_braced-length values t = elim (Option-cases (split_once b'}' t)) [
  | inl missing ↦ rw (missing, expand_braced) (omega arith)
  | inr ((name, rest), found) ↦
      let less = split_once-length b'}' t name rest found in
      elim (Bool-cases (is_valid_key name)) [
        | inl valid ↦ rw (found, valid, expand_braced) (omega (arith, less))
        | inr invalid ↦ rw (found, invalid, expand_braced) (omega arith)
      ]
]

expand_name-length : (values : Values) (t : Bytes) → length (expand_name values t).1 ≤ length t
unfolding expand_name
expand_name-length values t = omega (arith, length-drop (name_length t) t)

expand_step-length : (values : Values) (t : Bytes) → length (expand_step values t).1 ≤ length t
unfolding expand_step
expand_step-length values [] = expand_name-length values []
expand_step-length values (c ∷ t) = elim (Bool-cases (c == b'$')) [
  | inl dollar ↦ rw dollar (omega arith)
  | inr other ↦ elim (Bool-cases (c == b'{')) [
    | inl brace ↦ rw (other, brace) (expand_braced-length values t)
    | inr name ↦ rw (other, name) (expand_name-length values (c ∷ t))
  ]
]

expand_loop-enough :
    (n m : ℕ) (values : Values) (t : Bytes)
    → length t ≤ n
    → length t ≤ m
    → expand_loop n values t ≡ expand_loop m values t
unfolding expand_loop split_once
expand_loop-enough zero zero values t h k = refl
expand_loop-enough zero (suc m) values [] h k = refl
expand_loop-enough zero (suc m) values (c ∷ t) h k = absurd (omega arith)
expand_loop-enough (suc n) zero values [] h k = refl
expand_loop-enough (suc n) zero values (c ∷ t) h k = absurd (omega arith)
expand_loop-enough (suc n) (suc m) values t h k = elim (Option-cases (split_once b'$' t)) [
  | inl missing ↦ rw (missing, expand_loop) refl
  | inr ((before, after), found) ↦
      let less = split_once-length b'$' t before after found in
      let left = expand_step-length values after in
      rw (found, expand_loop)
        (ap (λ (r : Bytes). before ++ ((expand_step values after).0 ++ r))
          (expand_loop-enough n m values (expand_step values after).1 (omega (arith, less, left, h))
            (omega (arith, less, left, k))))
]

-- However many rounds are allowed beyond the length of the text, the loop gives the same: its
-- length is enough rounds to come to the end.
pub expand_loop-fuel :
    (n : ℕ) (values : Values) (t : Bytes) → length t ≤ n → expand_loop n values t ≡ expand t values
unfolding expand
expand_loop-fuel n values t h = expand_loop-enough n (length t) values t h (omega arith)

-- Every `$` doubled.
abbrev pub escape : Bytes → Bytes
escape [] = []
escape (c ∷ t) = if c == b'$' then b'$' ∷ b'$' ∷ escape t else c ∷ escape t

loop_missing :
    (n : ℕ) (values : Values) (t : Bytes)
    → split_once b'$' t ≡ none
    → expand_loop (suc n) values t ≡ t
unfolding expand_loop
loop_missing n values t h = rw (h, expand_loop) refl

loop_found :
    (n : ℕ) (values : Values) (t before after : Bytes)
    → split_once b'$' t ≡ some (before, after)
    → expand_loop (suc n) values t
      ≡ before
        ++ ((expand_step values after).0 ++ expand_loop n values (expand_step values after).1)
unfolding expand_loop
loop_found n values t before after h = rw (h, expand_loop) refl

-- On a text with a `$`, `expand` does what a round of the source's loop does and goes on with what the round leaves, which is shorter than the text: the loop ends, and no bound
-- cuts it short.
pub expand_round :
    (values : Values) (t before after : Bytes)
    → split_once b'$' t ≡ some (before, after)
    → let (out, rest) = expand_step values after in
      (expand t values ≡ before ++ (out ++ expand rest values)) × (length rest < length t)
unfolding expand
expand_round values t before after found =
    let less = split_once-length b'$' t before after found in
    let left = expand_step-length values after in
    let rest = (expand_step values after).1 in
    (
      expand_loop-enough (length t) (suc (length t)) values t (omega arith) (omega arith)
          ∙ (loop_found (length t) values t before after found
              ∙ ap (λ (r : Bytes). before ++ ((expand_step values after).0 ++ r))
                  (expand_loop-enough (length t) (length rest) values rest
                    (omega (arith, less, left)) (omega arith))),
      omega (arith, less, left),
    )

split_once-other :
    (c d : ℕ) (t : Bytes)
    → (c == d) ≡ false
    → split_once d (c ∷ t) ≡ elim (split_once d t) as (λ x. Option (Bytes × Bytes)) [
      | none ↦ none
      | some (before, after) ↦ some (c ∷ before, after)
    ]
unfolding split_once
split_once-other c d t h = rw (h, split_once) refl

expand_loop-other :
    (n c : ℕ) (values : Values) (t : Bytes)
    → (c == b'$') ≡ false
    → expand_loop n values (c ∷ t) ≡ c ∷ expand_loop n values t
unfolding expand_loop
expand_loop-other zero c values t h = refl
expand_loop-other (suc n) c values t h = elim (Option-cases (split_once b'$' t)) [
  | inl missing ↦
      loop_missing n values (c ∷ t) (split_once-other c b'$' t h ∙ rw missing refl)
      ∙ ap (◌∷◌ c) (sym (loop_missing n values t missing))
  | inr ((before, after), found) ↦
      loop_found n values (c ∷ t) (c ∷ before) after (split_once-other c b'$' t h ∙ rw found refl)
      ∙ ap (◌∷◌ c) (sym (loop_found n values t before after found))
]

expand_loop-dollar :
    (n : ℕ) (values : Values) (t : Bytes)
    → expand_loop (suc n) values (b'$' ∷ b'$' ∷ t) ≡ b'$' ∷ expand_loop n values t
unfolding expand_loop split_once expand_step
expand_loop-dollar n values t = refl

expand_loop-escape :
    (n : ℕ) (values : Values) (t : Bytes)
    → length (escape t) ≤ n
    → expand_loop n values (escape t) ≡ t
unfolding expand_loop split_once
expand_loop-escape zero values [] h = refl
expand_loop-escape (suc n) values [] h = refl
expand_loop-escape zero values (c ∷ t) h = absurd (ground arith)
expand_loop-escape (suc n) values (c ∷ t) h = elim (Bool-cases (c == b'$')) [
  | inl dollar ↦
      let same : c ≡ b'$' = ground arith in
      let fits : length (escape t) ≤ n = ground (arith, h, dollar) in
      rw same (
        expand_loop-dollar n values (escape t) ∙ ap (◌∷◌ b'$') (expand_loop-escape n values t fits))
  | inr other ↦
      let fits : length (escape t) ≤ suc n = ground (arith, h, other) in
      rw other (
        expand_loop-other (suc n) c values (escape t) other
        ∙ ap (◌∷◌ c) (expand_loop-escape (suc n) values t fits))
]

-- A text whose every `$` is doubled expands to the text itself, whatever the values are: nothing
-- in it is taken for a variable, and nothing of it is lost.
pub expand-escape : (t : Bytes) (values : Values) → expand (escape t) values ≡ t
unfolding expand
expand-escape t values = expand_loop-escape (length (escape t)) values t (omega arith)
