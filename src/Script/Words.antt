-- ===== src/Script/Words.antt =====
-- The words that a POSIX shell reads from the lines of src/runner_daemon/script.rs.
use turboci.Prelude.{
  ℕ, ◌≡◌, refl, sym, ap, ◌∙◌, false, Bool-cases, inl, inr, ◌||◌, ◌==◌, if◌then◌else◌, List, [], ◌∷◌,
  ◌++◌, arith, Option, none, some, Bytes, codes, append_assoc, append-nil,
}
use turboci.Text.{replace, replace_from, has_byte}
use turboci.Script.{quote, join_words, argv_line}

-- What a byte is to the shell outside of quotes: a single quote, a backslash, a blank between
-- words, a byte that it would interpret (an operator, an expansion, a pattern, the end of the
-- line), or a byte of a word.
pub data Class : Type 0 where
  quote_mark backslash blank special plain : Class

pub classify : ℕ → Class
classify c =
    if c == b'\''
    then quote_mark
    else if c == b'\\'
    then backslash
    else if (c == b' ') || (c == 9)
    then blank
    else if has_byte c (codes "|&;<>()$`\"*?[#~=%!{}\n\r")
    then special
    else plain

-- Where the reader is: between two words, in a word, in single quotes, or behind a backslash.
pub data Mode : Type 0 where
  between in_word quoted escaped : Mode

-- A byte more for the first word.
pub cons_byte : ℕ → Option (List Bytes) → Option (List Bytes)
cons_byte c none = none
cons_byte c (some []) = some ((c ∷ []) ∷ [])
cons_byte c (some (w ∷ ws)) = some ((c ∷ w) ∷ ws)

pub new_word : Option (List Bytes) → Option (List Bytes)
new_word none = none
new_word (some ws) = some ([] ∷ ws)

-- The words of a line, of which the first is begun already unless the reader is between two; none
-- where the shell would do more than read words.
pub sh_words : Mode → Bytes → Option (List Bytes)
sh_words between [] = some []
sh_words in_word [] = some ([] ∷ [])
sh_words quoted [] = none
sh_words escaped [] = none
sh_words between (c ∷ t) = elim (classify c) [
  | quote_mark ↦ sh_words quoted t
  | backslash ↦ sh_words escaped t
  | blank ↦ sh_words between t
  | special ↦ none
  | plain ↦ cons_byte c (sh_words in_word t)
]
sh_words in_word (c ∷ t) = elim (classify c) [
  | quote_mark ↦ sh_words quoted t
  | backslash ↦ sh_words escaped t
  | blank ↦ new_word (sh_words between t)
  | special ↦ none
  | plain ↦ cons_byte c (sh_words in_word t)
]
sh_words quoted (c ∷ t) = if c == b'\'' then sh_words in_word t else cons_byte c (sh_words quoted t)
sh_words escaped (c ∷ t) = if c == 10 then none else cons_byte c (sh_words in_word t)

-- Bytes more for the first word.
pub prepend : Bytes → Option (List Bytes) → Option (List Bytes)
prepend [] x = x
prepend (c ∷ w) x = cons_byte c (prepend w x)

prepend-word : (w u : Bytes) (ws : List Bytes) → prepend w (some (u ∷ ws)) ≡ some ((w ++ u) ∷ ws)
unfolding prepend cons_byte
prepend-word [] u ws = refl
prepend-word (c ∷ w) u ws = rw (prepend-word w u ws) refl

abbrev body : Bytes → Bytes
body w = replace (codes "'") (codes "'\\''") w

body_nil : body [] ≡ []
unfolding replace replace_from
body_nil = refl

body_mark : (w : Bytes) → body (b'\'' ∷ w) ≡ codes "'\\''" ++ body w
unfolding replace replace_from
body_mark w = refl

body_other : (c : ℕ) (w : Bytes) → (c == b'\'') ≡ false → body (c ∷ w) ≡ c ∷ body w
unfolding replace replace_from
body_other c w h = ground (arith, h)

sh_words-quoted :
    (w u : Bytes) → sh_words quoted (body w ++ b'\'' ∷ u) ≡ prepend w (sh_words in_word u)
unfolding sh_words prepend classify
sh_words-quoted [] u = rw body_nil refl
sh_words-quoted (c ∷ w) u = elim (Bool-cases (c == b'\'')) [
  | inl mark ↦
      let same : c ≡ b'\'' = ground arith in
      rw (same, body_mark w) (ap (cons_byte b'\'') (sh_words-quoted w u))
  | inr other ↦ rw (body_other c w other, other) (ap (cons_byte c) (sh_words-quoted w u))
]

-- A quoted argument is read as that argument, as a part of a word.
sh_words-quote : (w u : Bytes) → sh_words between (quote w ++ u) ≡ prepend w (sh_words in_word u)
unfolding sh_words quote classify has_byte
sh_words-quote w u =
    ap (sh_words quoted) (append_assoc (body w) (codes "'") u) ∙ sh_words-quoted w u

-- A quoted argument that ends the line, and one that another follows.
sh_words-last : (w : Bytes) → sh_words between (quote w) ≡ some (w ∷ [])
unfolding sh_words
sh_words-last w =
    ap (sh_words between) (sym (append-nil (quote w)))
    ∙ (sh_words-quote w [] ∙ (prepend-word w [] [] ∙ ap (λ x. some (x ∷ [])) (append-nil w)))

sh_words-next :
    (w u : Bytes) (ws : List Bytes)
    → sh_words between u ≡ some ws
    → sh_words between (quote w ++ b' ' ∷ u) ≡ some (w ∷ ws)
unfolding sh_words classify new_word
sh_words-next w u ws h =
    sh_words-quote w (b' ' ∷ u)
    ∙ (ap (λ x. prepend w (new_word x)) h
        ∙ (prepend-word w [] ws ∙ ap (λ x. some (x ∷ ws)) (append-nil w)))

-- The shell reads back from `argv_line` exactly the arguments, whatever bytes they hold: none is
-- split, joined with another, or interpreted.
pub argv_line_lem : (argv : List Bytes) → sh_words between (argv_line argv) ≡ some argv
unfolding argv_line join_words sh_words
argv_line_lem [] = refl
argv_line_lem (w ∷ []) = sh_words-last w
argv_line_lem (w ∷ v ∷ ws) = sh_words-next w (argv_line (v ∷ ws)) (v ∷ ws) (argv_line_lem (v ∷ ws))
