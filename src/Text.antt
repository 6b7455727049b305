-- ===== src/Text.antt =====
-- The functions of Rust's `str` that the source uses, on UTF-8 bytes. A position is a byte index,
-- as in Rust; searching for text that is valid UTF-8 byte by byte finds what a search by
-- characters finds.
pub mod Search
pub mod Slices
pub mod Number
use turboci.Prelude.{
  ℕ, zero, suc, ◌+◌, ◌-◌, Bool, true, false, not, ◌&&◌, ◌||◌, ltb, leb, ◌==◌, if◌then◌else◌, List,
  [], ◌∷◌, ◌++◌, length, take, drop, Option, none, some, Bytes, codes, bytes_eq,
}

-- A continuation byte of UTF-8, 0x80 to 0xBF.
unfoldable pub is_continuation : ℕ → Bool
is_continuation c = leb 0x80 c && ltb c 0xC0

unfoldable pub boundary_head : Bytes → Bool
unfolding is_continuation
boundary_head [] = true
boundary_head (c ∷ t) = not (is_continuation c)

-- `is_char_boundary`.
unfoldable pub is_char_boundary : Bytes → ℕ → Bool
unfolding boundary_head
is_char_boundary t i = (i == 0) || (leb i (length t) && boundary_head (drop i t))

-- `t.starts_with(p)`.
abbrev pub starts_with : Bytes → Bytes → Bool
starts_with [] t = true
starts_with (p ∷ ps) [] = false
starts_with (p ∷ ps) (c ∷ t) = (p == c) && starts_with ps t

-- `t.ends_with(p)`.
unfoldable pub ends_with : Bytes → Bytes → Bool
ends_with p t = leb (length p) (length t) && bytes_eq (drop (length t - length p) t) p

-- `t.contains(p)`.
unfoldable pub contains : Bytes → Bytes → Bool
contains p [] = starts_with p []
contains p (c ∷ t) = starts_with p (c ∷ t) || contains p t

-- The scan of `replace`: `skip` bytes still belong to the last match.
unfoldable pub replace_from : Bytes → Bytes → ℕ → Bytes → Bytes
replace_from p by skip [] = []
replace_from p by (suc k) (c ∷ t) = replace_from p by k t
replace_from p by zero (c ∷ t) = elim (starts_with p (c ∷ t)) [
  | true ↦ by ++ replace_from p by (length p - 1) t
  | false ↦ c ∷ replace_from p by zero t
]

-- `t.replace(p, by)`: the non-overlapping matches from the left, for a `p` that is not empty.
unfoldable pub replace : Bytes → Bytes → Bytes → Bytes
unfolding replace_from
replace p by t = replace_from p by zero t

unfoldable pub match_from : Bytes → ℕ → ℕ → Bytes → List (ℕ × ℕ)
match_from p pos skip [] = []
match_from p pos (suc k) (c ∷ t) = match_from p (pos + 1) k t
match_from p pos zero (c ∷ t) = elim (starts_with p (c ∷ t)) [
  | true ↦ (pos, pos + length p) ∷ match_from p (pos + 1) (length p - 1) t
  | false ↦ match_from p (pos + 1) zero t
]

-- `t.match_indices(p)`, with the end of each match, for a `p` that is not empty.
unfoldable pub match_indices : Bytes → Bytes → List (ℕ × ℕ)
unfolding match_from
match_indices p t = match_from p 0 zero t

-- The bytes of the white space character that the text starts with, 0 if none: `char::is_whitespace`.
unfoldable pub whitespace_width : Bytes → ℕ
whitespace_width [] = 0
whitespace_width (a ∷ []) = if (leb 0x09 a && leb a 0x0D) || (a == 0x20) then 1 else 0
whitespace_width (a ∷ b ∷ []) =
    if (leb 0x09 a && leb a 0x0D) || (a == 0x20)
    then 1
    else if (a == 0xC2) && ((b == 0x85) || (b == 0xA0))
    then 2
    else 0
whitespace_width (a ∷ b ∷ c ∷ t) =
    if (leb 0x09 a && leb a 0x0D) || (a == 0x20)
    then 1
    else if (a == 0xC2) && ((b == 0x85) || (b == 0xA0))
    then 2
    else if ((a == 0xE1) && (b == 0x9A) && (c == 0x80))
        || ((a == 0xE2) && (b == 0x80) && (leb 0x80 c && leb c 0x8A))
        || ((a == 0xE2) && (b == 0x80) && ((c == 0xA8) || (c == 0xA9) || (c == 0xAF)))
        || ((a == 0xE2) && (b == 0x81) && (c == 0x9F))
        || ((a == 0xE3) && (b == 0x80) && (c == 0x80))
    then 3
    else 0

-- `t.find(char::is_whitespace)`, cut: the rest from the first white space on.
unfoldable pub from_whitespace : Bytes → Option Bytes
unfolding whitespace_width
from_whitespace [] = none
from_whitespace (c ∷ t) =
    let rest = from_whitespace t in if whitespace_width (c ∷ t) == 0 then rest else some (c ∷ t)

unfoldable pub is_upper : ℕ → Bool
is_upper c = leb b'A' c && leb c b'Z'

unfoldable pub is_digit : ℕ → Bool
is_digit c = leb b'0' c && leb c b'9'

-- `is_ascii_alphabetic` and `is_ascii_alphanumeric`.
unfoldable pub is_alphabetic : ℕ → Bool
is_alphabetic c = (leb b'A' c && leb c b'Z') || (leb b'a' c && leb c b'z')

unfoldable pub is_alphanumeric : ℕ → Bool
unfolding is_alphabetic is_digit
is_alphanumeric c = is_alphabetic c || is_digit c

-- Whether one of the bytes of the text is `c`.
unfoldable pub has_byte : ℕ → Bytes → Bool
has_byte c [] = false
has_byte c (x ∷ t) = (x == c) || has_byte c t

-- `t.split_once(c)`: what stands before the first `c` and what behind it.
unfoldable pub split_once : ℕ → Bytes → Option (Bytes × Bytes)
split_once c [] = none
split_once c (b ∷ t) =
    if b == c
    then some ([], t)
    else elim (split_once c t) [ none ↦ none | some (before, after) ↦ some (b ∷ before, after) ]

-- `t.rsplit_once(c)`, by the last `c`.
unfoldable pub rsplit_once : ℕ → Bytes → Option (Bytes × Bytes)
rsplit_once c [] = none
rsplit_once c (b ∷ t) = elim (rsplit_once c t) [
  | some (before, after) ↦ some (b ∷ before, after)
  | none ↦ if b == c then some ([], t) else none
]

-- Whether the text, from behind `skip` bytes, is nothing but whitespace.
unfoldable pub is_blank : ℕ → Bytes → Bool
is_blank skip [] = true
is_blank (suc k) (c ∷ t) = is_blank k t
is_blank zero (c ∷ t) =
    let width = whitespace_width (c ∷ t) in
    let rest = is_blank (width - 1) t in if width == 0 then false else rest

unfoldable pub trim_start : ℕ → Bytes → Bytes
trim_start skip [] = []
trim_start (suc k) (c ∷ t) = trim_start k t
trim_start zero (c ∷ t) =
    let width = whitespace_width (c ∷ t) in
    let rest = trim_start (width - 1) t in if width == 0 then c ∷ t else rest

unfoldable pub trim_end : Bytes → Bytes
trim_end [] = []
trim_end (c ∷ t) = let rest = trim_end t in if is_blank 0 (c ∷ t) then [] else c ∷ rest

-- `t.trim()`.
unfoldable pub trim : Bytes → Bytes
trim t = trim_end (trim_start 0 t)

-- The word that the text begins with, from behind `skip` bytes, and the words after it.
unfoldable pub words_from : ℕ → Bytes → Bytes × List Bytes
words_from skip [] = ([], [])
words_from (suc k) (c ∷ t) = words_from k t
words_from zero (c ∷ t) =
    let width = whitespace_width (c ∷ t) in
    let (word, words) = words_from (width - 1) t in
    if width == 0
    then (c ∷ word, words)
    else elim word [ [] ↦ ([], words) | b ∷ w ↦ ([], (b ∷ w) ∷ words) ]

-- `t.split_whitespace()`.
unfoldable pub split_whitespace : Bytes → List Bytes
split_whitespace t =
    let (word, words) = words_from 0 t in elim word [ [] ↦ words | b ∷ w ↦ (b ∷ w) ∷ words ]

-- `t.chars().take(n).collect()`.
unfoldable pub take_chars : ℕ → Bytes → Bytes
take_chars n [] = []
take_chars n (c ∷ t) = elim (is_continuation c) [
  | true ↦ c ∷ take_chars n t
  | false ↦ elim n [ zero ↦ [] | suc m ↦ c ∷ take_chars m t ]
]
