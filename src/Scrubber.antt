-- ===== src/Scrubber.antt =====
-- src/security/secret_scrubber.rs: the secret scrubber, and the scrubber of a stream of chunks. A
-- text is its UTF-8 bytes. The regular expressions are those of the `regex` crate: a parameter.
pub mod Mask
pub mod Cut
pub mod Boundary
pub mod Tokens
pub mod Matches
pub mod Streaming
pub mod Encode
pub mod JobSecrets
pub mod Pending
pub mod Sample
pub mod Tests
use mathlib.Core.List.{reverse}
use turboci.Prelude.{
  ℕ, zero, suc, ◌+◌, ◌-◌, ◌/◌, ◌%◌, ◌*◌, min, max, Bool, true, false, not, ◌&&◌, ◌||◌, ltb, leb,
  ◌==◌, if◌then◌else◌, List, [], ◌∷◌, ◌++◌, length, take, drop, Option, none, some, Bytes, codes,
  bytes_eq,
}
use turboci.Text.{
  is_char_boundary, ends_with, replace, match_indices, from_whitespace, is_alphanumeric, has_byte,
}

abbrev pub max_holdback : ℕ
max_holdback = 256

abbrev pub max_pending : ℕ
max_pending = 16 * 1024

-- What a compiled `Regex` does: `find_iter` (the byte ranges of the matches) and
-- `replace_all(text, "[MASKED]")`.
pub record Regex : Type 0 where
  pub find_iter : Bytes → List (ℕ × ℕ)
  pub mask_all : Bytes → Bytes

abbrev pub masked : Bytes
masked = codes "[MASKED]"

unfoldable pub is_token_char : ℕ → Bool
unfolding is_alphanumeric has_byte
is_token_char c = is_alphanumeric c || has_byte c (codes "-_+/=.:@%~")

-- The search of `suffix_prefix_len` downwards from `k`.
unfoldable pub longest_prefix : ℕ → Bytes → Bytes → ℕ
longest_prefix zero text secret = 0
longest_prefix (suc k) text secret =
    let rest = longest_prefix k text secret in
    if is_char_boundary secret (suc k) && ends_with (take (suc k) secret) text then suc k else rest

unfoldable pub suffix_prefix_len : Bytes → Bytes → ℕ
unfolding longest_prefix
suffix_prefix_len text secret = longest_prefix (length secret - 1) text secret

pub record SecretScrubber : Type 0 where
  pub secrets : List Bytes
  pub patterns : List Regex

-- The loop over the secrets, then the loop over the patterns.
unfoldable pub mask_secrets : List Bytes → Bytes → Bytes
mask_secrets [] t = t
mask_secrets (s ∷ ss) t = mask_secrets ss (if ltb 4 (length s) then replace s masked t else t)

unfoldable pub mask_patterns : List Regex → Bytes → Bytes
mask_patterns [] t = t
mask_patterns (r ∷ rs) t = mask_patterns rs (r.mask_all t)

unfoldable pub scrub : SecretScrubber → Bytes → Bytes
unfolding mask_secrets mask_patterns
scrub r text = mask_patterns r.patterns (mask_secrets r.secrets text)

unfoldable pub member : Bytes → List Bytes → Bool
member s [] = false
member s (x ∷ xs) = bytes_eq x s || member s xs

unfoldable pub is_empty : Bytes → Bool
is_empty [] = true
is_empty (c ∷ s) = false

unfoldable pub add_secret : SecretScrubber → Bytes → SecretScrubber
unfolding member is_empty
add_secret r secret =
    if not (is_empty secret) && not (member secret r.secrets)
    then record r { secrets = r.secrets ++ secret ∷ [] }
    else r

-- One round over the secrets, those of at most 4 bytes left out.
unfoldable pub secret_ranges : List Bytes → Bytes → List (ℕ × ℕ)
secret_ranges [] text = []
secret_ranges (s ∷ ss) text =
    (if ltb 4 (length s) then match_indices s text else []) ++ secret_ranges ss text

unfoldable pub pattern_ranges : List Regex → Bytes → List (ℕ × ℕ)
pattern_ranges [] text = []
pattern_ranges (r ∷ rs) text = r.find_iter text ++ pattern_ranges rs text

unfoldable pub match_ranges : SecretScrubber → Bytes → List (ℕ × ℕ)
unfolding secret_ranges pattern_ranges
match_ranges r text = secret_ranges r.secrets text ++ pattern_ranges r.patterns text

unfoldable pub max_length : List Bytes → ℕ
max_length [] = 0
max_length (s ∷ ss) = max (length s) (max_length ss)

unfoldable pub longest_secret : SecretScrubber → ℕ
unfolding max_length
longest_secret r = max_length r.secrets

-- The state of `StreamScrubber`.
pub record StreamScrubber : Type 0 where
  pub pending : Bytes
  pub swallowing : Bool

abbrev pub new : StreamScrubber
new = record { pending = []; swallowing = false }

-- The longest start of a secret that the text ends with, over all secrets.
unfoldable pub secret_start : List Bytes → Bytes → ℕ
secret_start [] text = 0
secret_start (s ∷ ss) text = max (suffix_prefix_len text s) (secret_start ss text)

unfoldable pub take_tokens : Bytes → ℕ
unfolding is_token_char
take_tokens [] = 0
take_tokens (c ∷ t) = if is_token_char c then suc (take_tokens t) else 0

-- The length of the run of token characters that the text ends with.
unfoldable pub token_run : Bytes → ℕ
unfolding take_tokens
token_run text = take_tokens (reverse text)

-- `while !is_char_boundary(boundary) { boundary -= 1 }`.
unfoldable pub floor_boundary : Bytes → ℕ → ℕ
floor_boundary text zero = 0
floor_boundary text (suc b) =
    let lower = floor_boundary text b in if is_char_boundary text (suc b) then suc b else lower

-- `while !is_char_boundary(boundary) { boundary += 1 }`, with the rounds up to the end of the text.
unfoldable pub ceil_boundary : Bytes → ℕ → ℕ → ℕ
ceil_boundary text zero b = b
ceil_boundary text (suc rounds) b =
    let higher = ceil_boundary text rounds (b + 1) in if is_char_boundary text b then b else higher

-- The loop that moves the boundary to the start of a match that it would cut, or that touches the
-- end of the text.
unfoldable pub before_matches : ℕ → List (ℕ × ℕ) → ℕ → ℕ
before_matches len [] boundary = boundary
before_matches len ((start, end) ∷ ms) boundary =
    before_matches len ms
      (if ltb start boundary && (ltb boundary end || (end == len)) then start else boundary)

-- The least start of the matches that touch the end of the text.
unfoldable pub growing_start : ℕ → List (ℕ × ℕ) → Option ℕ
growing_start len [] = none
growing_start len ((start, end) ∷ ms) =
    let rest = growing_start len ms in
    if end == len
    then elim rest [ none ↦ some start | some least ↦ some (min start least) ]
    else rest

unfoldable pub limit : SecretScrubber → ℕ
limit r = max max_pending (longest_secret r + max_holdback)

-- Where the pending text would be cut if there were no limit.
unfoldable pub safe_boundary : SecretScrubber → Bytes → ℕ
safe_boundary r text =
    let len = length text in
    before_matches len (match_ranges r text) (
      floor_boundary text
        (len - max (secret_start r.secrets text) (min (token_run text) max_holdback)))

unfoldable pub emit_at : SecretScrubber → Bytes → ℕ → StreamScrubber × Bytes
emit_at r text boundary =
    (record { pending = drop boundary text; swallowing = false }, scrub r (take boundary text))

-- What `push` does with the pending text, the new chunk included.
unfoldable pub advance : SecretScrubber → Bytes → StreamScrubber × Bytes
unfolding emit_at
advance r text =
    let len = length text in
    let boundary = safe_boundary r text in
    if ltb (limit r) (len - boundary)
    then elim (growing_start len (match_ranges r text)) [
      | some start ↦
          (record { pending = []; swallowing = true }, scrub r (take start text) ++ masked)
      | none ↦ emit_at r text (ceil_boundary text (limit r) (len - limit r))
    ]
    else emit_at r text boundary

-- `push`: the state after it and what may be emitted now.
unfoldable pub push : SecretScrubber → StreamScrubber → Bytes → StreamScrubber × Bytes
push r st chunk =
    if st.swallowing
    then elim (from_whitespace chunk) [
      | none ↦ (st, [])
      | some rest ↦ advance r (st.pending ++ rest)
    ]
    else advance r (st.pending ++ chunk)

unfoldable pub finish : SecretScrubber → StreamScrubber → StreamScrubber × Bytes
finish r st = (record { pending = []; swallowing = false }, scrub r st.pending)

-- Everything emitted for a sequence of chunks, the last flush included.
unfoldable pub emitted : SecretScrubber → StreamScrubber → List Bytes → Bytes
emitted r st [] = (finish r st).1
emitted r st (c ∷ cs) = let (st', out) = push r st c in out ++ emitted r st' cs
