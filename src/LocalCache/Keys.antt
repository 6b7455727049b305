-- ===== src/LocalCache/Keys.antt =====
-- The names that src/runner_daemon/job_cache.rs gives the archives of cache keys.
use turboci.Prelude.{
  ℕ, ◌/◌, ◌%◌, ◌<◌, ◌≤◌, ◌≡◌, refl, sym, ap, ◌∙◌, true, false, Bool, Bool-cases, inl, inr, ◌||◌,
  ◌&&◌, leb, ◌==◌, if◌then◌else◌, [], ◌∷◌, ◌++◌, length, arith, Bytes, codes, All, All-append,
}
use turboci.Text.{is_alphanumeric, is_alphabetic, is_digit}
use turboci.Scrubber.Encode.{
  hex_digit, plain, percent_decode, hex_value-hex_digit, plain_step, escape_step,
}
use turboci.LocalCache.{is_safe_byte, encode_byte, encode_bytes, encode_key}

-- A byte of a plain file name: an ASCII letter or digit, a dash, an underscore or a percent sign.
abbrev pub is_name_byte : ℕ → Bool
is_name_byte b =
    (((leb b'a' b && leb b b'z') || (leb b'A' b && leb b b'Z')) || (leb b'0' b && leb b b'9'))
    || ((b == b'-') || ((b == b'_') || (b == b'%')))

abbrev pub IsPlain : Bytes → Type 0
IsPlain t = All (λ b. is_name_byte b ≡ true) t

digit_safe : (d : ℕ) → d < 16 → is_name_byte (hex_digit d) ≡ true
unfolding hex_digit
digit_safe d h = ground arith

safe_plain : (b : ℕ) → is_safe_byte b ≡ true → is_name_byte b ≡ true
unfolding is_safe_byte is_alphanumeric is_alphabetic is_digit
safe_plain b h = ground arith

encode_byte-IsPlain : (b : ℕ) → b < 256 → IsPlain (encode_byte b)
unfolding encode_byte is_alphanumeric
encode_byte-IsPlain b lt = go (is_safe_byte b) refl
  where
    go :
        (safe : Bool)
        → is_safe_byte b ≡ safe
        → IsPlain (if safe then b ∷ [] else b'%' ∷ hex_digit (b / 16) ∷ hex_digit (b % 16) ∷ [])
    go true e = (safe_plain b e, tt)
    go false e =
        (refl, (digit_safe (b / 16) (omega arith), (digit_safe (b % 16) (omega arith), tt)))

encode_bytes-IsPlain : (t : Bytes) → All (λ b. b < 256) t → IsPlain (encode_bytes t)
unfolding encode_bytes
encode_bytes-IsPlain [] h = tt
encode_bytes-IsPlain (b ∷ t) h =
    All-append (λ b. is_name_byte b ≡ true) (encode_byte b) (encode_bytes t)
      (encode_byte-IsPlain b h.0) (encode_bytes-IsPlain t h.1)

safe_not_percent : (b : ℕ) → is_safe_byte b ≡ true → (b == b'%') ≡ false
unfolding is_safe_byte is_alphanumeric is_alphabetic is_digit
safe_not_percent b h = ground arith

decode-encode_byte :
    (b : ℕ) (r : Bytes)
    → b < 256
    → percent_decode plain (encode_byte b ++ r) ≡ b ∷ percent_decode plain r
unfolding encode_byte
decode-encode_byte b r lt = elim (Bool-cases (is_safe_byte b)) [
  | inl e ↦ rw e (plain_step b r (safe_not_percent b e))
  | inr e ↦ rw e (
      escape_step (hex_digit (b / 16)) (hex_digit (b % 16)) r
      ∙ ap (λ (n : ℕ). n ∷ percent_decode plain r)
          (omega (
            arith,
            hex_value-hex_digit (b / 16) (omega arith),
            hex_value-hex_digit (b % 16) (omega arith),
          )))
]

-- The escapes are those of a URL, so a reader of URLs gives a key back.
decode-encode_bytes : (t : Bytes) → All (λ b. b < 256) t → percent_decode plain (encode_bytes t) ≡ t
unfolding encode_bytes
decode-encode_bytes [] h = unfold percent_decode in refl
decode-encode_bytes (b ∷ t) h =
    decode-encode_byte b (encode_bytes t) h.0 ∙ ap (◌∷◌ b) (decode-encode_bytes t h.1)

short_key :
    (hash : Bytes → Bytes) (key : Bytes)
    → length (encode_bytes key) ≤ 200
    → encode_key hash key ≡ encode_bytes key
unfolding encode_key
short_key hash key h = ground arith

long_key :
    (hash : Bytes → Bytes) (key : Bytes)
    → 200 < length (encode_bytes key)
    → encode_key hash key ≡ codes "h-" ++ hash key
unfolding encode_key
long_key hash key h = ground arith

-- The bytes of a text.
abbrev pub IsBytes : Bytes → Type 0
IsBytes t = All (λ b. b < 256) t

if-IsPlain : (b : Bool) (s t : Bytes) → IsPlain s → IsPlain t → IsPlain (if b then s else t)
if-IsPlain true s t hs ht = hs
if-IsPlain false s t hs ht = ht

-- The name of a key's archive, short or long, is a plain file name, without a separator or a dot,
-- whatever bytes the key holds, if that is so of the hash.
pub encode_key-IsPlain :
    (hash : Bytes → Bytes) (key : Bytes)
    → ((key : Bytes) → IsPlain (hash key))
    → IsBytes key
    → IsPlain (encode_key hash key)
unfolding encode_key is_alphanumeric
encode_key-IsPlain hash key plain_hash bytes =
    if-IsPlain (leb (length (encode_bytes key)) 200) (encode_bytes key) (codes "h-" ++ hash key)
      (encode_bytes-IsPlain key bytes)
      (All-append (λ b. is_name_byte b ≡ true) (codes "h-") (hash key) (refl, (refl, tt))
        (plain_hash key))

-- Two short keys have the same name only if they are the same key. A key is short if its escaped
-- form has at most 200 bytes. Of long keys, which are hashed, nothing is said.
pub encode_key_lem :
    (hash : Bytes → Bytes) (k l : Bytes)
    → IsBytes k
    → IsBytes l
    → length (encode_bytes k) ≤ 200
    → length (encode_bytes l) ≤ 200
    → encode_key hash k ≡ encode_key hash l
    → k ≡ l
encode_key_lem hash k l bk bl sk sl e =
    sym (decode-encode_bytes k bk)
    ∙ (ap (percent_decode plain) (sym (short_key hash k sk) ∙ (e ∙ short_key hash l sl))
        ∙ decode-encode_bytes l bl)

safe_bytes : (t : Bytes) → All (λ b. is_safe_byte b ≡ true) t → encode_bytes t ≡ t
unfolding encode_bytes encode_byte
safe_bytes [] h = refl
safe_bytes (b ∷ t) h = rw h.0 (ap (◌∷◌ b) (safe_bytes t h.1))

-- A long key shares its name with a short one, which anybody can write down: `h-` and its hash.
hash_key-encode_key :
    (hash : Bytes → Bytes) (key : Bytes)
    → 200 < length (encode_bytes key)
    → All (λ b. is_safe_byte b ≡ true) (hash key)
    → length (hash key) ≤ 198
    → encode_key hash (codes "h-" ++ hash key) ≡ encode_key hash key
unfolding encode_bytes encode_byte is_safe_byte is_alphanumeric is_alphabetic is_digit
hash_key-encode_key hash key long safe short =
    let same = safe_bytes (codes "h-" ++ hash key) (refl, (refl, safe)) in
    short_key hash (codes "h-" ++ hash key) (omega (arith, ap length same))
    ∙ (same ∙ sym (long_key hash key long))
