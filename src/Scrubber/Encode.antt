-- ===== src/Scrubber/Encode.antt =====
-- `percent_encode` of src/security/secret_scrubber.rs, and that it can be undone.
use turboci.Prelude.{
  ℕ, ◌+◌, ◌-◌, ◌*◌, ◌/◌, ◌%◌, ◌<◌, ◌≡◌, refl, ap, ◌∙◌, true, false, Bool, Bool-cases, inl, inr,
  ◌||◌, ltb, leb, ◌==◌, if◌then◌else◌, [], ◌∷◌, ◌++◌, arith, Bytes, All,
}
use turboci.Text.{is_alphanumeric}

-- RFC 3986: the bytes that stand for themselves.
pub is_unreserved : ℕ → Bool
unfolding is_alphanumeric
is_unreserved b = is_alphanumeric b || (b == b'-') || (b == b'.') || (b == b'_') || (b == b'~')

-- A digit of `{:02X}`.
unfoldable pub hex_digit : ℕ → ℕ
hex_digit d = if ltb d 10 then b'0' + d else b'A' + (d - 10)

unfoldable pub encode_byte : ℕ → Bytes
unfolding is_unreserved hex_digit
encode_byte b =
    if is_unreserved b then b ∷ [] else b'%' ∷ hex_digit (b / 16) ∷ hex_digit (b % 16) ∷ []

unfoldable pub percent_encode : Bytes → Bytes
unfolding encode_byte
percent_encode [] = []
percent_encode (b ∷ t) = encode_byte b ++ percent_encode t

-- What a reader of a URL does, as a description of its own: after a `%` come two digits.
pub hex_value : ℕ → ℕ
hex_value c = if leb c b'9' then c - b'0' else c - b'A' + 10

pub data Reading : Type 0 where
  plain percent : Reading
  digit : ℕ → Reading

unfoldable pub percent_decode : Reading → Bytes → Bytes
unfolding hex_value
percent_decode plain [] = []
percent_decode percent [] = []
percent_decode (digit h) [] = []
percent_decode plain (c ∷ t) = elim (c == b'%') [
  | true ↦ percent_decode percent t
  | false ↦ c ∷ percent_decode plain t
]
percent_decode percent (c ∷ t) = percent_decode (digit (hex_value c)) t
percent_decode (digit h) (c ∷ t) = (h * 16 + hex_value c) ∷ percent_decode plain t

pub hex_value-hex_digit : (d : ℕ) → d < 16 → hex_value (hex_digit d) ≡ d
unfolding hex_value hex_digit
hex_value-hex_digit d h = ground arith

unreserved_not_percent : (b : ℕ) → is_unreserved b ≡ true → (b == b'%') ≡ false
unfolding is_unreserved
unreserved_not_percent b h = ground arith

pub plain_step :
    (c : ℕ) (t : Bytes)
    → (c == b'%') ≡ false
    → percent_decode plain (c ∷ t) ≡ c ∷ percent_decode plain t
unfolding percent_decode
plain_step c t h = rw (h, percent_decode)

pub escape_step :
    (d e : ℕ) (t : Bytes)
    → percent_decode plain (b'%' ∷ d ∷ e ∷ t)
      ≡ (hex_value d * 16 + hex_value e) ∷ percent_decode plain t
unfolding percent_decode
escape_step d e t = refl

decode-encode_byte :
    (b : ℕ) (r : Bytes)
    → b < 256
    → percent_decode plain (encode_byte b ++ r) ≡ b ∷ percent_decode plain r
unfolding encode_byte
decode-encode_byte b r lt = elim (Bool-cases (is_unreserved b)) [
  | inl e ↦ rw e (plain_step b r (unreserved_not_percent b e))
  | inr e ↦ rw e (
      escape_step (hex_digit (b / 16)) (hex_digit (b % 16)) r
      ∙ ap (λ (n : ℕ). n ∷ percent_decode plain r)
          (omega (
            arith,
            hex_value-hex_digit (b / 16) (omega arith),
            hex_value-hex_digit (b % 16) (omega arith),
          )))
]

-- Percent-decoding the encoded form of any bytes gives them back.
pub percent_decode-encode :
    (t : Bytes) → All (λ b. b < 256) t → percent_decode plain (percent_encode t) ≡ t
unfolding percent_encode
percent_decode-encode [] h = unfold percent_decode in refl
percent_decode-encode (b ∷ t) h =
    decode-encode_byte b (percent_encode t) h.0 ∙ ap (◌∷◌ b) (percent_decode-encode t h.1)
