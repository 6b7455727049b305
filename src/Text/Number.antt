-- ===== src/Text/Number.antt =====
-- Unsigned numbers in text: Rust's `parse::<u64>()` and `to_string()`.
use turboci.Prelude.{
  ℕ, zero, suc, ◌+◌, ◌-◌, ◌*◌, ◌/◌, ◌%◌, ◌^◌, ◌≤◌, ◌<◌, ◌≡◌, refl, sym, ap, ◌∙◌, true, false, Bool,
  Bool-cases, inl, inr, ◌&&◌, leb, ◌==◌, if◌then◌else◌, [], ◌∷◌, Option, none, some, arith, Bytes,
}
use turboci.Text.{is_digit, has_byte}

abbrev pub max_u64 : ℕ
max_u64 = 2 ^ 64 - 1

abbrev pub max_u32 : ℕ
max_u32 = 2 ^ 32 - 1

-- The digits that are left, behind the number `n` of those read.
scan : ℕ → Bytes → ℕ → Option ℕ
unfolding is_digit
scan top [] n = some n
scan top (c ∷ t) n =
    let m = n * 10 + (c - b'0') in
    let rest = scan top t m in if is_digit c && leb m top then rest else none

-- `parse` into an unsigned type with the greatest value `top`: an optional `+`, then digits.
unfoldable pub parse_unsigned : ℕ → Bytes → Option ℕ
unfolding scan
parse_unsigned top [] = none
parse_unsigned top (c ∷ []) = if c == b'+' then none else scan top (c ∷ []) 0
parse_unsigned top (c ∷ d ∷ t) = if c == b'+' then scan top (d ∷ t) 0 else scan top (c ∷ d ∷ t) 0

-- The digits of `n` in front of `acc`; more rounds than `n` are enough.
decimal : ℕ → ℕ → Bytes → Bytes
decimal zero n acc = acc
decimal (suc f) n acc =
    let acc' = (b'0' + n % 10) ∷ acc in
    let rest = decimal f (n / 10) acc' in if n / 10 == 0 then acc' else rest

unfoldable pub to_decimal : ℕ → Bytes
unfolding decimal
to_decimal n = decimal (suc n) n []

scan_digit :
    (top n : ℕ) (acc : Bytes) → n ≤ top → scan top ((b'0' + n % 10) ∷ acc) (n / 10) ≡ scan top acc n
unfolding scan
scan_digit top n acc h =
    let e : n / 10 * 10 + (b'0' + n % 10 - b'0') ≡ n = omega arith in
    let d : is_digit (b'0' + n % 10) ≡ true = ground arith in rw (d, e) (ground arith)

scan-decimal :
    (top f n : ℕ) (acc : Bytes) → n < f → n ≤ top → scan top (decimal f n acc) 0 ≡ scan top acc n
unfolding decimal
scan-decimal top zero n acc lt le = absurd (omega arith)
scan-decimal top (suc f) n acc lt le = elim (Bool-cases (n / 10 == 0)) [
  | inl e ↦ let z : n / 10 ≡ 0 = ground arith in rw e (ground (arith, scan_digit top n acc le))
  | inr e ↦ rw e (
      scan-decimal top f (n / 10) ((b'0' + n % 10) ∷ acc) (ground arith) (omega arith)
      ∙ scan_digit top n acc le)
]

-- The text begins with a digit.
abbrev begins : Bytes → Bool
begins [] = false
begins (c ∷ t) = is_digit c

begins-decimal : (f n : ℕ) (acc : Bytes) → begins (decimal (suc f) n acc) ≡ true
unfolding decimal is_digit
begins-decimal zero n acc = ground arith
begins-decimal (suc f) n acc = ground (arith, begins-decimal f (n / 10) ((b'0' + n % 10) ∷ acc))

parse-scan : (top : ℕ) (t : Bytes) → begins t ≡ true → parse_unsigned top t ≡ scan top t 0
unfolding parse_unsigned is_digit
parse-scan top [] h = cc
parse-scan top (c ∷ []) h = ground arith
parse-scan top (c ∷ d ∷ t) h = ground arith

scan-nil : (top n : ℕ) → scan top [] n ≡ some n
unfolding scan
scan-nil top n = refl

-- A number that fits is read back from its print.
pub parse-to_decimal : (top n : ℕ) → n ≤ top → parse_unsigned top (to_decimal n) ≡ some n
unfolding to_decimal
parse-to_decimal top n h =
    parse-scan top (decimal (suc n) n []) (begins-decimal n n [])
    ∙ (scan-decimal top (suc n) n [] (omega arith) h ∙ scan-nil top n)

scan_digit_over :
    (top n : ℕ) (acc : Bytes) → top < n → scan top ((b'0' + n % 10) ∷ acc) (n / 10) ≡ none
unfolding scan
scan_digit_over top n acc h =
    let e : n / 10 * 10 + (b'0' + n % 10 - b'0') ≡ n = omega arith in rw e (ground arith)

scan-decimal_over :
    (top f n : ℕ) (acc : Bytes) → n < f → top < n → scan top (decimal f n acc) 0 ≡ none
unfolding decimal
scan-decimal_over top zero n acc lt over = absurd (omega arith)
scan-decimal_over top (suc f) n acc lt over = elim (Bool-cases (n / 10 == 0)) [
  | inl e ↦
      let z : n / 10 ≡ 0 = ground arith in rw e (ground (arith, scan_digit_over top n acc over))
  | inr e ↦ rw e (elim (Bool-cases (leb (n / 10) top)) [
    | inl fits ↦
        scan-decimal top f (n / 10) ((b'0' + n % 10) ∷ acc) (ground arith) (ground arith)
        ∙ scan_digit_over top n acc over
    | inr more ↦
        scan-decimal_over top f (n / 10) ((b'0' + n % 10) ∷ acc) (ground arith) (ground arith)
  ])
]

-- A number that does not fit is refused.
pub parse-to_decimal_over : (top n : ℕ) → top < n → parse_unsigned top (to_decimal n) ≡ none
unfolding to_decimal
parse-to_decimal_over top n h =
    parse-scan top (decimal (suc n) n []) (begins-decimal n n [])
    ∙ scan-decimal_over top (suc n) n [] (omega arith) h

has_byte-decimal :
    (c f n : ℕ) (acc : Bytes) → c < b'0' → has_byte c (decimal f n acc) ≡ has_byte c acc
unfolding decimal has_byte
has_byte-decimal c zero n acc h = refl
has_byte-decimal c (suc f) n acc h =
    ground (arith, has_byte-decimal c f (n / 10) ((b'0' + n % 10) ∷ acc) h)

-- A number has no byte below the digits, such as `-`.
pub has_byte-to_decimal : (c n : ℕ) → c < b'0' → has_byte c (to_decimal n) ≡ false
unfolding to_decimal has_byte
has_byte-to_decimal c n h = has_byte-decimal c (suc n) n [] h

pub to_decimal_inj : (m n : ℕ) → to_decimal m ≡ to_decimal n → m ≡ n
to_decimal_inj m n e = some_inj (
    sym (parse-to_decimal (m + n) m (omega arith))
    ∙ (ap (parse_unsigned (m + n)) e ∙ parse-to_decimal (m + n) n (omega arith)))
  where
    some_inj : {a b : ℕ} → some a ≡ some b → a ≡ b
    some_inj e = cc
