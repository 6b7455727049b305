-- ===== src/Text/Search.antt =====
-- Laws of `starts_with`.
use turboci.Prelude.{
  ℕ, zero, suc, ◌≤◌, ◌≡◌, refl, true, false, [], ◌∷◌, ◌++◌, length, take, arith, Bytes,
}
use turboci.Text.{starts_with}

-- A match stays one in a longer text.
pub starts_with-append : (p t x : Bytes) → starts_with p t ≡ true → starts_with p (t ++ x) ≡ true
starts_with-append [] t x h = refl
starts_with-append (a ∷ p) [] x h = cc
starts_with-append (a ∷ p) (c ∷ t) x h = ground (arith, starts_with-append p t x)

-- A match in a longer text is one in the text, or reaches beyond it.
pub starts_with-split :
    (p t x : Bytes)
    → starts_with p (t ++ x) ≡ true
    → starts_with t p ≡ false
    → starts_with p t ≡ true
starts_with-split p [] x h g = cc
starts_with-split [] (c ∷ t) x h g = refl
starts_with-split (a ∷ p) (c ∷ t) x h g = ground (arith, starts_with-split p t x)

pub starts_with-take :
    (p t : Bytes) (n : ℕ) → starts_with p (take n t) ≡ true → starts_with p t ≡ true
starts_with-take [] t n h = refl
starts_with-take (a ∷ p) t zero h = cc
starts_with-take (a ∷ p) [] (suc n) h = cc
starts_with-take (a ∷ p) (c ∷ t) (suc n) h = ground (arith, starts_with-take p t n)

pub starts_with-take_le :
    (p t : Bytes) (n : ℕ) → starts_with p t ≡ true → length p ≤ n → starts_with p (take n t) ≡ true
starts_with-take_le [] t n h le = refl
starts_with-take_le (a ∷ p) [] n h le = cc
starts_with-take_le (a ∷ p) (c ∷ t) zero h le = absurd (omega arith)
starts_with-take_le (a ∷ p) (c ∷ t) (suc n) h le = ground (arith, starts_with-take_le p t n)

-- A text that is a prefix of `p` is what `p` begins with.
pub starts_with→take : (t p : Bytes) → starts_with t p ≡ true → take (length t) p ≡ t
starts_with→take [] p h = refl
starts_with→take (c ∷ t) [] h = cc
starts_with→take (c ∷ t) (a ∷ p) h = ground (arith, starts_with→take t p)

pub length-starts_with : (p t : Bytes) → starts_with p t ≡ true → length p ≤ length t
length-starts_with [] t h = omega arith
length-starts_with (a ∷ p) [] h = cc
length-starts_with (a ∷ p) (c ∷ t) h = ground (arith, length-starts_with p t)
