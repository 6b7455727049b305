-- ===== src/Scrubber/Mask.antt =====
-- What the masking of one secret leaves, in src/security/secret_scrubber.rs.
use turboci.Prelude.{
  ℕ, zero, suc, ◌-◌, ◌<◌, ◌≡◌, refl, ap, ◌∙◌, true, false, Bool-cases, inl, inr, [], ◌∷◌, ◌++◌,
  length, arith, Bytes, codes, ◌||◌,
}
use turboci.Text.{starts_with, contains, replace, replace_from, has_byte}
use turboci.Scrubber.{masked}
use turboci.Scrubber.Cut.{replace_from_found, replace_from_missing}

-- A secret that the mask itself cannot show: no bracket, and no part of the word between them.
pub record IsMaskable (s : Bytes) : Type 0 where
  pub no_open : has_byte b'[' s ≡ false
  pub no_close : has_byte b']' s ≡ false
  pub not_in_mask : contains s (codes "MASKED") ≡ false
  pub not_empty : 0 < length s

-- A text without the byte `e` is not found across one.
starts_with_stop :
    (e : ℕ) (s u r : Bytes) → has_byte e s ≡ false → starts_with s (u ++ e ∷ r) ≡ starts_with s u
unfolding has_byte
starts_with_stop e [] u r h = refl
starts_with_stop e (a ∷ s) [] r h = ground arith
starts_with_stop e (a ∷ s) (c ∷ u) r h = ground (arith, starts_with_stop e s u r)

contains_stop :
    (e : ℕ) (s u r : Bytes)
    → has_byte e s ≡ false
    → 0 < length s
    → contains s (u ++ e ∷ r) ≡ (contains s u || contains s r)
unfolding contains
contains_stop e [] u r h pos = absurd (omega arith)
contains_stop e (a ∷ s) [] r h pos = ground (arith, starts_with_stop e (a ∷ s) [] r h)
contains_stop e (a ∷ s) (c ∷ u) r h pos =
    ground (arith, starts_with_stop e (a ∷ s) (c ∷ u) r h, contains_stop e (a ∷ s) u r h pos)

contains-nil : (s : Bytes) → 0 < length s → contains s [] ≡ false
unfolding contains
contains-nil [] h = absurd (omega arith)
contains-nil (a ∷ s) h = refl

contains-masked : (s r : Bytes) → IsMaskable s → contains s (masked ++ r) ≡ contains s r
contains-masked s r v =
    contains_stop b'[' s [] (codes "MASKED" ++ b']' ∷ r) v.no_open v.not_empty
    ∙ ground (
      arith,
      contains-nil s v.not_empty,
      contains_stop b']' s (codes "MASKED") r v.no_close v.not_empty,
      v.not_in_mask,
    )

-- What the masked text starts with, the text starts with: masks begin with a bracket.
starts_with-replace_from :
    (s p t : Bytes)
    → has_byte b'[' p ≡ false
    → starts_with p (replace_from s masked 0 t) ≡ true
    → starts_with p t ≡ true
unfolding has_byte
starts_with-replace_from s [] t h e = refl
starts_with-replace_from s (a ∷ p) [] h e = unfold replace_from in cc
starts_with-replace_from s (a ∷ p) (c ∷ t) h e = elim (Bool-cases (starts_with s (c ∷ t))) [
  | inl found ↦ ground (arith, replace_from_found s masked c t found)
  | inr missing ↦
      ground (arith, replace_from_missing s masked c t missing, starts_with-replace_from s p t)
]

replace_from_skip :
    (s : Bytes) (k c : ℕ) (t : Bytes)
    → replace_from s masked (suc k) (c ∷ t) ≡ replace_from s masked k t
unfolding replace_from
replace_from_skip s k c t = refl

contains-cons :
    (s : Bytes) (c : ℕ) (t : Bytes) → contains s (c ∷ t) ≡ (starts_with s (c ∷ t) || contains s t)
unfolding contains
contains-cons s c t = refl

replace_from-lacks :
    (s : Bytes) (k : ℕ) (t : Bytes) → IsMaskable s → contains s (replace_from s masked k t) ≡ false
replace_from-lacks s k [] v = unfold replace_from in contains-nil s v.not_empty
replace_from-lacks s (suc k) (c ∷ t) v = rw (replace_from_skip s k c t) (replace_from-lacks s k t v)
replace_from-lacks s zero (c ∷ t) v = elim (Bool-cases (starts_with s (c ∷ t))) [
  | inl found ↦ rw (replace_from_found s masked c t found) (
      contains-masked s (replace_from s masked (length s - 1) t) v
      ∙ replace_from-lacks s (length s - 1) t v)
  | inr missing ↦ rw (replace_from_missing s masked c t missing) (
      contains-cons s c (replace_from s masked 0 t)
      ∙ ground (arith, not_here missing, replace_from-lacks s 0 t v))
]
  where
    not_here : starts_with s (c ∷ t) ≡ false → starts_with s (c ∷ replace_from s masked 0 t) ≡ false
    not_here missing = elim (Bool-cases (starts_with s (c ∷ replace_from s masked 0 t))) [
      | inl e ↦
          let here = ap (starts_with s) (replace_from_missing s masked c t missing) ∙ e in
          cc (missing, starts_with-replace_from s s (c ∷ t) v.no_open here)
      | inr e ↦ e
    ]

-- The masked text does not contain the secret.
pub replace_lacks : (s t : Bytes) → IsMaskable s → contains s (replace s masked t) ≡ false
unfolding replace
replace_lacks s t v = replace_from-lacks s 0 t v

replace_from_unchanged : (s by t : Bytes) → contains s t ≡ false → replace_from s by 0 t ≡ t
unfolding contains
replace_from_unchanged s by [] h = unfold replace_from in refl
replace_from_unchanged s by (c ∷ t) h =
    ground (arith, replace_from_missing s by c t, replace_from_unchanged s by t)

-- A text without the secret is left as it is.
pub replace_unchanged : (s by t : Bytes) → contains s t ≡ false → replace s by t ≡ t
unfolding replace
replace_unchanged s by t h = replace_from_unchanged s by t h
