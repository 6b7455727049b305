-- ===== src/Image/Tags.antt =====
-- The tags of image references, in src/runner_daemon/image.rs.
use turboci.Prelude.{
  ℕ, ◌≡◌, refl, sym, ap, ◌∙◌, false, Bool-cases, inl, inr, not, ◌&&◌, ◌||◌, [], ◌∷◌, ◌++◌, arith,
  none, some, Bytes, codes, bytes_eq,
}
use turboci.Text.{has_byte, split_once, rsplit_once}
use turboci.Text.Slices.{bytes_eq→eq}
use turboci.Image.{without_digest, without_tag, repository, with_default_tag}

has_byte-append : (c : ℕ) (t u : Bytes) → has_byte c (t ++ u) ≡ (has_byte c t || has_byte c u)
unfolding has_byte
has_byte-append c [] u = refl
has_byte-append c (b ∷ t) u = ground (arith, has_byte-append c t u)

split_once-none : (c : ℕ) (t : Bytes) → has_byte c t ≡ false → split_once c t ≡ none
unfolding has_byte split_once
split_once-none c [] h = refl
split_once-none c (b ∷ t) h = ground (arith, split_once-none c t, h)

rsplit_once-none : (c : ℕ) (t : Bytes) → has_byte c t ≡ false → rsplit_once c t ≡ none
unfolding has_byte rsplit_once
rsplit_once-none c [] h = refl
rsplit_once-none c (b ∷ t) h = ground (arith, rsplit_once-none c t, h)

rsplit_once-append :
    (c : ℕ) (t u : Bytes) → has_byte c u ≡ false → rsplit_once c (t ++ c ∷ u) ≡ some (t, u)
unfolding rsplit_once
rsplit_once-append c [] u h = ground (arith, rsplit_once-none c u h)
rsplit_once-append c (b ∷ t) u h = ground (arith, rsplit_once-append c t u h)

bytes_eq_longer : (t : Bytes) (c : ℕ) (u : Bytes) → bytes_eq t (t ++ c ∷ u) ≡ false
bytes_eq_longer [] c u = refl
bytes_eq_longer (b ∷ t) c u = ground (arith, bytes_eq_longer t c u)

without_digest_plain : (t : Bytes) → has_byte b'@' t ≡ false → without_digest t ≡ t
unfolding without_digest
without_digest_plain t h = rw (split_once-none b'@' t h, without_digest) refl

without_tag_latest : (t : Bytes) → without_tag (t ++ codes ":latest") ≡ t
unfolding without_tag has_byte
without_tag_latest t = rw (rsplit_once-append b':' t (codes "latest") refl, without_tag) refl

-- What the default tag is added to is a name without a tag, and it is no part of the name.
tagged :
    (image : Bytes)
    → has_byte b'@' image ≡ false
    → (has_byte b'@' (image ++ codes ":latest") ≡ false)
      × (repository (image ++ codes ":latest") ≡ image)
unfolding repository has_byte
tagged image h =
    let still : has_byte b'@' (image ++ codes ":latest") ≡ false =
      has_byte-append b'@' image (codes ":latest") ∙ ground (arith, h) in
    (
      still,
      ap without_tag (without_digest_plain (image ++ codes ":latest") still)
          ∙ without_tag_latest image,
    )

-- The reference that is pulled for an image names the same repository as the image does, and
-- giving it a default tag again changes nothing: it has a tag or a digest.
pub with_default_tag_lem :
    (image : Bytes)
    → (repository (with_default_tag image) ≡ repository image)
      × (with_default_tag (with_default_tag image) ≡ with_default_tag image)
unfolding with_default_tag
with_default_tag_lem image =
    elim (Bool-cases (not (has_byte b'@' image) && bytes_eq (repository image) image)) [
      | inr complete ↦ rw complete (refl, rw complete refl)
      | inl bare ↦
          let plain : has_byte b'@' image ≡ false = ground (arith, bare) in
          let same = bytes_eq→eq (repository image) image (ground (arith, bare)) in
          let (still, name) = tagged image plain in
          let done : bytes_eq (repository (image ++ codes ":latest")) (image ++ codes ":latest")
              ≡ false =
            ap (λ r. bytes_eq r (image ++ codes ":latest")) name
            ∙ bytes_eq_longer image b':' (codes "latest") in
          rw bare (name ∙ sym same, rw (still, done) refl)
    ]
