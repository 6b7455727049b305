-- ===== src/Scrubber/Sample.antt =====
-- A scrubber with one secret and a pattern that matches nothing, for runs.
use turboci.Prelude.{refl, ◌∙◌, ◌<◌, lt→ltb, [], ◌∷◌, append-nil, length, Bytes}
use turboci.Scrubber.{Regex, SecretScrubber, scrub, match_ranges}
use turboci.Scrubber.Streaming.{Alone}

abbrev quiet : Regex
quiet = record { find_iter = λ t. []; mask_all = λ t. t }

abbrev pub only : Bytes → SecretScrubber
only s = record { secrets = s ∷ []; patterns = quiet ∷ [] }

-- It finds nothing but the secret.
pub only-Alone : (s text : Bytes) → 4 < length s → Alone (only s) s text
unfolding match_ranges scrub
only-Alone s text long x t y e = (
  rw (lt→ltb 4 (length s) long) (append-nil _ ∙ append-nil _),
  rw (lt→ltb 4 (length s) long) refl,
)
