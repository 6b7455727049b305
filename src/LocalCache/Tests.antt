-- ===== src/LocalCache/Tests.antt =====
-- The names and the restore of src/runner_daemon/job_cache.rs at concrete keys.
use turboci.Prelude.{◌≡◌, refl, Bytes, codes, arith}
use turboci.LocalCache.{encode_key}
use turboci.LocalCache.Keys.{IsPlain, encode_key-IsPlain}

-- Stands for BLAKE3.
abbrev hash : Bytes → Bytes
hash key = codes "5d41"

slashes : encode_key hash (codes "a/../b") ≡ codes "a%2F%2E%2E%2Fb"
unfolding encode_key turboci.Text.is_alphanumeric turboci.Scrubber.Encode.hex_digit
slashes = refl

encode_key-IsPlain_example : IsPlain (encode_key hash (codes "a/../b"))
encode_key-IsPlain_example =
    encode_key-IsPlain hash (codes "a/../b") (λ key. (refl, (refl, (refl, (refl, tt)))))
      (ground arith)
