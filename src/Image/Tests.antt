-- ===== src/Image/Tests.antt =====
-- Runs of src/runner_daemon/image.rs and the theorems at concrete inputs.
use turboci.Prelude.{◌≡◌, refl, true, [], ◌∷◌, none, some, Bytes, codes}
use turboci.Text.{has_byte, is_upper, split_once, rsplit_once}
use turboci.Image.{
  repository, registry, is_host, has_upper, if_not_present, parse, contains, first_allowed,
  allowed_policies, resolve,
}
use turboci.Image.Policy.{resolve_allowed, resolve_refused}

with_port : repository (codes "host:5000/group/app:v1") ≡ codes "host:5000/group/app"
unfolding repository split_once rsplit_once has_byte
with_port = refl

hub : registry (codes "library/ruby:3") ≡ codes "docker.io"
unfolding registry repository split_once rsplit_once has_byte is_host has_upper is_upper
hub = refl

-- `never` is listed first, but only `if-not-present` is allowed.
picked :
    resolve
      (codes "never" ∷ codes "if-not-present" ∷ [])
      (codes "always")
      (codes "if-not-present" ∷ [])
    ≡ some if_not_present
unfolding resolve first_allowed contains allowed_policies parse
picked = refl

resolve_allowed_example :
    (name : Bytes) × (contains name (codes "never" ∷ codes "if-not-present" ∷ []) ≡ true)
    × (contains name (allowed_policies (codes "always") (codes "if-not-present" ∷ [])) ≡ true)
    × (parse name ≡ some if_not_present)
resolve_allowed_example =
    resolve_allowed (codes "never") (codes "if-not-present" ∷ []) (codes "always")
      (codes "if-not-present" ∷ []) if_not_present picked

refused : resolve (codes "never" ∷ codes "sometimes" ∷ []) (codes "sometimes") [] ≡ none
unfolding resolve first_allowed contains allowed_policies parse
refused = refl

resolve_refused_example : parse (codes "sometimes") ≡ none
unfolding contains allowed_policies
resolve_refused_example =
    resolve_refused (codes "never" ∷ codes "sometimes" ∷ []) (codes "sometimes") []
      (codes "sometimes") refused refl refl
