-- ===== src/Image.antt =====
-- src/runner_daemon/image.rs: references to container images, the pull policy of a job, registry
-- credentials and the command of a docker:dind service. An error message is not modelled.
pub mod Tags
pub mod Policy
pub mod Dind
pub mod Tests
use turboci.Prelude.{
  ℕ, Bool, true, false, not, ◌&&◌, ◌||◌, ◌==◌, if◌then◌else◌, List, [], ◌∷◌, ◌++◌, map, Option,
  none, some, Bytes, codes, bytes_eq,
}
use turboci.Text.{has_byte, is_upper, split_once, rsplit_once, starts_with}
use turboci.Job.{Credential}

unfoldable pub without_digest : Bytes → Bytes
without_digest image = elim (split_once b'@' image) [ none ↦ image | some (before, after) ↦ before ]

-- The name without a tag: a colon behind the last slash begins one.
unfoldable pub without_tag : Bytes → Bytes
without_tag name = elim (rsplit_once b':' name) [
  | none ↦ name
  | some (before, after) ↦ if has_byte b'/' after then name else before
]

pub repository : Bytes → Bytes
unfolding without_digest without_tag
repository image = without_tag (without_digest image)

pub with_default_tag : Bytes → Bytes
with_default_tag image =
    if not (has_byte b'@' image) && bytes_eq (repository image) image
    then image ++ codes ":latest"
    else image

pub has_upper : Bytes → Bool
has_upper [] = false
has_upper (c ∷ t) = is_upper c || has_upper t

pub is_host : Bytes → Bool
unfolding has_upper
is_host first =
    has_byte b'.' first
    || (has_byte b':' first || (bytes_eq first (codes "localhost") || has_upper first))

pub registry : Bytes → Bytes
registry image = elim (split_once b'/' (repository image)) [
  | none ↦ codes "docker.io"
  | some (first, rest) ↦ if is_host first then first else codes "docker.io"
]

pub is_docker_hub : Bytes → Bool
is_docker_hub host =
    bytes_eq host (codes "docker.io")
    || (bytes_eq host (codes "index.docker.io") || bytes_eq host (codes "registry-1.docker.io"))

pub data PullPolicy : Type 0 where
  always if_not_present never : PullPolicy

pub parse : Bytes → Option PullPolicy
parse policy =
    if bytes_eq policy (codes "always")
    then some always
    else if bytes_eq policy (codes "if-not-present")
    then some if_not_present
    else if bytes_eq policy (codes "never")
    then some never
    else none

pub contains : Bytes → List Bytes → Bool
contains p [] = false
contains p (q ∷ qs) = bytes_eq q p || contains p qs

-- The first of the job's policies that is allowed and is one.
pub first_allowed : List Bytes → List Bytes → Option PullPolicy
first_allowed allowed [] = none
first_allowed allowed (p ∷ ps) =
    let rest = first_allowed allowed ps in
    if contains p allowed then elim (parse p) [ some policy ↦ some policy | none ↦ rest ] else rest

-- The policies that a job may pick.
pub allowed_policies : Bytes → List Bytes → List Bytes
allowed_policies default [] = default ∷ []
allowed_policies default (p ∷ ps) = p ∷ ps

pub resolve : List Bytes → Bytes → List Bytes → Option PullPolicy
resolve [] default allowed = elim (parse default) [ some policy ↦ some policy | none ↦ some always ]
resolve (p ∷ ps) default allowed = first_allowed (allowed_policies default allowed) (p ∷ ps)

pub registry_flag : Bytes → Bytes
registry_flag host = codes "--insecure-registry=" ++ host

-- A round of the loop of `dind_command`.
pub add_flag : List Bytes → Bytes → List Bytes
add_flag args host =
    if contains (registry_flag host) args then args else args ++ registry_flag host ∷ []

pub add_flags : List Bytes → List Bytes → List Bytes
add_flags args [] = args
add_flags args (host ∷ hosts) = add_flags (add_flag args host) hosts

pub or_no_args : Option (List Bytes) → List Bytes
or_no_args none = []
or_no_args (some args) = args

pub dind_command : Option (List Bytes) → List Bytes → Option (List Bytes)
dind_command command [] = command
dind_command command (host ∷ hosts) = some (add_flags (or_no_args command) (host ∷ hosts))
