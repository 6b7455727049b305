-- ===== src/Script/Subdir.antt =====
-- `project_subdir` of src/runner_daemon/script.rs: where the project is checked out.
use turboci.Prelude.{
  ℕ, zero, suc, ◌+◌, ◌≡◌, refl, sym, ap, ◌∙◌, true, false, Bool, Bool-cases, Option-cases, inl, inr,
  not, ◌&&◌, ◌||◌, ◌==◌, if◌then◌else◌, List, [], ◌∷◌, length, arith, Option, none, some, Bytes,
  codes, bytes_eq,
}
use turboci.Text.{is_alphanumeric, has_byte, trim}
use turboci.Job.{Variable, Job, last_value, not_empty}
use turboci.Script.{Values, expand}

unfoldable pub strip_prefix : Bytes → Bytes → Option Bytes
strip_prefix [] t = some t
strip_prefix (p ∷ ps) [] = none
strip_prefix (p ∷ ps) (c ∷ t) = let rest = strip_prefix ps t in if p == c then rest else none

unfoldable pub clone_path : Job → Option Bytes
clone_path job = elim (last_value job.variables (codes "GIT_CLONE_PATH")) [
  | none ↦ none
  | some none ↦ none
  | some (some value) ↦ not_empty (trim value)
]

unfoldable pub relative_path : Bytes → Option Bytes
unfolding strip_prefix
relative_path path = elim (strip_prefix (codes "$CI_BUILDS_DIR/") path) [
  | some rest ↦ some rest
  | none ↦ strip_prefix (codes "${CI_BUILDS_DIR}/") path
]

-- The values of the variables; of several of one name the last is found.
unfoldable pub values_onto : Values → List Variable → Values
values_onto found [] = found
values_onto found (v ∷ vs) = elim v.value [
  | none ↦ values_onto found vs
  | some value ↦ values_onto ((v.key, value) ∷ found) vs
]

-- The first of the parts that the byte divides the text into, and the others.
unfoldable pub split_first : ℕ → Bytes → Bytes × List Bytes
split_first c [] = ([], [])
split_first c (b ∷ t) =
    let (part, parts) = split_first c t in if b == c then ([], part ∷ parts) else (b ∷ part, parts)

-- `split('/')`.
unfoldable pub split_parts : Bytes → List Bytes
unfolding split_first
split_parts t = let (part, parts) = split_first b'/' t in part ∷ parts

unfoldable pub all_part_bytes : Bytes → Bool
all_part_bytes [] = true
all_part_bytes (c ∷ t) = (is_alphanumeric c || has_byte c (codes "-_.")) && all_part_bytes t

unfoldable pub is_part : Bytes → Bool
is_part part =
    not (bytes_eq part [])
    && (not (bytes_eq part (codes "."))
        && (not (bytes_eq part (codes "..")) && all_part_bytes part))

unfoldable pub all_parts : List Bytes → Bool
unfolding is_part
all_parts [] = true
all_parts (p ∷ ps) = is_part p && all_parts ps

unfoldable pub is_inside : Bytes → Bool
is_inside relative = not (bytes_eq relative []) && all_parts (split_parts relative)

-- The directory, or none for a clone path that is refused.
unfoldable pub project_subdir : Job → Option Bytes
unfolding clone_path relative_path values_onto
project_subdir job = elim (clone_path job) [
  | none ↦ some (codes "project")
  | some path ↦ elim (relative_path path) [
    | none ↦ none
    | some rest ↦
        let relative = expand rest (values_onto [] job.variables) in
        if is_inside relative then some relative else none
  ]
]

-- Where a walk over the parts of a path ends, as the number of directories below its start; none if
-- it leaves the start upwards.
abbrev pub walk : ℕ → List Bytes → Option ℕ
walk n [] = some n
walk n (p ∷ ps) =
    if bytes_eq p [] || bytes_eq p (codes ".")
    then walk n ps
    else if bytes_eq p (codes "..")
    then elim n [ zero ↦ none | suc m ↦ walk m ps ]
    else walk (suc n) ps

walk-all_parts : (n : ℕ) (ps : List Bytes) → all_parts ps ≡ true → walk n ps ≡ some (n + length ps)
unfolding all_parts is_part
walk-all_parts n [] h = ap some (omega arith)
walk-all_parts n (p ∷ ps) h =
    let named : (bytes_eq p [] || bytes_eq p (codes ".")) ≡ false = ground (arith, h) in
    let down : bytes_eq p (codes "..") ≡ false = ground (arith, h) in
    rw (named, down) (walk-all_parts (suc n) ps (ground (arith, h)) ∙ ap some (omega arith))

default-is_inside : is_inside (codes "project") ≡ true
unfolding is_inside split_parts all_parts is_part all_part_bytes is_alphanumeric
default-is_inside = refl

project_subdir-is_inside :
    (job : Job) (path : Bytes) → project_subdir job ≡ some path → is_inside path ≡ true
unfolding project_subdir
project_subdir-is_inside job path h = elim (Option-cases (clone_path job)) [
  | inl missing ↦
      let same : codes "project" ≡ path = ground (arith, h, missing) in
      ap is_inside (sym same) ∙ default-is_inside
  | inr (clone, found) ↦ elim (Option-cases (relative_path clone)) [
    | inl outside ↦ absurd (ground (arith, h, found, outside))
    | inr (rest, inside) ↦
        let relative = expand rest (values_onto [] job.variables) in
        elim (Bool-cases (is_inside relative)) [
          | inr refused ↦ absurd (ground (arith, h, found, inside, refused))
          | inl accepted ↦
              let same : relative ≡ path = ground (arith, h, found, inside, accepted) in
              ap is_inside (sym same) ∙ accepted
        ]
  ]
]

-- The directory of a job is one below the directory for builds: a walk along its parts never goes
-- up, and ends as many directories below as it has parts, of which there is at least one; whatever
-- the variables that GIT_CLONE_PATH is made of hold.
pub project_subdir_lem :
    (job : Job) (path : Bytes)
    → project_subdir job ≡ some path
    → walk 0 (split_parts path) ≡ some (length (split_parts path))
unfolding is_inside
project_subdir_lem job path h =
    walk-all_parts 0 (split_parts path) (ground (arith, project_subdir-is_inside job path h))
    ∙ ap some (omega arith)
