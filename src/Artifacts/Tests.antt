-- ===== src/Artifacts/Tests.antt =====
-- The extraction of src/runner_daemon/artifacts.rs at concrete paths and archives.
use turboci.Prelude.{◌≡◌, refl, true, false, List, [], ◌∷◌, some, none, Bytes, codes}
use turboci.Program.{Keeps}
use turboci.Artifacts.{
  Component, normal, parent_dir, symlink_stays_inside, default_limits, extract_zip_reader,
}
use turboci.Artifacts.Writes.{resolve, extracting, Within}
use turboci.Artifacts.Extraction.{extraction_confined}

-- The link `a/b/up` and, beside it, `a/b/out`.
abbrev up : List Component
up = normal (codes "a") ∷ normal (codes "b") ∷ normal (codes "up") ∷ []

abbrev out : List Component
out = normal (codes "a") ∷ normal (codes "b") ∷ normal (codes "out") ∷ []

abbrev to_root : List Component
to_root = parent_dir ∷ parent_dir ∷ []

abbrev past_root : List Component
past_root = parent_dir ∷ parent_dir ∷ parent_dir ∷ []

abbrev through_up : List Component
through_up = normal (codes "up") ∷ parent_dir ∷ normal (codes "x") ∷ []

-- As in the unit tests of the source: up to the workspace and no further.
up_allowed : symlink_stays_inside up to_root ≡ true
unfolding symlink_stays_inside turboci.Artifacts.parent turboci.Artifacts.stays_inside
up_allowed = refl

past_refused : symlink_stays_inside up past_root ≡ false
unfolding symlink_stays_inside turboci.Artifacts.parent turboci.Artifacts.stays_inside
past_refused = refl

-- Both links are accepted, but `up` is the workspace, so its parent, through which `out` leads, is
-- not in it: the depth counts names, not where the links among them lead.
out_allowed : symlink_stays_inside out through_up ≡ true
unfolding symlink_stays_inside turboci.Artifacts.parent turboci.Artifacts.stays_inside
out_allowed = refl

up_is_the_workspace : resolve (codes "b" ∷ codes "a" ∷ []) to_root ≡ some []
up_is_the_workspace = refl

out_leaves : resolve [] (parent_dir ∷ normal (codes "x") ∷ []) ≡ none
out_leaves = refl

abbrev one_name : Bytes → List Component
one_name text = normal text ∷ []

extraction_confined_example :
    Keeps
      (extracting one_name default_limits)
      (Within default_limits)
      (record { dir = []; total = 0; entry = none })
      (extract_zip_reader one_name default_limits 3)
extraction_confined_example = extraction_confined one_name default_limits 3
