-- ===== src/Artifacts/Symlinks.antt =====
-- What `symlink_stays_inside` of src/runner_daemon/artifacts.rs says of a target.
use turboci.Prelude.{
  ◌≡◌, refl, ◌∙◌, ap, arith, Bool, true, false, if◌then◌else◌, List, [], ◌∷◌, length, Bytes,
}
use turboci.Artifacts.{
  Component, normal, cur_dir, parent_dir, root_dir, prefix, parent, stays_inside, is_absolute,
  symlink_stays_inside,
}
use turboci.Artifacts.Writes.{Inside}

stays_inside-Inside :
    (cs : List Component) (dir : List Bytes) → stays_inside (length dir) cs ≡ true → Inside dir cs
unfolding stays_inside
stays_inside-Inside [] dir h = (dir, refl)
stays_inside-Inside (normal name ∷ cs) dir h =
    stays_inside-Inside cs (name ∷ dir) (ap (λ n. stays_inside n cs) (omega arith) ∙ h)
stays_inside-Inside (cur_dir ∷ cs) dir h = stays_inside-Inside cs dir h
stays_inside-Inside (parent_dir ∷ cs) [] h = absurd (cc h)
stays_inside-Inside (parent_dir ∷ cs) (name ∷ dir) h = stays_inside-Inside cs dir h
stays_inside-Inside (root_dir ∷ cs) [] h = absurd (cc h)
stays_inside-Inside (root_dir ∷ cs) (name ∷ dir) h = absurd (cc h)
stays_inside-Inside (prefix ∷ cs) [] h = absurd (cc h)
stays_inside-Inside (prefix ∷ cs) (name ∷ dir) h = absurd (cc h)

else_true : (a b : Bool) → (if a then false else b) ≡ true → b ≡ true
else_true true b h = absurd (cc h)
else_true false b h = h

pub symlink-Inside :
    (link target : List Component) (dir : List Bytes)
    → length dir ≡ length (parent link)
    → symlink_stays_inside link target ≡ true
    → Inside dir target
unfolding symlink_stays_inside
symlink-Inside link target dir e h =
    stays_inside-Inside target dir
      (ap (λ n. stays_inside n target) e ∙ else_true (is_absolute target) _ h)
