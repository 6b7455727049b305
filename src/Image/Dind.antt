-- ===== src/Image/Dind.antt =====
-- The command of a docker:dind service, in src/runner_daemon/image.rs.
use turboci.Prelude.{
  ◌≡◌, refl, sym, ap, ◌∙◌, true, Bool-cases, inl, inr, ◌||◌, List, [], ◌∷◌, ◌++◌, arith, Option,
  some, Bytes, append_assoc, append-nil,
}
use turboci.Text.Slices.{bytes_eq_refl}
use turboci.Image.{contains, registry_flag, add_flag, add_flags, or_no_args, dind_command}

contains-append :
    (a : Bytes) (xs ys : List Bytes) → contains a (xs ++ ys) ≡ (contains a xs || contains a ys)
unfolding contains
contains-append a [] ys = refl
contains-append a (x ∷ xs) ys = ground (arith, contains-append a xs ys)

-- What a round leaves: the arguments, then possibly the flag, which is there afterwards.
add_flag_extends :
    (args : List Bytes) (host : Bytes) → (more : List Bytes) × (add_flag args host ≡ args ++ more)
unfolding add_flag
add_flag_extends args host = elim (Bool-cases (contains (registry_flag host) args)) [
  | inl there ↦ rw there ([], sym (append-nil args))
  | inr missing ↦ rw missing (registry_flag host ∷ [], refl)
]

add_flag_has :
    (args : List Bytes) (host : Bytes) → contains (registry_flag host) (add_flag args host) ≡ true
unfolding add_flag contains
add_flag_has args host = elim (Bool-cases (contains (registry_flag host) args)) [
  | inl there ↦ rw there there
  | inr missing ↦
      rw (missing, add_flag)
        (ground (
          arith,
          contains-append (registry_flag host) args (registry_flag host ∷ []),
          bytes_eq_refl (registry_flag host),
        ))
]

add_flags_extends :
    (args hosts : List Bytes) → (more : List Bytes) × (add_flags args hosts ≡ args ++ more)
unfolding add_flags
add_flags_extends args [] = ([], sym (append-nil args))
add_flags_extends args (host ∷ hosts) =
    let (more, e) = add_flags_extends (add_flag args host) hosts in
    let (flag, f) = add_flag_extends args host in
    (flag ++ more, e ∙ (ap (λ (x : List Bytes). x ++ more) f ∙ append_assoc args flag more))

add_flags_has :
    (args before after : List Bytes) (host : Bytes)
    → contains (registry_flag host) (add_flags args (before ++ host ∷ after)) ≡ true
unfolding add_flags
add_flags_has args [] after host =
    let (more, e) = add_flags_extends (add_flag args host) after in
    ap (contains (registry_flag host)) e
    ∙ (contains-append (registry_flag host) (add_flag args host) more
        ∙ ground (arith, add_flag_has args host))
add_flags_has args (b ∷ before) after host = add_flags_has (add_flag args b) before after host

-- The command of a dind service with a registry to allow: the arguments that it had stay in front,
-- in their order, and the flag of each of the registries is among its arguments.
pub dind_command_lem :
    (command : Option (List Bytes)) (before after : List Bytes) (host : Bytes)
    → (more : List Bytes) × (dind_command command (before ++ host ∷ after)
        ≡ some (or_no_args command ++ more))
      × (contains (registry_flag host) (or_no_args command ++ more) ≡ true)
unfolding dind_command
dind_command_lem command [] after host =
    found (add_flags_extends (or_no_args command) (host ∷ after))
  where
    found :
        (more : List Bytes) × (add_flags (or_no_args command) (host ∷ after)
            ≡ or_no_args command ++ more)
        → (more : List Bytes) × (dind_command command (host ∷ after)
            ≡ some (or_no_args command ++ more))
          × (contains (registry_flag host) (or_no_args command ++ more) ≡ true)
    found (more, e) = (
      more,
      ap some e,
      ap (contains (registry_flag host)) (sym e) ∙ add_flags_has (or_no_args command) [] after host,
    )
dind_command_lem command (b ∷ before) after host =
    let (more, e) = add_flags_extends (or_no_args command) (b ∷ before ++ host ∷ after) in
    (
      more,
      ap some e,
      ap (contains (registry_flag host)) (sym e)
          ∙ add_flags_has (or_no_args command) (b ∷ before) after host,
    )
