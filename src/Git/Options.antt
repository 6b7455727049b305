-- ===== src/Git/Options.antt =====
-- That nothing in the job payload is read as an option by git, in src/runner_daemon/git.rs.
use turboci.Prelude.{
  ◌≡◌, sym, ap, ◌∙◌, true, false, Bool, Bool-cases, Option-cases, inl, inr, ◌⊎◌, refl,
  if◌then◌else◌, List, [], ◌∷◌, ◌++◌, arith, some, Bytes, codes, append_assoc,
}
use turboci.Text.{is_digit}
use turboci.Text.Slices.{bytes_eq→eq}
use turboci.Job.{Variable, GitInfo}
use turboci.Git.{
  begins_with_dash, any_dash, is_hex_digit, all_hex, is_commit_sha, is_valid, git, fetch_refs,
  fetch_command, depth_flag, depth, flags, remove_commands, init_command, work_tree_commands,
  variable, is_off, submodules, sync_commands,
}

is_commit_sha_plain : (sha : Bytes) → is_commit_sha sha ≡ true → begins_with_dash sha ≡ false
unfolding is_commit_sha all_hex is_hex_digit is_digit begins_with_dash
is_commit_sha_plain [] h = absurd (ground arith)
is_commit_sha_plain (c ∷ t) h = ground arith

fetch_refs_plain : (g : GitInfo) → is_valid g ≡ true → any_dash (fetch_refs g) ≡ false
unfolding is_valid any_dash fetch_refs
fetch_refs_plain g h =
    let sha = is_commit_sha_plain g.sha (ground (arith, h)) in
    refs g.refspecs sha (ground (arith, h))
  where
    refs :
        (rs : List Bytes)
        → begins_with_dash g.sha ≡ false
        → any_dash rs ≡ false
        → any_dash (elim rs as (λ x. List Bytes) [ [] ↦ g.sha ∷ [] | r ∷ rs' ↦ r ∷ rs' ]) ≡ false
    refs [] sha plain = ground (arith, sha)
    refs (r ∷ rs) sha plain = plain

-- The checks have passed whenever there are commands.
sync_commands-valid :
    (g : GitInfo) (variables : List Variable) (dest : Bytes) (existing : Bool)
    (commands : List (List Bytes))
    → sync_commands g variables dest existing ≡ some commands
    → is_valid g ≡ true
unfolding sync_commands
sync_commands-valid g variables dest existing commands h = elim (Bool-cases (is_valid g)) [
  | inl valid ↦ valid
  | inr invalid ↦ absurd (ground (arith, h, invalid))
]

-- The options of the fetch.
abbrev fetch_options : GitInfo → List Variable → List Bytes
fetch_options g variables =
    codes "-q"
    ∷ codes "--prune"
    ∷ codes "--no-tags"
    ∷ (depth_flag (depth g variables) ++ flags variables (codes "GIT_FETCH_EXTRA_FLAGS"))

fetch_command-eq :
    (g : GitInfo) (variables : List Variable) (dest : Bytes)
    → fetch_command g variables dest
      ≡ git dest (codes "fetch" ∷ fetch_options g variables) ++ codes "origin" ∷ fetch_refs g
unfolding fetch_command git
fetch_command-eq g variables dest =
    ap
      (λ (x : List Bytes).
        git dest (codes "fetch" ∷ codes "-q" ∷ codes "--prune" ∷ codes "--no-tags" ∷ x))
      (sym (
        append_assoc (depth_flag (depth g variables))
          (flags variables (codes "GIT_FETCH_EXTRA_FLAGS")) (codes "origin" ∷ fetch_refs g)))

-- The commands around the one that adds the remote and the one that fetches.
regroup :
    (b w m : List (List Bytes)) (i r f f' : List Bytes)
    → f ≡ f'
    → (b ++ (i ∷ r ∷ f ∷ w)) ++ m ≡ (b ++ i ∷ []) ++ r ∷ f' ∷ (w ++ m)
regroup b w m i r f f' e =
    append_assoc b (i ∷ r ∷ f ∷ w) m
    ∙ (sym (append_assoc b (i ∷ []) (r ∷ f ∷ (w ++ m)))
        ∙ ap (λ (x : List Bytes). (b ++ i ∷ []) ++ r ∷ x ∷ (w ++ m)) e)

-- What follows the fetch begins with the checkout of the commit, unless GIT_CHECKOUT is false.
abbrev pub ChecksOut : GitInfo → List Variable → Bytes → List (List Bytes) → Type 0
ChecksOut g variables dest commands =
    (variable variables (codes "GIT_CHECKOUT") ≡ some (codes "false"))
    ⊎ ((rest : List (List Bytes)) × (commands
          ≡ git dest (codes "checkout" ∷ codes "-q" ∷ codes "-f" ∷ g.sha ∷ []) ∷ rest))

is_off-eq :
    (variables : List Variable)
    → is_off variables ≡ true
    → variable variables (codes "GIT_CHECKOUT") ≡ some (codes "false")
unfolding is_off
is_off-eq variables off = elim (Option-cases (variable variables (codes "GIT_CHECKOUT"))) [
  | inl missing ↦ absurd (ground (arith, off, missing))
  | inr (text, found) ↦
      found
      ∙ ap (λ (x : Bytes). some x) (bytes_eq→eq text (codes "false") (ground (arith, off, found)))
]

work-ChecksOut :
    (g : GitInfo) (variables : List Variable) (dest : Bytes) (existing : Bool)
    (more : List (List Bytes))
    → ChecksOut g variables dest (work_tree_commands g variables dest existing ++ more)
unfolding work_tree_commands
work-ChecksOut g variables dest existing more = elim (Bool-cases (is_off variables)) [
  | inl off ↦ inl (is_off-eq variables off)
  | inr on ↦ rw on (inr (_, refl))
]

-- The commands of a checkout have one that fetches from `origin`, whose arguments behind `origin`
-- are what is to be fetched, and then, unless the checkout is off, one that checks out the commit;
-- neither what is fetched, nor the commit, nor the URL of the repository begins with a dash, so that git reads none as an option.
pub sync_commands_lem :
    (g : GitInfo) (variables : List Variable) (dest : Bytes) (existing : Bool)
    (commands : List (List Bytes))
    → sync_commands g variables dest existing ≡ some commands
    → (before : List (List Bytes)) × (after : List (List Bytes)) × (options : List Bytes)
      × (commands
          ≡ before
            ++ git dest (codes "remote" ∷ codes "add" ∷ codes "origin" ∷ g.repo_url ∷ [])
              ∷ (git dest (codes "fetch" ∷ options) ++ codes "origin" ∷ fetch_refs g)
              ∷ after)
      × (any_dash (fetch_refs g) ≡ false)
      × (begins_with_dash g.repo_url ≡ false)
      × (begins_with_dash g.sha ≡ false)
      × ChecksOut g variables dest after
unfolding sync_commands is_valid
sync_commands_lem g variables dest existing commands h =
    let valid = sync_commands-valid g variables dest existing commands h in
    let before = if existing then remove_commands dest else [] in
    let work = work_tree_commands g variables dest existing in
    elim (Option-cases (submodules g variables dest)) [
      | inl failed ↦ absurd (ground (arith, h, valid, failed))
      | inr (more, found) ↦ (
        before ++ init_command g dest ∷ [],
        work ++ more,
        fetch_options g variables,
        commands_are more valid found
            ∙ regroup before work more (init_command g dest)
                (git dest (codes "remote" ∷ codes "add" ∷ codes "origin" ∷ g.repo_url ∷ []))
                (fetch_command g variables dest) _ (fetch_command-eq g variables dest),
        fetch_refs_plain g valid,
        ground (arith, valid),
        is_commit_sha_plain g.sha (ground (arith, valid)),
        work-ChecksOut g variables dest existing more,
      )
    ]
  where
    commands_are :
        (more : List (List Bytes))
        → is_valid g ≡ true
        → submodules g variables dest ≡ some more
        → commands
          ≡ ((if existing then remove_commands dest else [])
              ++ (init_command g dest
                  ∷ git dest (codes "remote" ∷ codes "add" ∷ codes "origin" ∷ g.repo_url ∷ [])
                  ∷ fetch_command g variables dest
                  ∷ work_tree_commands g variables dest existing))
            ++ more
    commands_are more valid found = ground (arith, h, valid, found)
