-- ===== src/Executor/Workspace/Isolation.antt =====
-- Which jobs of src/runner_daemon/executor.rs share a workspace.
use turboci.Prelude.{
  ℕ, ◌≡◌, refl, ap, sym, ◌∙◌, Bool, true, false, if◌then◌else◌, [], ◌∷◌, ◌++◌, drop, Option, none,
  some, ◌⊎◌, inl, inr, append-nil, Bytes, codes, arith,
}
use turboci.Text.{has_byte, split_once}
use turboci.Text.Number.{to_decimal, has_byte-to_decimal, to_decimal_inj}
use turboci.Job.{Job, project_id}
use turboci.Executor.Workspace.{protected_of, shared_name, own_name, workspace_for, workspace}

split_once-append :
    (c : ℕ) (d r : Bytes) → has_byte c d ≡ false → split_once c (d ++ c ∷ r) ≡ some (d, r)
unfolding split_once has_byte
split_once-append c [] r h = ground arith
split_once-append c (b ∷ d) r h = ground (arith, split_once-append c d r)

split_once-missing : (c : ℕ) (d : Bytes) → has_byte c d ≡ false → split_once c d ≡ none
unfolding split_once has_byte
split_once-missing c [] h = refl
split_once-missing c (b ∷ d) h = ground (arith, split_once-missing c d)

no_dash : (n : ℕ) → has_byte b'-' (to_decimal n) ≡ false
no_dash n = has_byte-to_decimal b'-' n (omega arith)

pair_inj :
    {a b c d : Bytes}
    → ◌≡◌ {A = Option (Bytes × Bytes)} (some (a, b)) (some (c, d))
    → (a ≡ c) × (b ≡ d)
pair_inj e = (cc, cc)

some_none : {x : Bytes × Bytes} {P : Type 0} → some x ≡ none → P
some_none e = cc

-- Two texts that begin with a number and a dash agree if the numbers and the rests do.
dash_inj :
    (m n : ℕ) (r t : Bytes)
    → to_decimal m ++ b'-' ∷ r ≡ to_decimal n ++ b'-' ∷ t
    → (m ≡ n) × (r ≡ t)
dash_inj m n r t e =
    let both = pair_inj (
      sym (split_once-append b'-' (to_decimal m) r (no_dash m))
      ∙ (ap (split_once b'-') e ∙ split_once-append b'-' (to_decimal n) t (no_dash n))) in
    (to_decimal_inj m n both.0, both.1)

-- A text with a dash is no number.
dash_missing :
    {P : Type 0} (m n : ℕ) (r : Bytes) → to_decimal m ++ b'-' ∷ r ≡ to_decimal n ++ [] → P
dash_missing m n r e = some_none (
    sym (split_once-append b'-' (to_decimal m) r (no_dash m))
    ∙ (ap (split_once b'-') (e ∙ append-nil (to_decimal n))
        ∙ split_once-missing b'-' (to_decimal n) (no_dash n)))

abbrev suffix : Bool → Bytes
suffix is_protected = if is_protected then codes "-protected" else []

slot_inj :
    (m n : ℕ) (p q : Bool) → to_decimal m ++ suffix p ≡ to_decimal n ++ suffix q → (m ≡ n) × (p ≡ q)
slot_inj m n true true e = ((dash_inj m n _ _ e).0, refl)
slot_inj m n true false e = dash_missing m n _ e
slot_inj m n false true e = dash_missing n m _ (sym e)
slot_inj m n false false e = (to_decimal_inj m n (sym (append-nil _) ∙ (e ∙ append-nil _)), refl)

shared_name_inj :
    (project project' slot slot' : ℕ) (p q : Bool)
    → shared_name project slot p ≡ shared_name project' slot' q
    → (project ≡ project') × (slot ≡ slot') × (p ≡ q)
unfolding shared_name
shared_name_inj project project' slot slot' p q e =
    let outer = dash_inj project project' _ _ (ap (drop 8) e) in
    let inner = slot_inj slot slot' p q outer.1 in (outer.0, inner.0, inner.1)

own_name_inj : (m n : ℕ) → own_name m ≡ own_name n → m ≡ n
unfolding own_name
own_name_inj m n e = to_decimal_inj m n (ap (drop 4) e)

abbrev begins : Bytes → ℕ
begins [] = 0
begins (c ∷ t) = c

kinds_differ : (project slot id : ℕ) (p : Bool) → shared_name project slot p ≡ own_name id → ⊥
unfolding shared_name own_name
kinds_differ project slot id p e = omega (arith, ap begins e)

-- Who may be in a workspace: jobs of the same project in the same slot, of both of which GitLab
-- says whether the ref is protected, and the same; or the job alone.
abbrev pub SameOwner : Job → Job → Type 0
SameOwner a b =
    ((project_id a ≡ project_id b)
      × (a.project_slot ≡ b.project_slot)
      × ((is_protected : Bool) × (protected_of a.git_info ≡ some is_protected)
          × (protected_of b.git_info ≡ some is_protected)))
    ⊎ (a.id ≡ b.id)

same_owner :
    (a b : Job) (p q : Option Bool)
    → protected_of a.git_info ≡ p
    → protected_of b.git_info ≡ q
    → (workspace_for a p).0 ≡ (workspace_for b q).0
    → SameOwner a b
unfolding workspace_for
same_owner a b (some p) (some q) ea eb e =
    let same = shared_name_inj _ _ _ _ p q e in
    inl (same.0, same.1, (p, ea, eb ∙ ap some (sym same.2)))
same_owner a b (some p) none ea eb e = absurd (kinds_differ _ _ _ p e)
same_owner a b none (some q) ea eb e = absurd (kinds_differ _ _ _ q (sym e))
same_owner a b none none ea eb e = inr (own_name_inj _ _ e)

-- Two jobs are given the same workspace only if they belong to the same project, run in the same of
-- its slots, and GitLab says of both that the ref is protected, or of both that it is not; or if
-- they have the same id. So a job of which GitLab does not say it shares no workspace.
pub workspace_isolated : (a b : Job) → (workspace a).0 ≡ (workspace b).0 → SameOwner a b
unfolding workspace
workspace_isolated a b e = same_owner a b _ _ refl refl e
