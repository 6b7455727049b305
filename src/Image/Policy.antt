-- ===== src/Image/Policy.antt =====
-- The pull policy of a job, in src/runner_daemon/image.rs.
use turboci.Prelude.{
  ◌≡◌, sym, ap, ◌∙◌, true, Bool-cases, Option-cases, inl, inr, List, [], ◌∷◌, arith, none, some,
  Bytes, bytes_eq,
}
use turboci.Text.Slices.{bytes_eq_refl, bytes_eq→eq}
use turboci.Image.{PullPolicy, parse, contains, first_allowed, allowed_policies, resolve}

-- A policy that is listed and allowed.
abbrev Picked : List Bytes → List Bytes → PullPolicy → Type 0
Picked ps allowed policy =
    (name : Bytes) × (contains name ps ≡ true)
    × (contains name allowed ≡ true)
    × (parse name ≡ some policy)

contains_later :
    (p : Bytes) (ps allowed : List Bytes) (policy : PullPolicy)
    → Picked ps allowed policy
    → Picked (p ∷ ps) allowed policy
unfolding contains
contains_later p ps allowed policy (q, listed, inside, e) = (q, ground (arith, listed), inside, e)

first_allowed_sound :
    (allowed ps : List Bytes) (policy : PullPolicy)
    → first_allowed allowed ps ≡ some policy
    → Picked ps allowed policy
unfolding first_allowed contains
first_allowed_sound allowed [] policy h = absurd cc
first_allowed_sound allowed (p ∷ ps) policy h = elim (Bool-cases (contains p allowed)) [
  | inr outside ↦
      contains_later p ps allowed policy
        (first_allowed_sound allowed ps policy (ground (arith, h, outside)))
  | inl inside ↦ elim (Option-cases (parse p)) [
    | inl unknown ↦
        contains_later p ps allowed policy
          (first_allowed_sound allowed ps policy (ground (arith, h, inside, unknown)))
    | inr (found, e) ↦ (p, ground (arith, bytes_eq_refl p), inside, ground (arith, h, inside, e))
  ]
]

first_allowed-none :
    (allowed ps : List Bytes) (name : Bytes)
    → first_allowed allowed ps ≡ none
    → contains name ps ≡ true
    → contains name allowed ≡ true
    → parse name ≡ none
unfolding first_allowed contains
first_allowed-none allowed [] name h listed inside = absurd cc
first_allowed-none allowed (p ∷ ps) name h listed inside = elim (Bool-cases (bytes_eq p name)) [
  | inl here ↦
      let same = bytes_eq→eq p name here in
      let inside' : contains p allowed ≡ true = rw same inside in
      elim (Option-cases (parse p)) [
        | inl unknown ↦ ap parse (sym same) ∙ unknown
        | inr (found, e) ↦ absurd (ground (arith, h, inside', e))
      ]
  | inr there ↦ elim (Bool-cases (contains p allowed)) [
    | inr outside ↦
        first_allowed-none allowed ps name (ground (arith, h, outside))
          (ground (arith, listed, there)) inside
    | inl inside' ↦ elim (Option-cases (parse p)) [
      | inl unknown ↦
          first_allowed-none allowed ps name (ground (arith, h, inside', unknown))
            (ground (arith, listed, there)) inside
      | inr (found, e) ↦ absurd (ground (arith, h, inside', e))
    ]
  ]
]

-- A job that names policies runs only with a policy that it names and that the runner allows: one
-- of its allowed policies, or its default where it allows none in particular.
pub resolve_allowed :
    (p : Bytes) (ps : List Bytes) (default : Bytes) (allowed : List Bytes) (policy : PullPolicy)
    → resolve (p ∷ ps) default allowed ≡ some policy
    → (name : Bytes) × (contains name (p ∷ ps) ≡ true)
      × (contains name (allowed_policies default allowed) ≡ true)
      × (parse name ≡ some policy)
unfolding resolve
resolve_allowed p ps default allowed policy h =
    first_allowed_sound (allowed_policies default allowed) (p ∷ ps) policy h

-- A job is refused only if none of the names that it gives and the runner allows is a policy.
pub resolve_refused :
    (ps : List Bytes) (default : Bytes) (allowed : List Bytes) (name : Bytes)
    → resolve ps default allowed ≡ none
    → contains name ps ≡ true
    → contains name (allowed_policies default allowed) ≡ true
    → parse name ≡ none
unfolding resolve contains
resolve_refused [] default allowed name h listed inside = absurd cc
resolve_refused (p ∷ ps) default allowed name h listed inside =
    first_allowed-none (allowed_policies default allowed) (p ∷ ps) name h listed inside
