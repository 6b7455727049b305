-- ===== src/Scrubber/JobSecrets.antt =====
-- `with_job_secrets` of src/security/secret_scrubber.rs: the secrets of one job.
use turboci.Prelude.{
  ℕ, ◌≤◌, ◌≡◌, ◌+◌, refl, sym, ap, ◌∙◌, append_assoc, Bool, true, false, Bool-cases, Option, ◌⊎◌,
  inl, inr, not, ◌&&◌, ◌||◌, leb, if◌then◌else◌, List, [], ◌∷◌, ◌++◌, map, none, some, arith, Bytes,
  bytes_eq, length,
}
use turboci.Text.Slices.{bytes_eq_refl, bytes_eq→eq}
use turboci.Job.{Variable, Dependency, Job}
use turboci.Scrubber.{SecretScrubber, add_secret, member, is_empty}
use turboci.Scrubber.Encode.{percent_encode, encode_byte}

-- The values of the masked variables.
unfoldable pub masked_values : List Variable → List Bytes
masked_values [] = []
masked_values (v ∷ vs) =
    let rest = masked_values vs in
    if v.masked then elim v.value [ none ↦ rest | some value ↦ value ∷ rest ] else rest

unfoldable pub job_values : Job → List Bytes
unfolding masked_values
job_values job =
    masked_values job.variables ++ job.token ∷ map (λ (d : Dependency). d.token) job.dependencies

-- One round of the loop over the values.
add_value : SecretScrubber → Bytes → SecretScrubber
add_value r value =
    let encoded = percent_encode value in
    let r' = if bytes_eq encoded value then r else add_secret r encoded in add_secret r' value

add_values : SecretScrubber → List Bytes → SecretScrubber
unfolding add_value
add_values r [] = r
add_values r (v ∷ vs) = add_values (add_value r v) vs

-- `sort_by_key` by descending length; the sort is stable.
insert_by_length : Bytes → List Bytes → List Bytes
insert_by_length s [] = s ∷ []
insert_by_length s (x ∷ xs) =
    if leb (length x) (length s) then s ∷ x ∷ xs else x ∷ insert_by_length s xs

pub sort_by_length : List Bytes → List Bytes
unfolding insert_by_length
sort_by_length [] = []
sort_by_length (s ∷ ss) = insert_by_length s (sort_by_length ss)

pub with_job_secrets : SecretScrubber → Job → SecretScrubber
unfolding add_values
with_job_secrets r job =
    let all = add_values r (job_values job) in record all { secrets = sort_by_length all.secrets }

member-append :
    (s : Bytes) (xs ys : List Bytes) → member s (xs ++ ys) ≡ (member s xs || member s ys)
unfolding member
member-append s [] ys = refl
member-append s (x ∷ xs) ys = ground (arith, member-append s xs ys)

member_self : (s : Bytes) → member s (s ∷ []) ≡ true
unfolding member
member_self s = ground (arith, bytes_eq_refl s)

member-other : (s x : Bytes) → bytes_eq x s ≡ false → member s (x ∷ []) ≡ false
unfolding member
member-other s x h = ground arith

member-add_secret :
    (r : SecretScrubber) (s x : Bytes)
    → member s (add_secret r x).secrets ≡ (member s r.secrets || (not (is_empty x) && bytes_eq x s))
unfolding add_secret
member-add_secret r s x = elim (Bool-cases (bytes_eq x s)) [
  | inl e ↦
      let same : x ≡ s = bytes_eq→eq x s e in
      rw same (ground (arith, member-append s r.secrets (s ∷ []), member_self s, bytes_eq_refl s))
  | inr e ↦ ground (arith, member-append s r.secrets (x ∷ []), member-other s x e)
]

member-insert :
    (s x : Bytes) (xs : List Bytes)
    → member s (insert_by_length x xs) ≡ (bytes_eq x s || member s xs)
unfolding insert_by_length member
member-insert s x [] = ground arith
member-insert s x (y ∷ xs) = ground (arith, member-insert s x xs)

member-sort : (s : Bytes) (xs : List Bytes) → member s (sort_by_length xs) ≡ member s xs
unfolding sort_by_length member
member-sort s [] = refl
member-sort s (x ∷ xs) = ground (arith, member-insert s x (sort_by_length xs), member-sort s xs)

-- The secrets stand in the order of falling length.
abbrev pub Falling : ℕ → List Bytes → Type 0
Falling n [] = Unit
Falling n (s ∷ ss) = (length s ≤ n) × Falling (length s) ss

Falling-insert :
    (n : ℕ) (x : Bytes) (xs : List Bytes)
    → length x ≤ n
    → Falling n xs
    → Falling n (insert_by_length x xs)
unfolding insert_by_length
Falling-insert n x [] le f = (le, tt)
Falling-insert n x (y ∷ xs) le f = ground (arith, Falling-insert (length y) x xs)

Falling-weaken : (m n : ℕ) (xs : List Bytes) → m ≤ n → Falling m xs → Falling n xs
Falling-weaken m n [] le f = tt
Falling-weaken m n (x ∷ xs) le f = (omega arith, f.1)

Falling-sort : (xs : List Bytes) → (n : ℕ) × Falling n (sort_by_length xs)
unfolding sort_by_length
Falling-sort [] = (0, tt)
Falling-sort (x ∷ xs) =
    let (n, f) = Falling-sort xs in
    (
      n + length x,
      Falling-insert (n + length x) x (sort_by_length xs) (omega arith)
          (Falling-weaken n (n + length x) (sort_by_length xs) (omega arith) f),
    )

encode_not_empty : (v : Bytes) → is_empty v ≡ false → is_empty (percent_encode v) ≡ false
unfolding is_empty percent_encode encode_byte
encode_not_empty [] h = cc
encode_not_empty (b ∷ t) h = ground arith

-- A round adds the value and its encoded form, and keeps what was there.
member-add_value :
    (r : SecretScrubber) (v : Bytes)
    → is_empty v ≡ false
    → (member v (add_value r v).secrets ≡ true)
      × (member (percent_encode v) (add_value r v).secrets ≡ true)
unfolding add_value
member-add_value r v h = elim (Bool-cases (bytes_eq (percent_encode v) v)) [
  | inl e ↦
      let same = bytes_eq→eq (percent_encode v) v e in
      rw (e, add_value) (ground (arith, member-add_secret r v v, bytes_eq_refl v, same))
  | inr e ↦
      rw (e, add_value)
        (ground (
          arith,
          bytes_eq_refl v,
          bytes_eq_refl (percent_encode v),
          encode_not_empty v h,
          member-add_secret (add_secret r (percent_encode v)) v v,
          member-add_secret (add_secret r (percent_encode v)) (percent_encode v) v,
          member-add_secret r (percent_encode v) (percent_encode v),
        ))
]

add_value_keeps :
    (r : SecretScrubber) (v s : Bytes)
    → member s r.secrets ≡ true
    → member s (add_value r v).secrets ≡ true
unfolding add_value
add_value_keeps r v s h = ground (
  arith,
  member-add_secret (add_secret r (percent_encode v)) s v,
  member-add_secret r s (percent_encode v),
  member-add_secret r s v,
)

add_values_keeps :
    (r : SecretScrubber) (vs : List Bytes) (s : Bytes)
    → member s r.secrets ≡ true
    → member s (add_values r vs).secrets ≡ true
unfolding add_values
add_values_keeps r [] s h = h
add_values_keeps r (v ∷ vs) s h = add_values_keeps (add_value r v) vs s (add_value_keeps r v s h)

add_values_adds :
    (r : SecretScrubber) (before after : List Bytes) (v : Bytes)
    → is_empty v ≡ false
    → (member v (add_values r (before ++ v ∷ after)).secrets ≡ true)
      × (member (percent_encode v) (add_values r (before ++ v ∷ after)).secrets ≡ true)
unfolding add_values
add_values_adds r [] after v h =
    let (plain, encoded) = member-add_value r v h in
    (
      add_values_keeps (add_value r v) after v plain,
      add_values_keeps (add_value r v) after (percent_encode v) encoded,
    )
add_values_adds r (x ∷ before) after v h = add_values_adds (add_value r x) before after v h

-- The value of a masked variable.
abbrev pub MaskedValue : List Variable → Bytes → Type 0
MaskedValue [] value = ⊥
MaskedValue (v ∷ vs) value = ((v.masked ≡ true) × (v.value ≡ some value)) ⊎ MaskedValue vs value

-- The token with which a dependency's artifacts are downloaded.
abbrev pub DependencyToken : List Dependency → Bytes → Type 0
DependencyToken [] value = ⊥
DependencyToken (d ∷ ds) value = (d.token ≡ value) ⊎ DependencyToken ds value

-- What docs/pipelines.md says is masked besides the patterns, of what the job itself brings.
abbrev pub JobSecret : Job → Bytes → Type 0
JobSecret job value =
    MaskedValue job.variables value ⊎ ((job.token ≡ value) ⊎ DependencyToken job.dependencies value)

abbrev Within : Bytes → List Bytes → Type 0
Within value values =
    (before : List Bytes) × (after : List Bytes) × (values ≡ before ++ value ∷ after)

Within-later : (value x : Bytes) (xs : List Bytes) → Within value xs → Within value (x ∷ xs)
Within-later value x xs h = (x ∷ h.0, h.1, ap (◌∷◌ x) h.2)

Within-left : (value : Bytes) (xs ys : List Bytes) → Within value xs → Within value (xs ++ ys)
Within-left value xs ys h =
    (h.0, h.1 ++ ys, ap (λ (l : List Bytes). l ++ ys) h.2 ∙ append_assoc h.0 (value ∷ h.1) ys)

Within-right : (value : Bytes) (xs ys : List Bytes) → Within value ys → Within value (xs ++ ys)
Within-right value xs ys h =
    (xs ++ h.0, h.1, ap (◌++◌ xs) h.2 ∙ sym (append_assoc xs h.0 (value ∷ h.1)))

-- The values, with a variable's in front of those of the rest, if it is masked.
value-Within :
    (masked : Bool) (given : Option Bytes) (value : Bytes) (rest : List Bytes)
    → ((masked ≡ true) × (given ≡ some value)) ⊎ Within value rest
    → Within value (if masked then elim given [ none ↦ rest | some x ↦ x ∷ rest ] else rest)
value-Within true none value rest (inl h) = absurd (cc (h.1))
value-Within true (some x) value rest (inl h) = ([], rest, cc (h.1))
value-Within false given value rest (inl h) = absurd (cc (h.0))
value-Within true none value rest (inr h) = h
value-Within true (some x) value rest (inr h) = Within-later value x rest h
value-Within false given value rest (inr h) = h

masked-Within :
    (vs : List Variable) (value : Bytes) → MaskedValue vs value → Within value (masked_values vs)
unfolding masked_values
masked-Within [] value h = absurd h
masked-Within (v ∷ vs) value (inl h) =
    value-Within v.masked v.value value (masked_values vs) (inl h)
masked-Within (v ∷ vs) value (inr h) =
    value-Within v.masked v.value value (masked_values vs) (inr (masked-Within vs value h))

token-Within :
    (ds : List Dependency) (value : Bytes)
    → DependencyToken ds value
    → Within value (map (λ (d : Dependency). d.token) ds)
token-Within [] value h = absurd h
token-Within (d ∷ ds) value (inl e) =
    let tokens = map (λ (d : Dependency). d.token) ds in ([], tokens, ap (λ x. x ∷ tokens) e)
token-Within (d ∷ ds) value (inr h) = Within-later value d.token _ (token-Within ds value h)

secret-Within : (job : Job) (value : Bytes) → JobSecret job value → Within value (job_values job)
unfolding job_values
secret-Within job value (inl h) =
    Within-left value (masked_values job.variables) _ (masked-Within job.variables value h)
secret-Within job value (inr (inl e)) =
    let tokens = map (λ (d : Dependency). d.token) job.dependencies in
    Within-right value (masked_values job.variables) (job.token ∷ tokens)
      ([], tokens, ap (λ x. x ∷ tokens) e)
secret-Within job value (inr (inr h)) =
    Within-right value (masked_values job.variables) _
      (Within-later value job.token _ (token-Within job.dependencies value h))

-- For a value that is not empty and is that of a masked variable, the job token or the token of a
-- dependency, and a secret that the scrubber had: the job's scrubber has the value, its
-- URL-encoded form and that secret among its secrets, and its secrets stand in order of falling
-- length.
pub with_job_secrets_lem :
    (r : SecretScrubber) (job : Job) (v s : Bytes)
    → JobSecret job v
    → is_empty v ≡ false
    → member s r.secrets ≡ true
    → let secrets = (with_job_secrets r job).secrets in
      (member v secrets ≡ true)
      × (member (percent_encode v) secrets ≡ true)
      × (member s secrets ≡ true)
      × ((n : ℕ) × Falling n secrets)
unfolding with_job_secrets
with_job_secrets_lem r job v s is_secret full known =
    let all = add_values r (job_values job) in
    let (before, after, values) = secret-Within job v is_secret in
    let (plain, encoded) = add_values_adds r before after v full in
    (
      member-sort v all.secrets ∙ rw values plain,
      member-sort (percent_encode v) all.secrets ∙ rw values encoded,
      member-sort s all.secrets ∙ add_values_keeps r (job_values job) s known,
      Falling-sort all.secrets,
    )
