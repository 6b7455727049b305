-- ===== src/Script/Env.antt =====
-- The environment that src/runner_daemon/script.rs builds from variables.
use turboci.Prelude.{
  ◌≡◌, refl, ◌∙◌, true, false, Bool, Bool-cases, inl, inr, ◌||◌, not, if◌then◌else◌, List, [], ◌∷◌,
  ◌++◌, arith, Option, Bytes, bytes_eq,
}
use turboci.Text.Slices.{bytes_eq_refl, bytes_eq→eq}
use turboci.Job.{Variable, Job}
use turboci.Script.{
  Values, value_of, retain_other, set, is_valid_key, given_value, add_variable, add_variables,
  is_visible, visible, service_env,
}

pub value_of-set-same :
    (vars : Values) (key value other : Bytes)
    → bytes_eq key other ≡ true
    → value_of (set vars key value) other ≡ value
unfolding value_of set retain_other
value_of-set-same [] key value other h = ground (arith, h)
value_of-set-same ((k, v) ∷ vars) key value other h =
    let same = bytes_eq→eq key other h in
    elim (Bool-cases (bytes_eq k key)) [
      | inl gone ↦ ground (arith, gone, value_of-set-same vars key value other h)
      | inr kept ↦
          let away : bytes_eq k other ≡ false = rw (← same) kept in
          ground (arith, kept, away, value_of-set-same vars key value other h)
    ]

pub value_of-set-other :
    (vars : Values) (key value other : Bytes)
    → bytes_eq key other ≡ false
    → value_of (set vars key value) other ≡ value_of vars other
unfolding value_of set retain_other
value_of-set-other [] key value other h = ground (arith, h)
value_of-set-other ((k, v) ∷ vars) key value other h = elim (Bool-cases (bytes_eq k key)) [
  | inl gone ↦
      let away : bytes_eq k other ≡ false = rw (bytes_eq→eq k key gone) h in
      ground (arith, gone, away, value_of-set-other vars key value other h)
  | inr kept ↦ ground (arith, kept, value_of-set-other vars key value other h)
]

-- Whether a later variable has the name.
abbrev pub mentions : Bytes → List Variable → Bool
mentions key [] = false
mentions key (v ∷ vs) = bytes_eq v.key key || mentions key vs

add_variables-other :
    (values vars : Values) (vs : List Variable) (key : Bytes)
    → mentions key vs ≡ false
    → value_of (add_variables values vars vs) key ≡ value_of vars key
unfolding add_variables add_variable
add_variables-other values vars [] key h = refl
add_variables-other values vars (v ∷ vs) key h =
    let away : bytes_eq v.key key ≡ false = ground (arith, h) in
    let later : mentions key vs ≡ false = ground (arith, h) in
    elim (Bool-cases (is_valid_key v.key)) [
      | inl valid ↦
          rw (valid, add_variables)
            (add_variables-other values (set vars v.key (given_value values v)) vs key later
              ∙ value_of-set-other vars v.key (given_value values v) key away)
      | inr invalid ↦ rw (invalid, add_variables) (add_variables-other values vars vs key later)
    ]

-- The last variable of a name that is valid gives its value, the service's own variables after the
-- job's included: earlier ones of the name, and variables of other names, do not change it.
pub last_variable_wins :
    (values vars : Values) (earlier later : List Variable) (v : Variable)
    → is_valid_key v.key ≡ true
    → mentions v.key later ≡ false
    → value_of (add_variables values vars (earlier ++ v ∷ later)) v.key ≡ given_value values v
unfolding add_variables add_variable
last_variable_wins values vars [] later v valid last =
    rw (valid, add_variables)
      (add_variables-other values (set vars v.key (given_value values v)) later v.key last
        ∙ value_of-set-same vars v.key (given_value values v) v.key (bytes_eq_refl v.key))
last_variable_wins values vars (e ∷ earlier) later v valid last =
    last_variable_wins values (add_variable values vars e) earlier later v valid last

-- The variables that a service must not see: those that are masked, files, or neither public nor
-- internal.
abbrev pub is_hidden : Variable → Bool
is_hidden v = v.masked || (v.file || not (v.public || v.internal))

-- Other values for them.
abbrev pub redact : (Variable → Option Bytes) → List Variable → List Variable
redact other [] = []
redact other (v ∷ vs) = (if is_hidden v then record v { value = other v } else v) ∷ redact other vs

visible-redact :
    (other : Variable → Option Bytes) (vs : List Variable) → visible (redact other vs) ≡ visible vs
unfolding visible is_visible
visible-redact other [] = refl
visible-redact other (v ∷ vs) = elim (Bool-cases (is_hidden v)) [
  | inl hidden ↦ ground (arith, hidden, visible-redact other vs)
  | inr shown ↦ ground (arith, shown, visible-redact other vs)
]

-- For the same values to expand with, the environment of a service is the same whatever the values
-- of the job's variables are that are masked, files, or neither public nor internal.
pub service_env-redact :
    (other : Variable → Option Bytes) (job : Job) (service_variables : List Variable)
    (values : Values)
    → service_env (record job { variables = redact other job.variables }) service_variables values
      ≡ service_env job service_variables values
unfolding service_env
service_env-redact other job service_variables values = rw (visible-redact other job.variables) refl
