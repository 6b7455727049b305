-- ===== src/Script/Environment.antt =====
-- `job_env` of src/runner_daemon/script.rs. Every file is in the directory `<subdir>.tmp` of the
-- job's directory on the host, so that it is given by its name.
use turboci.Prelude.{
  ℕ, ◌≡◌, refl, ap, ◌∙◌, true, false, Bool, Bool-cases, inl, inr, if◌then◌else◌, List, [], ◌∷◌,
  ◌++◌, arith, Option, none, some, Bytes, codes, bytes_eq,
}
use turboci.Text.Number.{to_decimal}
use turboci.Text.Slices.{bytes_eq_refl}
use turboci.Job.{Variable, Image, Job, timeout_secs}
use turboci.Script.{Values, value_of, set, or_empty, is_valid_key, given_value}
use turboci.Script.Subdir.{project_subdir}
use turboci.Script.Env.{mentions, value_of-set-same, value_of-set-other}

pub record JobEnv : Type 0 where
  pub vars : Values
  pub files : Values

pub record RunnerVars : Type 0 where
  pub disposable : Bool
  pub ca_pem : Option Bytes

subdir_of : Job → Bytes
subdir_of job = elim (project_subdir job) [ none ↦ codes "project" | some dir ↦ dir ]

pub tmp_dir : Job → Bytes → Bytes
unfolding subdir_of
tmp_dir job builds_dir = builds_dir ++ (codes "/" ++ (subdir_of job ++ codes ".tmp"))

timeout_of : Option ℕ → ℕ
timeout_of none = 3600
timeout_of (some secs) = secs

image_vars : Option Image → Values → Values
image_vars none vars = vars
image_vars (some image) vars = set vars (codes "CI_JOB_IMAGE") image.name

kind_vars : Job → RunnerVars → Values → Values
unfolding image_vars
kind_vars job runner vars =
    if runner.disposable
    then image_vars job.image (set vars (codes "CI_DISPOSABLE_ENVIRONMENT") (codes "true"))
    else set vars (codes "CI_SHARED_ENVIRONMENT") (codes "true")

-- What the runner defines itself, before the job's variables.
default_vars : Job → Bytes → RunnerVars → Values
unfolding subdir_of timeout_of kind_vars
default_vars job builds_dir runner =
    let v1 = set [] (codes "CI_BUILDS_DIR") builds_dir in
    let v2 = set v1 (codes "CI_PROJECT_DIR") (builds_dir ++ (codes "/" ++ subdir_of job)) in
    let v3 = set v2 (codes "CI_SERVER") (codes "yes") in
    let v4 = set v3 (codes "CI_JOB_STATUS") (codes "running") in
    kind_vars job runner
      (set v4 (codes "CI_JOB_TIMEOUT") (to_decimal (timeout_of (timeout_secs job))))

abbrev ca_key : Bytes
ca_key = codes "CI_SERVER_TLS_CA_FILE"

with_ca : Option Bytes → Bytes → JobEnv → JobEnv
with_ca none tmp env = env
with_ca (some pem) tmp env =
    let path = tmp ++ (codes "/" ++ ca_key) in
    record {
      vars = set (set env.vars (codes "GIT_SSL_CAINFO") path) ca_key path;
      files = env.files ++ (ca_key, pem) ∷ [];
    }

default_env : Job → Bytes → RunnerVars → JobEnv
unfolding default_vars with_ca
default_env job builds_dir runner =
    with_ca runner.ca_pem (tmp_dir job builds_dir)
      (record { vars = default_vars job builds_dir runner; files = [] })

-- `values.insert` of every valid variable: the last of a name is found.
insert_values : Values → List Variable → Values
insert_values values [] = values
insert_values values (v ∷ vs) =
    insert_values (if is_valid_key v.key then (v.key, or_empty v.value) ∷ values else values) vs

-- What the variables expand with.
pub all_values : Job → Bytes → RunnerVars → Values
unfolding insert_values default_env
all_values job builds_dir runner =
    insert_values (default_env job builds_dir runner).vars job.variables

-- A round of the loop over the variables.
pub add_job_variable : Values → Bytes → JobEnv → Variable → JobEnv
add_job_variable values tmp env v =
    let value = given_value values v in
    if is_valid_key v.key
    then if v.file
      then record {
        files = set env.files v.key value;
        vars = set env.vars v.key (tmp ++ (codes "/" ++ v.key));
      }
      else record env { vars = set env.vars v.key value }
    else env

pub add_job_variables : Values → Bytes → JobEnv → List Variable → JobEnv
unfolding add_job_variable
add_job_variables values tmp env [] = env
add_job_variables values tmp env (v ∷ vs) =
    add_job_variables values tmp (add_job_variable values tmp env v) vs

pub job_env : Job → Bytes → RunnerVars → JobEnv
unfolding add_job_variables default_env
job_env job builds_dir runner =
    add_job_variables (all_values job builds_dir runner) (tmp_dir job builds_dir)
      (default_env job builds_dir runner) job.variables

add_job_variable-other :
    (values : Values) (tmp : Bytes) (env : JobEnv) (v : Variable) (key : Bytes)
    → bytes_eq v.key key ≡ false
    → let env' = add_job_variable values tmp env v in
      (value_of env'.vars key ≡ value_of env.vars key)
      × (value_of env'.files key ≡ value_of env.files key)
unfolding add_job_variable given_value
add_job_variable-other values tmp env v key h = elim (Bool-cases (is_valid_key v.key)) [
  | inr invalid ↦ rw invalid (refl, refl)
  | inl valid ↦ elim (Bool-cases v.file) [
    | inl file ↦
        rw (valid, file)
          (
            value_of-set-other env.vars v.key (tmp ++ (codes "/" ++ v.key)) key h,
            value_of-set-other env.files v.key (given_value values v) key h,
          )
    | inr plain ↦
        rw (valid, plain) (value_of-set-other env.vars v.key (given_value values v) key h, refl)
  ]
]

add_job_variables-other :
    (values : Values) (tmp : Bytes) (env : JobEnv) (vs : List Variable) (key : Bytes)
    → mentions key vs ≡ false
    → let env' = add_job_variables values tmp env vs in
      (value_of env'.vars key ≡ value_of env.vars key)
      × (value_of env'.files key ≡ value_of env.files key)
unfolding add_job_variables
add_job_variables-other values tmp env [] key h = (refl, refl)
add_job_variables-other values tmp env (v ∷ vs) key h =
    let (vars, files) =
      add_job_variables-other values tmp (add_job_variable values tmp env v) vs key
        (ground (arith, h)) in
    let (vars', files') = add_job_variable-other values tmp env v key (ground (arith, h)) in
    (vars ∙ vars', files ∙ files')

add_file :
    (values : Values) (tmp : Bytes) (env : JobEnv) (earlier later : List Variable) (v : Variable)
    → is_valid_key v.key ≡ true
    → mentions v.key later ≡ false
    → v.file ≡ true
    → let env' = add_job_variables values tmp env (earlier ++ v ∷ later) in
      (value_of env'.vars v.key ≡ tmp ++ (codes "/" ++ v.key))
      × (value_of env'.files v.key ≡ given_value values v)
unfolding add_job_variables add_job_variable given_value
add_file values tmp env [] later v valid last file =
    let (vars, files) =
      add_job_variables-other values tmp (add_job_variable values tmp env v) later v.key last in
    (
      vars
          ∙ rw (valid, file)
              (value_of-set-same env.vars v.key (tmp ++ (codes "/" ++ v.key)) v.key
                (bytes_eq_refl v.key)),
      files
          ∙ rw (valid, file)
              (value_of-set-same env.files v.key (given_value values v) v.key
                (bytes_eq_refl v.key)),
    )
add_file values tmp env (e ∷ earlier) later v valid last file =
    add_file values tmp (add_job_variable values tmp env e) earlier later v valid last file

-- For the last variable of a valid name, if it is of the file type: the job's environment has the
-- path of a file of that name in the project's temporary directory, and that file holds the
-- variable's value, expanded unless it is raw.
pub job_env_file :
    (job : Job) (builds_dir : Bytes) (runner : RunnerVars) (earlier later : List Variable)
    (v : Variable)
    → job.variables ≡ earlier ++ v ∷ later
    → is_valid_key v.key ≡ true
    → mentions v.key later ≡ false
    → v.file ≡ true
    → let env = job_env job builds_dir runner in
      (value_of env.vars v.key ≡ tmp_dir job builds_dir ++ (codes "/" ++ v.key))
      × (value_of env.files v.key ≡ given_value (all_values job builds_dir runner) v)
unfolding job_env
job_env_file job builds_dir runner earlier later v listed valid last file =
    let values = all_values job builds_dir runner in
    let tmp = tmp_dir job builds_dir in
    let start = default_env job builds_dir runner in
    let (vars, files) = add_file values tmp start earlier later v valid last file in
    let same = ap (add_job_variables values tmp start) listed in
    (
      ap (λ (e : JobEnv). value_of e.vars v.key) same ∙ vars,
      ap (λ (e : JobEnv). value_of e.files v.key) same ∙ files,
    )
