-- ===== src/Script/Tests.antt =====
-- Runs of src/runner_daemon/script.rs and the theorems at concrete inputs.
use turboci.Prelude.{
  ◌<◌, length, ◌++◌, length, ◌≡◌, refl, true, false, [], ◌∷◌, none, some, Bytes, codes,
}
use turboci.Text.{
  trim, trim_start, trim_end, is_blank, whitespace_width, has_byte, replace, split_once, is_digit,
  is_alphabetic, is_alphanumeric,
}
use turboci.Job.{last_value, not_empty, Variable, Job}
use turboci.Script.{
  quote, argv_line, is_valid_key, is_name_byte, name_length, set, expand_step, Values, value_of,
  expand, expand_loop, given_value, add_variables, service_env,
}
use turboci.Script.Words.{between, sh_words, argv_line_lem}
use turboci.Script.Expand.{expand_round, escape, expand-escape}
use turboci.Script.Subdir.{
  project_subdir, clone_path, relative_path, values_onto, strip_prefix, split_first, all_parts,
  is_part, all_part_bytes, walk, split_parts, is_inside, project_subdir_lem,
}
use turboci.Script.Environment.{RunnerVars, job_env, tmp_dir, all_values, job_env_file}
use turboci.Script.Env.{last_variable_wins, redact, service_env-redact}

quoted : argv_line (codes "a'b" ∷ codes "c d" ∷ []) ≡ codes "'a'\\''b' 'c d'"
unfolding argv_line quote replace
quoted = refl

abbrev values : Values
values = (codes "A", codes "x") ∷ (codes "B_1", codes "y z") ∷ []

expanded : expand (codes "$A/${B_1}$$ $no ${1} $") values ≡ codes "x/y z$  ${1} $"
unfolding expand expand_loop split_once expand_step name_length is_digit is_name_byte
    is_alphanumeric value_of is_valid_key
expanded = refl

abbrev variable : Bytes → Bytes → Variable
variable key value = record {
  key = key;
  value = some value;
  public = true;
  masked = false;
  raw = false;
  file = false;
  internal = false;
}

abbrev job : Job
job = record {
  id = 7;
  token = codes "glcbt-1";
  allow_git_fetch = true;
  job_info = none;
  git_info = none;
  runner_info = none;
  variables =
      variable (codes "A") (codes "x")
      ∷ record (variable (codes "KEY") (codes "s3cret")) { masked = true }
      ∷ [];
  steps = [];
  image = none;
  services = [];
  artifacts = none;
  cache = [];
  credentials = [];
  dependencies = [];
  timeout = 3600;
  hooks = [];
  project_slot = 0;
}

service :
    service_env job (variable (codes "DB") (codes "$A.db") ∷ []) values
    ≡ codes "A=x" ∷ codes "DB=x.db" ∷ []
unfolding service_env is_valid_key is_alphabetic is_name_byte is_alphanumeric set given_value expand
    expand_loop split_once expand_step name_length value_of
service = refl

argv_line_lem_example :
    sh_words between (argv_line (codes "git" ∷ codes "a'b; rm -rf $HOME" ∷ []))
    ≡ some (codes "git" ∷ codes "a'b; rm -rf $HOME" ∷ [])
argv_line_lem_example = argv_line_lem (codes "git" ∷ codes "a'b; rm -rf $HOME" ∷ [])

expand_round_example :
    let (out, rest) = expand_step values (codes "A/${B_1}") in
    (expand (codes "=$A/${B_1}") values ≡ codes "=" ++ (out ++ expand rest values))
    × (length rest < 10)
unfolding split_once
expand_round_example = expand_round values (codes "=$A/${B_1}") (codes "=") (codes "A/${B_1}") refl

expand-escape_example : expand (escape (codes "a$A$")) values ≡ codes "a$A$"
expand-escape_example = expand-escape (codes "a$A$") values

last_variable_wins_example :
    value_of
      (add_variables values []
        (variable (codes "A") (codes "1") ∷ variable (codes "A") (codes "$B_1") ∷ []))
      (codes "A")
    ≡ given_value values (variable (codes "A") (codes "$B_1"))
unfolding is_valid_key is_alphabetic
last_variable_wins_example =
    last_variable_wins values [] (variable (codes "A") (codes "1") ∷ []) []
      (variable (codes "A") (codes "$B_1")) refl refl

service_env-redact_example :
    service_env (record job { variables = redact (λ v. none) job.variables }) [] values
    ≡ service_env job [] values
service_env-redact_example = service_env-redact (λ v. none) job [] values

abbrev clone_job : Job
clone_job = record job {
  variables =
      variable (codes "GIT_CLONE_PATH") (codes " $CI_BUILDS_DIR/$A/src ")
      ∷ variable (codes "A") (codes "x")
      ∷ [];
}

subdir : project_subdir clone_job ≡ some (codes "x/src")
unfolding project_subdir clone_path relative_path values_onto strip_prefix is_inside split_parts
    split_first all_parts is_part all_part_bytes last_value not_empty trim trim_start trim_end
    is_blank whitespace_width expand expand_loop split_once expand_step name_length is_digit
    is_name_byte is_alphanumeric value_of has_byte
subdir = refl

project_subdir_lem_example :
    walk 0 (split_parts (codes "x/src")) ≡ some (length (split_parts (codes "x/src")))
project_subdir_lem_example = project_subdir_lem clone_job (codes "x/src") subdir

abbrev key_file : Variable
key_file = record (variable (codes "KEY") (codes "<$A>")) { file = true }

abbrev file_job : Job
file_job = record job { variables = variable (codes "A") (codes "x") ∷ key_file ∷ [] }

abbrev runner : RunnerVars
runner = record { disposable = true; ca_pem = none }

job_env_file_example :
    let env = job_env file_job (codes "/builds") runner in
    (value_of env.vars (codes "KEY") ≡ tmp_dir file_job (codes "/builds") ++ codes "/KEY")
    × (value_of env.files (codes "KEY")
        ≡ given_value (all_values file_job (codes "/builds") runner) key_file)
unfolding is_valid_key is_name_byte is_alphanumeric is_alphabetic is_digit
job_env_file_example =
    job_env_file file_job (codes "/builds") runner (variable (codes "A") (codes "x") ∷ []) []
      key_file refl refl refl refl
