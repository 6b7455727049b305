-- ===== src/Script.antt =====
-- src/runner_daemon/script.rs: the shell words of a command, and the environment of a job from its
-- CI/CD variables. A map from names to values is an association list.
pub mod Words
pub mod Expand
pub mod Env
pub mod Subdir
pub mod Environment
pub mod Tests
use turboci.Prelude.{
  ℕ, zero, suc, Bool, true, false, not, ◌&&◌, ◌||◌, ◌==◌, if◌then◌else◌, List, [], ◌∷◌, ◌++◌, map,
  length, take, drop, Option, none, some, Bytes, codes, bytes_eq,
}
use turboci.Text.{replace, split_once, is_digit, is_alphabetic, is_alphanumeric}
use turboci.Job.{Variable, Job}

unfoldable pub quote : Bytes → Bytes
quote value = codes "'" ++ (replace (codes "'") (codes "'\\''") value ++ codes "'")

-- `join(" ")`.
join_words : List Bytes → Bytes
join_words [] = []
join_words (w ∷ []) = w
join_words (w ∷ v ∷ ws) = w ++ b' ' ∷ join_words (v ∷ ws)

unfoldable pub argv_line : List Bytes → Bytes
unfolding join_words
argv_line argv = join_words (map quote argv)

abbrev pub shell_prelude : Bytes
shell_prelude = codes "set -e\n(set -o pipefail) 2>/dev/null && set -o pipefail\n"

argv_lines : List (List Bytes) → Bytes
argv_lines [] = []
argv_lines (argv ∷ commands) = argv_line argv ++ (codes "\n" ++ argv_lines commands)

pub argv_script : List (List Bytes) → Bytes
unfolding argv_lines
argv_script commands = shell_prelude ++ argv_lines commands

step_lines : List Bytes → Bytes
step_lines [] = []
step_lines (line ∷ lines) =
    codes "printf '\\033[32;1m%s\\033[0;m\\n' "
    ++ (quote (codes "$ " ++ line) ++ (codes "\n" ++ (line ++ (codes "\n" ++ step_lines lines))))

pub step_script : List Bytes → Bytes
unfolding step_lines
step_script lines = shell_prelude ++ step_lines lines

unfoldable pub is_name_byte : ℕ → Bool
is_name_byte c = is_alphanumeric c || (c == b'_')

all_name_bytes : Bytes → Bool
all_name_bytes [] = true
all_name_bytes (c ∷ t) = is_name_byte c && all_name_bytes t

unfoldable pub is_valid_key : Bytes → Bool
unfolding all_name_bytes
is_valid_key [] = false
is_valid_key (c ∷ t) = (is_alphabetic c || (c == b'_')) && all_name_bytes t

abbrev pub Values : Type 0
Values = List (Bytes × Bytes)

-- The value of a name, and the empty text for an unknown one.
pub value_of : Values → Bytes → Bytes
value_of [] key = []
value_of ((k, v) ∷ vs) key = if bytes_eq k key then v else value_of vs key

pub leading_name : Bytes → ℕ
leading_name [] = 0
leading_name (c ∷ t) = if is_name_byte c then suc (leading_name t) else 0

-- The length of the name that a `$` is followed by; it does not begin with a digit.
pub name_length : Bytes → ℕ
unfolding leading_name
name_length [] = 0
name_length (c ∷ t) = if is_digit c then 0 else leading_name (c ∷ t)

-- `${...}`, from behind the `{`: what it gives and what is left.
expand_braced : Values → Bytes → Bytes × Bytes
expand_braced values braced = elim (split_once b'}' braced) [
  | none ↦ (codes "$", b'{' ∷ braced)
  | some (name, rest) ↦
      if is_valid_key name then (value_of values name, rest) else (codes "$", b'{' ∷ braced)
]

expand_name : Values → Bytes → Bytes × Bytes
expand_name values after =
    let len = name_length after in
    (if len == 0 then codes "$" else value_of values (take len after), drop len after)

-- A round of the loop of `expand`, from behind a `$`.
pub expand_step : Values → Bytes → Bytes × Bytes
unfolding expand_braced expand_name
expand_step values [] = expand_name values []
expand_step values (c ∷ t) =
    if c == b'$'
    then (codes "$", t)
    else if c == b'{'
    then expand_braced values t
    else expand_name values (c ∷ t)

-- The loop, with the rounds as fuel.
pub expand_loop : ℕ → Values → Bytes → Bytes
expand_loop zero values rest = rest
expand_loop (suc rounds) values rest = elim (split_once b'$' rest) [
  | none ↦ rest
  | some (before, after) ↦
      let (out, rest') = expand_step values after in
      before ++ (out ++ expand_loop rounds values rest')
]

-- Each round takes at least its `$`.
pub expand : Bytes → Values → Bytes
expand value values = expand_loop (length value) values value

-- `JobEnv::set` on the variables.
retain_other : Bytes → Values → Values
retain_other key [] = []
retain_other key ((k, v) ∷ vars) =
    let rest = retain_other key vars in if bytes_eq k key then rest else (k, v) ∷ rest

pub set : Values → Bytes → Bytes → Values
unfolding retain_other
set vars key value = retain_other key vars ++ (key, value) ∷ []

pub to_docker : Values → List Bytes
to_docker [] = []
to_docker ((k, v) ∷ vars) = (k ++ codes "=" ++ v) ∷ to_docker vars

pub or_empty : Option Bytes → Bytes
or_empty none = []
or_empty (some value) = value

-- What a variable is set to: its value, expanded unless it is raw.
pub given_value : Values → Variable → Bytes
unfolding or_empty
given_value values var =
    let value = or_empty var.value in if var.raw then value else expand value values

-- A round of the loop of `service_env`.
pub add_variable : Values → Values → Variable → Values
add_variable values vars var =
    if is_valid_key var.key then set vars var.key (given_value values var) else vars

pub add_variables : Values → Values → List Variable → Values
unfolding add_variable
add_variables values vars [] = vars
add_variables values vars (v ∷ vs) = add_variables values (add_variable values vars v) vs

pub is_visible : Variable → Bool
is_visible v = (v.public || v.internal) && (not v.masked && not v.file)

pub visible : List Variable → List Variable
unfolding is_visible
visible [] = []
visible (v ∷ vs) = let rest = visible vs in if is_visible v then v ∷ rest else rest

pub service_env : Job → List Variable → Values → List Bytes
unfolding to_docker add_variables visible
service_env job service_variables values =
    to_docker (add_variables values [] (visible job.variables ++ service_variables))
