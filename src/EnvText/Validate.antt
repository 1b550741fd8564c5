-- ===== src/EnvText/Validate.antt =====
-- `keysOf` and `validateEnvironmentText` of src/modules/variable-set/env-text.ts.
use aoox_api.Prelude.{
  ℕ, suc, ◌+◌, not, ◌||◌, Option, none, some, List, [], ◌∷◌, ◌++◌, map, leb, ltb, ◌==◌,
  if◌then◌else◌, Text, codes, text_eq, is_empty, trim, starts_with, index_of, length, take, drop,
  includes, is_some, given,
}
use aoox_api.EnvText.{hash, split_lines, is_env_name, parse_env_lines}
use aoox_api.EnvText.References.{Reference, references, count_opens}

-- `new Set(xs)`, from the set `seen` on.
abbrev pub set_add : List Text → Text → List Text
set_add seen x = if includes seen x then seen else seen ++ (x ∷ [])

unfoldable pub set_from : List Text → List Text → List Text
unfolding includes
set_from seen [] = seen
set_from seen (x ∷ xs) = set_from (set_add seen x) xs

unfoldable pub unique : List Text → List Text
unfolding set_from
unique xs = set_from [] xs

unfoldable pub keys_of : Text → List Text
unfolding unique parse_env_lines
keys_of text = unique (map (λ e. e.0) (parse_env_lines text))

abbrev pub env_text_max : ℕ
env_text_max = 20000

abbrev database_fields : List Text
database_fields =
    codes "url"
    ∷ codes "host"
    ∷ codes "port"
    ∷ codes "username"
    ∷ codes "password"
    ∷ codes "database"
    ∷ []

-- Why a text is refused.
pub data TextProblem : Type 0 where
  too_long malformed_reference : TextProblem
  no_assignment : (line : ℕ) → TextProblem
  invalid_name defined_twice : (line : ℕ) (key : Text) → TextProblem
  unexpected_field renamed_scope unknown_field : (whole : Text) → TextProblem
  unknown_scope : (whole scope : Text) → TextProblem

-- What a line is to the loop: skipped, a problem, or a variable.
pub data LineCheck : Type 0 where
  skipped : LineCheck
  rejected : TextProblem → LineCheck
  accepted : Text → Text → LineCheck

unfoldable pub check_key : ℕ → List Text → Text → Text → LineCheck
check_key i seen key value =
    if not (is_env_name key)
    then rejected (invalid_name (i + 1) (take 40 key))
    else if includes seen key
    then rejected (defined_twice (i + 1) key)
    else accepted key value

unfoldable pub check_trimmed : ℕ → List Text → Text → LineCheck
unfolding check_key
check_trimmed i seen line =
    if is_empty line || starts_with line hash then skipped else elim (index_of line b'=') [
      | none ↦ rejected (no_assignment (i + 1))
      | some eq ↦
          if leb eq 0
          then rejected (no_assignment (i + 1))
          else check_key i seen (trim (take eq line)) (drop (eq + 1) line)
    ]

-- What the loop over the lines leaves: a problem, or the values in order.
pub data LinesCheck : Type 0 where
  problem_in : TextProblem → LinesCheck
  all_values : List Text → LinesCheck

abbrev pub and_value : Text → LinesCheck → LinesCheck
and_value value (problem_in p) = problem_in p
and_value value (all_values values) = all_values (value ∷ values)

unfoldable pub check_lines : ℕ → List Text → List Text → LinesCheck
unfolding check_trimmed
check_lines i seen [] = all_values []
check_lines i seen (raw ∷ raws) = elim (check_trimmed i seen (trim raw)) [
  | skipped ↦ check_lines (suc i) seen raws
  | rejected p ↦ problem_in p
  | accepted key value ↦ and_value value (check_lines (suc i) (key ∷ seen) raws)
]

unfoldable pub check_reference : Reference → Option TextProblem
unfolding includes
check_reference r =
    let scope = r.found.scope in
    if text_eq scope (codes "vars") || text_eq scope (codes "secret")
    then (if is_some r.found.field then some (unexpected_field r.whole) else none)
    else if text_eq scope (codes "project")
    then some (renamed_scope r.whole)
    else if text_eq scope (codes "database")
    then (if includes database_fields (given r.found.field [])
        then none
        else some (unknown_field r.whole))
    else some (unknown_scope r.whole scope)

unfoldable pub check_references : List Reference → Option TextProblem
unfolding check_reference
check_references [] = none
check_references (r ∷ rs) = elim (check_reference r) [
  | none ↦ check_references rs
  | some p ↦ some p
]

unfoldable pub check_value : Text → Option TextProblem
unfolding check_references references count_opens
check_value value =
    if count_opens value == length (references value)
    then check_references (references value)
    else some malformed_reference

unfoldable pub check_values : List Text → Option TextProblem
unfolding check_value
check_values [] = none
check_values (value ∷ values) = elim (check_value value) [
  | none ↦ check_values values
  | some p ↦ some p
]

unfoldable pub check_content : LinesCheck → Option TextProblem
unfolding check_values
check_content (problem_in p) = some p
check_content (all_values values) = check_values values

-- `none` is null: there is no problem.
unfoldable pub validate_environment_text : Text → Option TextProblem
unfolding check_content check_lines
validate_environment_text text =
    if ltb env_text_max (length text)
    then some too_long
    else check_content (check_lines 0 [] (split_lines text))
