-- ===== src/EnvText/Validated.antt =====
-- What a text that `validateEnvironmentText` accepts parses to.
use aoox_api.Prelude.{
  ◌≤◌, ◌≡◌, ◌≢◌, refl, sym, ap, ◌∙◌, subst, inl, inr, true, none, some, List, [], ◌∷◌, map, arith,
  Text, length, Option-cases, All, last_value, map_get, map_get-map_from,
}
use aoox_api.EnvText.{split_lines, is_env_name, parse_env_lines, env_map}
use aoox_api.EnvText.Maps.{or_else-none}
use aoox_api.EnvText.Names.{
  AreFresh, AreFresh-names, set_from-AreFresh, last_value-AreFresh, All-imply,
}
use aoox_api.EnvText.Validate.{
  unique, keys_of, env_text_max, LinesCheck, problem_in, all_values, check_lines, check_value,
  check_values, check_content, validate_environment_text, TextProblem,
}
use aoox_api.EnvText.Lines.{Counts, check_lines-AreChecked}

problem≢none : (p : TextProblem) → some p ≢ none
problem≢none p e = cc

check_values-rest :
    (v : Text) (vs : List Text) → check_value v ≡ none → check_values (v ∷ vs) ≡ check_values vs
unfolding check_values
check_values-rest v vs e = rw (e, check_values)

check_values-problem :
    (v : Text) (vs : List Text) (p : TextProblem)
    → check_value v ≡ some p
    → check_values (v ∷ vs) ≡ some p
unfolding check_values
check_values-problem v vs p e = rw (e, check_values)

check_values-All : (vs : List Text) → check_values vs ≡ none → All (λ v. check_value v ≡ none) vs
unfolding check_values
check_values-All [] h = tt
check_values-All (v ∷ vs) h = elim (Option-cases (check_value v)) [
  | inl e ↦ (e, check_values-All vs (sym (check_values-rest v vs e) ∙ h))
  | inr (p, e) ↦ absurd (problem≢none p (sym (check_values-problem v vs p e) ∙ h))
]

All-map :
    (P : Text → Type 0) (es : List (Text × Text)) → All P (map (λ e. e.1) es) → All (λ e. P e.1) es
All-map P [] h = tt
All-map P (e ∷ es) (p, h) = (p, All-map P es h)

-- A text whose variables are all read, each with its own value.
pub record IsReadInFull (text : Text) : Type 0 where
  pub bounded : length text ≤ env_text_max
  pub counted : All Counts (split_lines text)
  pub keys : keys_of text ≡ map (λ e. e.0) (parse_env_lines text)
  pub names : All (λ k. is_env_name k ≡ true) (keys_of text)
  pub values : All (λ e. map_get e.0 (env_map text) ≡ some e.1) (parse_env_lines text)
  pub references : All (λ e. check_value e.1 ≡ none) (parse_env_lines text)

check_content-none :
    (c : LinesCheck)
    → check_content c ≡ none
    → (vs : List Text) × (c ≡ all_values vs) × (check_values vs ≡ none)
unfolding check_content
check_content-none (problem_in p) h = cc
check_content-none (all_values vs) h = (vs, refl, h)

validate_environment_text-parts :
    (text : Text)
    → validate_environment_text text ≡ none
    → (length text ≤ env_text_max) × (check_content (check_lines 0 [] (split_lines text)) ≡ none)
unfolding validate_environment_text
validate_environment_text-parts text h = ground arith

values_of :
    (text : Text)
    → AreFresh [] (parse_env_lines text)
    → All (λ e. map_get e.0 (env_map text) ≡ some e.1) (parse_env_lines text)
unfolding env_map map_get
values_of text fresh =
    All-imply (parse_env_lines text)
      (λ e h.
        map_get-map_from e.0 [] (parse_env_lines text)
        ∙ or_else-none (last_value e.0 (parse_env_lines text))
        ∙ h)
      (last_value-AreFresh [] (parse_env_lines text) fresh)

keys_of-AreFresh :
    (text : Text)
    → AreFresh [] (parse_env_lines text)
    → keys_of text ≡ map (λ e. e.0) (parse_env_lines text)
unfolding keys_of unique
keys_of-AreFresh text fresh = set_from-AreFresh [] [] (parse_env_lines text) (λ x. refl) fresh

-- A text that `validateEnvironmentText` accepts has at most 20000 characters, and each of its lines
-- is blank, a comment or a variable. Its variables have valid names, none is defined twice, `keysOf`
-- lists them as they are read, each has in `envMap` the value of its own line, and in no value is a
-- reference malformed or of an unknown scope or field.
pub validate_environment_text-reads :
    (text : Text) → validate_environment_text text ≡ none → IsReadInFull text
unfolding parse_env_lines
validate_environment_text-reads text h =
    let (bounded, content) = validate_environment_text-parts text h in
    let (vs, e, good) = check_content-none (check_lines 0 [] (split_lines text)) content in
    let checked = check_lines-AreChecked 0 [] (split_lines text) vs e in
    let keys = keys_of-AreFresh text checked.fresh in
    record {
      bounded = bounded;
      counted = checked.counted;
      keys = keys;
      names =
          subst (All (λ k. is_env_name k ≡ true)) (sym keys)
            (AreFresh-names [] (parse_env_lines text) checked.fresh);
      values = values_of text checked.fresh;
      references =
          All-map (λ v. check_value v ≡ none) (parse_env_lines text)
            (check_values-All (map (λ e. e.1) (parse_env_lines text))
              (ap check_values (sym checked.read) ∙ good));
    }
