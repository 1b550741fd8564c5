-- ===== src/EnvText/Lines.antt =====
-- What the loop of `validateEnvironmentText` over the lines of a text accepts
-- (src/modules/variable-set/env-text.ts).
use aoox_api.Prelude.{
  ℕ, suc, ◌+◌, ◌≡◌, ◌≢◌, refl, sym, ap, ◌∙◌, subst, inl, inr, Bool, true, false, ◌||◌, Option, none,
  some, List, [], ◌∷◌, map, leb, arith, Text, is_empty, trim, starts_with, index_of, take, drop,
  includes, is_some, Bool-cases, Option-cases, All,
}
use aoox_api.EnvText.{hash, is_env_name, parse_trimmed, parse_line, parse_lines}
use aoox_api.EnvText.Names.{AreFresh}
use aoox_api.EnvText.Validate.{
  LineCheck, skipped, rejected, accepted, check_key, check_trimmed, LinesCheck, problem_in,
  all_values, and_value, check_lines, TextProblem,
}

-- What a line that is not refused parses to.
abbrev Explains : List Text → Option (Text × Text) → LineCheck → Type 0
Explains seen parsed skipped = parsed ≡ none
Explains seen parsed (rejected p) = Unit
Explains seen parsed (accepted k v) =
    (parsed ≡ some (k, v)) × (is_env_name k ≡ true) × (includes seen k ≡ false)

check_key-Explains :
    (i : ℕ) (seen : List Text) (k v : Text) → Explains seen (some (k, v)) (check_key i seen k v)
unfolding check_key
check_key-Explains i seen k v = elim (Bool-cases (is_env_name k)) [
  | inr e ↦ rw e tt
  | inl e ↦ elim (Bool-cases (includes seen k)) [
    | inl f ↦ rw (e, f) tt
    | inr f ↦ rw (e, f) (refl, e, f)
  ]
]

check_trimmed-Explains :
    (i : ℕ) (seen : List Text) (line : Text)
    → Explains seen (parse_trimmed line) (check_trimmed i seen line)
unfolding check_trimmed parse_trimmed
check_trimmed-Explains i seen line = elim (Bool-cases (is_empty line || starts_with line hash)) [
  | inl e ↦ rw e refl
  | inr e ↦ elim (Option-cases (index_of line b'=')) [
    | inl f ↦ rw (e, f) tt
    | inr (eq, f) ↦ elim (Bool-cases (leb eq 0)) [
      | inl g ↦ rw (e, f, g) tt
      | inr g ↦ rw (e, f, g) (check_key-Explains i seen (trim (take eq line)) (drop (eq + 1) line))
    ]
  ]
]

abbrev skips : Text → Bool
skips raw = is_empty (trim raw) || starts_with (trim raw) hash

-- The line is blank, a comment or a variable.
abbrev pub Counts : Text → Type 0
Counts raw = (skips raw || is_some (parse_line raw)) ≡ true

-- What the loop over the lines says of them, when it refuses none.
pub record AreChecked (seen : List Text) (ls : List Text) (values : List Text) : Type 0 where
  pub fresh : AreFresh seen (parse_lines ls)
  pub read : values ≡ map (λ e. e.1) (parse_lines ls)
  pub counted : All Counts ls

and_value-all_values :
    (v : Text) (c : LinesCheck) (vs : List Text)
    → and_value v c ≡ all_values vs
    → (ws : List Text) × (c ≡ all_values ws) × (vs ≡ v ∷ ws)
and_value-all_values v (problem_in p) vs e = cc
and_value-all_values v (all_values ws) vs e = (ws, refl, cc)

check_trimmed-skips :
    (i : ℕ) (seen : List Text) (line : Text)
    → check_trimmed i seen line ≡ skipped
    → (is_empty line || starts_with line hash) ≡ true
unfolding check_trimmed check_key
check_trimmed-skips i seen line e = ground arith

data IsCheck (c : LineCheck) : Type 0 where
  is_skipped : c ≡ skipped → IsCheck c
  is_rejected : (p : TextProblem) → c ≡ rejected p → IsCheck c
  is_accepted : (k v : Text) → c ≡ accepted k v → IsCheck c

LineCheck-cases : (c : LineCheck) → IsCheck c
LineCheck-cases skipped = is_skipped refl
LineCheck-cases (rejected p) = is_rejected p refl
LineCheck-cases (accepted k v) = is_accepted k v refl

module _ (i : ℕ) (seen : List Text) (raw : Text) where
  parse_line-Explains :
      (c : LineCheck) → check_trimmed i seen (trim raw) ≡ c → Explains seen (parse_line raw) c
  unfolding parse_line
  parse_line-Explains c e =
      subst (Explains seen (parse_trimmed (trim raw))) e (check_trimmed-Explains i seen (trim raw))

  Counts-skipped : check_trimmed i seen (trim raw) ≡ skipped → Counts raw
  Counts-skipped e = rw (check_trimmed-skips i seen (trim raw) e) refl

  Counts-accepted : (k v : Text) → check_trimmed i seen (trim raw) ≡ accepted k v → Counts raw
  Counts-accepted k v e =
      let (f, _, _) = parse_line-Explains (accepted k v) e in rw f (ground arith)

module _ (i : ℕ) (seen : List Text) (raw : Text) (ls : List Text) where
  check_lines-skipped :
      check_trimmed i seen (trim raw) ≡ skipped
      → check_lines i seen (raw ∷ ls) ≡ check_lines (suc i) seen ls
  unfolding check_lines
  check_lines-skipped e = rw (e, check_lines)

  check_lines-rejected :
      (p : TextProblem)
      → check_trimmed i seen (trim raw) ≡ rejected p
      → check_lines i seen (raw ∷ ls) ≡ problem_in p
  unfolding check_lines
  check_lines-rejected p e = rw (e, check_lines)

  check_lines-accepted :
      (k v : Text)
      → check_trimmed i seen (trim raw) ≡ accepted k v
      → check_lines i seen (raw ∷ ls) ≡ and_value v (check_lines (suc i) (k ∷ seen) ls)
  unfolding check_lines
  check_lines-accepted k v e = rw (e, check_lines)

pub parse_lines-none :
    (raw : Text) (ls : List Text) → parse_line raw ≡ none → parse_lines (raw ∷ ls) ≡ parse_lines ls
unfolding parse_lines
parse_lines-none raw ls e = rw (e, parse_lines)

parse_lines-some :
    (raw : Text) (ls : List Text) (entry : Text × Text)
    → parse_line raw ≡ some entry
    → parse_lines (raw ∷ ls) ≡ entry ∷ parse_lines ls
unfolding parse_lines
parse_lines-some raw ls entry e = rw (e, parse_lines)

problem_in≢all_values : (p : TextProblem) (vs : List Text) → problem_in p ≢ all_values vs
problem_in≢all_values p vs e = cc

pub check_lines-AreChecked :
    (i : ℕ) (seen ls values : List Text)
    → check_lines i seen ls ≡ all_values values
    → AreChecked seen ls values
unfolding check_lines parse_lines
check_lines-AreChecked i seen [] values h = record { fresh = tt; read = cc; counted = tt }
check_lines-AreChecked i seen (raw ∷ ls) values h =
    elim (LineCheck-cases (check_trimmed i seen (trim raw))) [
      | is_rejected p e ↦
          absurd (problem_in≢all_values p values (sym (check_lines-rejected i seen raw ls p e) ∙ h))
      | is_skipped e ↦
          let same = parse_lines-none raw ls (parse_line-Explains i seen raw skipped e) in
          let rest =
            check_lines-AreChecked (suc i) seen ls values
              (sym (check_lines-skipped i seen raw ls e) ∙ h) in
          record {
            fresh = subst (AreFresh seen) (sym same) rest.fresh;
            read = rest.read ∙ ap (map (λ e. e.1)) (sym same);
            counted = (Counts-skipped i seen raw e, rest.counted);
          }
      | is_accepted k v e ↦
          let (parsed, valid, new) = parse_line-Explains i seen raw (accepted k v) e in
          let same = parse_lines-some raw ls (k, v) parsed in
          let (ws, f, g) =
            and_value-all_values v (check_lines (suc i) (k ∷ seen) ls) values
              (sym (check_lines-accepted i seen raw ls k v e) ∙ h) in
          let rest = check_lines-AreChecked (suc i) (k ∷ seen) ls ws f in
          record {
            fresh = subst (AreFresh seen) (sym same) (valid, new, rest.fresh);
            read = g ∙ ap (◌∷◌ v) rest.read ∙ ap (map (λ e. e.1)) (sym same);
            counted = (Counts-accepted i seen raw k v e, rest.counted);
          }
    ]
