-- ===== src/EnvText/Replace.antt =====
-- `setValues` where the name is defined: its first line is replaced, the later ones are dropped.
use aoox_api.Prelude.{
  ℕ, zero, suc, ◌+◌, ◌<◌, ◌≡◌, refl, Bool, true, false, Option, none, some, List, [], ◌∷◌, arith,
  if◌then◌else◌, Text, text_eq, text_eq_iff, set, find_index,
}
use aoox_api.EnvText.{is_env_name, parse_line, defines_key}
use aoox_api.EnvText.Entry.{IsValue, parse_line-assignment, has_key, defines_key-parse_line}
use aoox_api.EnvText.Maps.{entry_value, line_value, or_else-none}
use aoox_api.EnvText.Write.{assignment, drop_repeated, replace_value}

-- `value`, if the two names are one.
abbrev pub written : Text → Text → Text → Option Text → Option Text
written k key value rest = if text_eq key k then some value else rest

entry_defined :
    (key k : Text) (e : Option (Text × Text))
    → has_key e key ≡ true
    → text_eq key k ≡ false
    → entry_value k e ≡ none
entry_defined key k none h ne = refl
entry_defined key k (some (j, v)) h ne =
    ground (arith, text_eq_iff j key, text_eq_iff j k, text_eq_iff key k)

entry_undefined :
    (key k : Text) (e : Option (Text × Text))
    → has_key e key ≡ false
    → text_eq key k ≡ true
    → entry_value k e ≡ none
entry_undefined key k none h e = refl
entry_undefined key k (some (j, v)) h e =
    ground (arith, text_eq_iff j key, text_eq_iff j k, text_eq_iff key k)

-- Past the line `at`, every definition of the name is dropped.
drop_repeated-past :
    (key k : Text) (at i : ℕ) (ls : List Text)
    → at < i
    → line_value k (drop_repeated key at i ls) ≡ (if text_eq key k then none else line_value k ls)
unfolding drop_repeated line_value
drop_repeated-past key k at i [] h = ground arith
drop_repeated-past key k at i (l ∷ ls) h = ground (
  arith,
  drop_repeated-past key k at (suc i) ls,
  defines_key-parse_line l key,
  entry_defined key k (parse_line l),
  entry_undefined key k (parse_line l),
  or_else-none (line_value k ls),
)

abbrev later : Option ℕ → Option ℕ
later none = none
later (some i) = some (suc i)

first_here : (b : Bool) (o : Option ℕ) → (if b then some 0 else later o) ≡ some 0 → b ≡ true
first_here true o e = refl
first_here false none e = cc
first_here false (some i) e = absurd (ground arith)

first_later :
    (b : Bool) (o : Option ℕ) (at : ℕ)
    → (if b then some 0 else later o) ≡ some (suc at)
    → (b ≡ false) × (o ≡ some at)
first_later true o at e = absurd (ground arith)
first_later false none at e = cc
first_later false (some i) at e = (refl, ground arith)

-- The line `at` is where the name is defined first.
module _ (key value k : Text) (name : is_env_name key ≡ true) (ok : IsValue value) where
  replace-line_value :
      (ls : List Text) (i at pos : ℕ)
      → pos ≡ i + at
      → find_index (λ l. defines_key l key) ls ≡ some at
      → line_value k (set (drop_repeated key pos i ls) at (assignment key value))
        ≡ written k key value (line_value k ls)
  unfolding drop_repeated line_value
  replace-line_value [] i at pos e found = cc
  replace-line_value (l ∷ ls) i zero pos e found =
      let here = first_here (defines_key l key) (find_index (λ m. defines_key m key) ls) found in
      ground (
        arith,
        here,
        parse_line-assignment key value name ok,
        drop_repeated-past key k pos (suc i) ls,
        defines_key-parse_line l key,
        entry_defined key k (parse_line l),
        or_else-none (line_value k ls),
      )
  replace-line_value (l ∷ ls) i (suc at) pos e found =
      let (other, found') =
        first_later (defines_key l key) (find_index (λ m. defines_key m key) ls) at found in
      ground (
        arith,
        other,
        replace-line_value ls (suc i) at pos (omega arith) found',
        defines_key-parse_line l key,
        entry_undefined key k (parse_line l),
      )

  pub replace_value-line_value :
      (ls : List Text) (at : ℕ)
      → find_index (λ l. defines_key l key) ls ≡ some at
      → line_value k (replace_value ls at key value) ≡ written k key value (line_value k ls)
  unfolding replace_value
  replace_value-line_value ls at found = replace-line_value ls 0 at at (omega arith) found
