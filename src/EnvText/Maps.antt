-- ===== src/EnvText/Maps.antt =====
-- The variables of a text as a `Map`: the last definition of a name counts.
use aoox_api.Prelude.{
  ◌≡◌, refl, ◌∙◌, Option, none, some, List, [], ◌∷◌, ◌++◌, arith, if◌then◌else◌, Text, text_eq,
  or_else, map_get, last_value, map_get-map_from,
}
use aoox_api.EnvText.{env_map, parse_line, parse_lines, parse_env_lines, split_lines}

-- What one entry says of a name.
abbrev pub entry_value : Text → Option (Text × Text) → Option Text
entry_value key none = none
entry_value key (some (k, v)) = if text_eq k key then some v else none

-- The last definition of a name among lines.
unfoldable pub line_value : Text → List Text → Option Text
line_value key [] = none
line_value key (l ∷ ls) = or_else (line_value key ls) (entry_value key (parse_line l))

pub or_else_assoc {ℓ} :
    {A : Type ℓ} (a b c : Option A) → or_else (or_else a b) c ≡ or_else a (or_else b c)
or_else_assoc none b c = refl
or_else_assoc (some x) b c = refl

pub or_else-none {ℓ} : {A : Type ℓ} (a : Option A) → or_else a none ≡ a
or_else-none none = refl
or_else-none (some x) = refl

pub line_value-append :
    (key : Text) (ls ms : List Text)
    → line_value key (ls ++ ms) ≡ or_else (line_value key ms) (line_value key ls)
unfolding line_value
line_value-append key [] ms = ground (arith, or_else-none (line_value key ms))
line_value-append key (l ∷ ls) ms =
    rw (line_value-append key ls ms)
      (or_else_assoc (line_value key ms) (line_value key ls) (entry_value key (parse_line l)))

pub last_value-parse_lines :
    (key : Text) (ls : List Text) → last_value key (parse_lines ls) ≡ line_value key ls
unfolding line_value parse_lines
last_value-parse_lines key [] = refl
last_value-parse_lines key (l ∷ ls) =
    ground (arith, last_value-parse_lines key ls, or_else-none (line_value key ls))

pub map_get-env_map :
    (key text : Text) → map_get key (env_map text) ≡ line_value key (split_lines text)
unfolding env_map map_get
map_get-env_map key text =
    map_get-map_from key [] (parse_env_lines text)
    ∙ or_else-none (last_value key (parse_env_lines text))
    ∙ last_value-parse_lines key (split_lines text)
