-- ===== src/EnvText/Tests.antt =====
-- Runs over small texts, and the theorems about `setValues` at concrete inputs.
use aoox_api.Prelude.{
  ◌≡◌, ◌≢◌, refl, some, List, [], ◌∷◌, arith, Text, codes, or_else, map_get, last_value, trim,
  trim_end, is_space, starts_with, index_of, split_on,
}
use aoox_api.EnvText.{env_map, is_env_name, split_lines, join_lines, defines_key}
use aoox_api.EnvText.SetValues.{IsEntry, set_values-map_get}
use aoox_api.EnvText.Write.{
  Notes, inherited, is_inherited, note_of, note_block, note_lines, set_value, set_values,
}

abbrev sample : Text
sample = codes "# a note\nA=1\n\nB = 2 \nA=3\n# end"

abbrev entries : List (Text × Text)
entries = (codes "A", codes "x y") ∷ (codes "NEW", codes "") ∷ []

abbrev notes : Notes
notes = (codes "NEW", codes "why\n\nnot") ∷ []

set_values-sample :
    set_values sample entries notes
    ≡ some (codes "# a note\nA=x y\n\nB = 2 \n# end\n\n# why\n#\n# not\nNEW=")
unfolding set_values set_value split_lines defines_key trim is_space starts_with index_of note_block
    note_of join_lines note_lines split_on
set_values-sample = refl

IsEntry-first : IsEntry (codes "A", codes "x y")
unfolding is_env_name trim_end is_space
IsEntry-first = record { name = refl; value = record { one_line = omega arith; trimmed = refl } }

IsEntry-second : IsEntry (codes "NEW", codes "")
unfolding is_env_name trim_end
IsEntry-second = record { name = refl; value = record { one_line = tt; trimmed = refl } }

note_of-first : note_of notes (codes "A") ≢ inherited
unfolding note_of is_inherited
note_of-first e = cc

note_of-second : note_of notes (codes "NEW") ≢ inherited
unfolding note_of
note_of-second e = cc

set_values-map_get_example :
    (result : Text) × (set_values sample entries notes ≡ some result)
    × ((k : Text)
        → map_get k (env_map result) ≡ or_else (last_value k entries) (map_get k (env_map sample)))
set_values-map_get_example =
    set_values-map_get sample entries notes (IsEntry-first, (IsEntry-second, tt))
      (note_of-first, (note_of-second, tt))
