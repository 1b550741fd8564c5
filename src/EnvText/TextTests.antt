-- ===== src/EnvText/TextTests.antt =====
-- Runs over small texts: references, validation, notes, flags and comparisons.
use aoox_api.Prelude.{
  ◌≡◌, refl, true, false, none, some, List, [], ◌∷◌, map, Text, codes, trim, trim_start, trim_end,
  is_space, starts_with, index_of, split_on, includes, map_get, map_set, map_delete, map_from,
}
use aoox_api.EnvText.{
  env_map, is_env_name, split_lines, join_lines, parse_env_lines, parse_lines, parse_line,
  parse_trimmed,
}
use aoox_api.EnvText.Write.{note_of, note_block, note_lines, is_inherited}
use aoox_api.EnvText.Objects.{marked, inherited, assign, flag_of}
use aoox_api.EnvText.Notes.{
  drop_feeds, line_key, add_note, read_line, read_lines, extract_notes, normal_lines,
  normalize_env_text,
}
use aoox_api.EnvText.Flags.{
  occurs, looks_secret_name, clear, next_flag, next_flags_from, next_flags,
}
use aoox_api.EnvText.References.{
  references, references_from, match_at, group, run_of, after_run, count_opens,
}
use aoox_api.EnvText.Validate.{
  validate_environment_text, check_content, check_lines, check_trimmed, check_key, check_values,
  check_value, check_references, check_reference, malformed_reference, defined_twice,
  unexpected_field, unknown_field,
}
use aoox_api.EnvText.Validated.{IsReadInFull, validate_environment_text-reads}
use aoox_api.EnvText.Compare.{compare_env_texts, holds}

abbrev value : Text
value = codes "a${{ vars.A-1 }}b${{database.db.url:x$1}}${{"

references-value :
    (map (λ r. r.whole) (references value)
      ≡ codes "${{ vars.A-1 }}" ∷ codes "${{database.db.url:x$1}}" ∷ [])
    × (count_opens value ≡ 3)
unfolding references references_from match_at group run_of after_run count_opens starts_with
    is_space trim_start
references-value = (refl, refl)

abbrev text : Text
text = codes "# the url\n#\n#  of it \nURL=${{database.db.url}}\n\n# apart\n\n TOKEN = 1 \n"

validations :
    (validate_environment_text text ≡ none)
    × (validate_environment_text (codes "A=1\nA=2") ≡ some (defined_twice 2 (codes "A")))
    × (validate_environment_text (codes "A=${{vars.B.c}}")
        ≡ some (unexpected_field (codes "${{vars.B.c}}")))
    × (validate_environment_text (codes "A=${{database.b.x}}")
        ≡ some (unknown_field (codes "${{database.b.x}}")))
    × (validate_environment_text (codes "A=${{vars}}") ≡ some malformed_reference)
unfolding validate_environment_text check_content check_lines check_trimmed check_key check_values
    check_value check_references check_reference references references_from match_at group run_of
    after_run count_opens starts_with is_space trim trim_start trim_end index_of is_env_name
    includes split_lines
validations = (refl, refl, refl, refl, refl)

notes-text :
    (extract_notes text ≡ (codes "URL", codes "the url\n\n of it") ∷ [])
    × (normalize_env_text text
        ≡ some (codes "# the url\n#\n#  of it\nURL=${{database.db.url}}\nTOKEN= 1"))
unfolding extract_notes read_lines read_line line_key add_note drop_feeds assign map_set map_delete
    map_get map_from normalize_env_text normal_lines note_of note_block note_lines split_on
    is_inherited starts_with is_space trim trim_start trim_end index_of is_env_name split_lines
    join_lines parse_env_lines parse_lines parse_line parse_trimmed
notes-text = (refl, refl)

abbrev keys : List Text
keys = codes "A" ∷ codes "API_Key" ∷ codes "B" ∷ codes "constructor" ∷ codes "OLD_TOKEN" ∷ []

flags-keys :
    next_flags
      ((codes "A", marked true) ∷ (codes "B", marked false) ∷ [])
      (codes "OLD_TOKEN" ∷ [])
      keys
      ((codes "B", clear) ∷ [])
    ≡ (codes "A", marked true)
      ∷ (codes "API_Key", marked true)
      ∷ (codes "constructor", inherited)
      ∷ []
unfolding next_flags next_flags_from next_flag flag_of looks_secret_name occurs starts_with assign
    map_set map_get includes is_inherited
flags-keys = refl

comparison : compare_env_texts (codes "A=1\nB=2\nC=3") (codes "C=3\nB=4\nD=5") ≡ record {
  only_in_from = codes "A" ∷ [];
  only_in_to = codes "D" ∷ [];
  different = codes "B" ∷ [];
  same = codes "C" ∷ [];
}
unfolding compare_env_texts holds env_map map_from map_set map_get split_lines starts_with is_space
    trim trim_start trim_end index_of parse_env_lines parse_lines parse_line parse_trimmed
comparison = refl

valid-text : validate_environment_text text ≡ none
valid-text = validations.0

validate_environment_text-reads_example : IsReadInFull text
validate_environment_text-reads_example = validate_environment_text-reads text valid-text
