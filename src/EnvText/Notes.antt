-- ===== src/EnvText/Notes.antt =====
-- The notes of variables (`extractNotes` of src/modules/variable-set/env-text.ts): the comment lines
-- right above them, and the clean-up of imported texts, which keeps them.
use aoox_api.Prelude.{
  ℕ, not, Option, none, some, List, [], ◌∷◌, ◌++◌, ltb, ◌==◌, if◌then◌else◌, Text, is_empty, trim,
  trim_end, starts_with, index_of, take, drop, map_delete, map_from, keep,
}
use aoox_api.EnvText.{hash, EnvMap, split_lines, join_lines, is_env_name, parse_env_lines}
use aoox_api.EnvText.Write.{Notes, note_of, note_block, assignment}
use aoox_api.EnvText.Objects.{assign}

abbrev pub note_max : ℕ
note_max = 1000

abbrev pub drop_mark : Text → Text
drop_mark [] = []
drop_mark (c ∷ s) = if c == 0xfeff then s else c ∷ s

abbrev drop_space : Text → Text
drop_space [] = []
drop_space (c ∷ s) = if c == 32 then s else c ∷ s

unfoldable pub drop_feeds : Text → Text
drop_feeds [] = []
drop_feeds (c ∷ s) = if c == 10 then drop_feeds s else c ∷ s

-- The variables of the loop of `extractNotes`.
pub record Reading : Type 0 where
  pub pending : List Text
  pub found : Notes

abbrev note_text : List Text → Text
note_text pending = trim_end (take note_max (trim_end (drop_feeds (join_lines pending))))

-- The name that a trimmed line defines, empty for none.
unfoldable pub line_key : Text → Text
line_key line = elim (index_of line b'=') [
  | none ↦ []
  | some eq ↦ if ltb 0 eq then trim (take eq line) else []
]

unfoldable pub add_note : Text → List Text → Notes → Notes
unfolding join_lines drop_feeds assign
add_note key pending found =
    if not (is_env_name key)
    then found
    else if is_empty (note_text pending)
    then map_delete key found
    else assign key (note_text pending) found

-- One round of the loop.
unfoldable pub read_line : Text → Reading → Reading
unfolding line_key add_note
read_line raw r =
    let line = trim raw in
    if is_empty line
    then record { pending = []; found = r.found }
    else if starts_with line hash
    then record {
      pending = r.pending ++ (trim_end (drop_space (drop 1 line)) ∷ []);
      found = r.found;
    }
    else record { pending = []; found = add_note (line_key line) r.pending r.found }

unfoldable pub read_lines : List Text → Reading → Reading
unfolding read_line
read_lines [] r = r
read_lines (raw ∷ raws) r = read_lines raws (read_line raw r)

unfoldable pub extract_notes : Text → Notes
unfolding read_lines
extract_notes text =
    (read_lines (split_lines (drop_mark text)) (record { pending = []; found = [] })).found

-- The rounds of the last loop of `normalizeEnvText`; `none` is the exception of `noteLines`.
unfoldable pub normal_lines : Notes → EnvMap → Option (List Text)
normal_lines notes [] = some []
normal_lines notes ((k, v) ∷ m) = elim (note_block (note_of notes k)) [
  | none ↦ none
  | some block ↦ elim (normal_lines notes m) [
    | none ↦ none
    | some lines ↦ some (block ++ (assignment k v ∷ lines))
  ]
]

unfoldable pub normalize_env_text : Text → Option Text
unfolding normal_lines
normalize_env_text text =
    elim (normal_lines (extract_notes text)
      (map_from [] (keep (λ e. is_env_name e.0) (parse_env_lines text)))) [
        | none ↦ none
        | some lines ↦ some (join_lines lines)
      ]
