-- ===== src/EnvText/Write.antt =====
-- `setValues` of src/modules/variable-set/env-text.ts: writing variables key by key, with what
-- stands around them kept.
use aoox_api.Prelude.{
  ℕ, suc, Bool, not, ◌||◌, ◌++◌, Option, none, some, List, [], ◌∷◌, leb, if◌then◌else◌, Text, codes,
  text_eq, is_empty, trim, starts_with, set, find_index, last, any, map, split_on,
}
use aoox_api.EnvText.{hash, split_lines, join_lines, defines_key}

-- A property of a plain object: none, one of its own, or one that it has from `Object.prototype`.
pub data Property : Type 0 where
  undefined inherited : Property
  own : Text → Property

abbrev inherited_names : List Text
inherited_names =
    codes "constructor"
    ∷ codes "toString"
    ∷ codes "toLocaleString"
    ∷ codes "valueOf"
    ∷ codes "hasOwnProperty"
    ∷ codes "isPrototypeOf"
    ∷ codes "propertyIsEnumerable"
    ∷ codes "__proto__"
    ∷ codes "__defineGetter__"
    ∷ codes "__defineSetter__"
    ∷ codes "__lookupGetter__"
    ∷ codes "__lookupSetter__"
    ∷ []

unfoldable pub is_inherited : Text → Bool
is_inherited key = any (λ name. text_eq name key) inherited_names

-- `VariableNotes`: the object's own properties.
abbrev pub Notes : Type 0
Notes = List (Text × Text)

unfoldable pub note_of : Notes → Text → Property
note_of [] key = if is_inherited key then inherited else undefined
note_of ((k, note) ∷ notes) key = if text_eq k key then own note else note_of notes key

abbrev pub comment : Text → Text
comment l = if is_empty l then hash else b'#' ∷ 32 ∷ l

unfoldable pub note_lines : Text → List Text
note_lines note = map comment (split_on 10 note)

-- The lines that `if (notes[key]) lines.push(...noteLines(notes[key]))` adds. An inherited property
-- is a function or an object: it has no `split`, and `noteLines` throws, which is `none`.
unfoldable pub note_block : Property → Option (List Text)
note_block undefined = some []
note_block inherited = none
note_block (own note) = if is_empty note then some [] else some (note_lines note)

-- The loop that pops blank lines off the end.
unfoldable pub drop_blank : List Text → List Text
drop_blank [] = []
drop_blank (l ∷ ls) = elim (drop_blank ls) [
  | [] ↦ if is_empty (trim l) then [] else l ∷ []
  | m ∷ ms ↦ l ∷ m ∷ ms
]

abbrev pub assignment : Text → Text → Text
assignment key value = key ++ (b'=' ∷ value)

-- A comment at the very end is kept apart by a blank line.
unfoldable pub close_comment : List Text → List Text
close_comment lines = elim (last lines) [
  | none ↦ lines
  | some l ↦ if starts_with (trim l) hash then lines ++ ([] ∷ []) else lines
]

unfoldable pub append_value : Notes → List Text → Text → Text → Option (List Text)
unfolding close_comment drop_blank
append_value notes lines key value = elim (note_block (note_of notes key)) [
  | none ↦ none
  | some block ↦ some (close_comment (drop_blank lines) ++ (block ++ (assignment key value ∷ [])))
]

-- `lines.filter((l, i) => i <= at || !definesKey(l, key))`, from the line number `i` on.
unfoldable pub drop_repeated : Text → ℕ → ℕ → List Text → List Text
drop_repeated key at i [] = []
drop_repeated key at i (l ∷ ls) =
    let rest = drop_repeated key at (suc i) ls in
    if leb i at || not (defines_key l key) then l ∷ rest else rest

unfoldable pub replace_value : List Text → ℕ → Text → Text → List Text
unfolding drop_repeated
replace_value lines at key value = set (drop_repeated key at 0 lines) at (assignment key value)

-- One round of the loop of `setValues`.
unfoldable pub set_value : Notes → List Text → Text → Text → Option (List Text)
unfolding append_value replace_value
set_value notes lines key value = elim (find_index (λ l. defines_key l key) lines) [
  | none ↦ append_value notes lines key value
  | some at ↦ some (replace_value lines at key value)
]

unfoldable pub set_all : Notes → List Text → List (Text × Text) → Option (List Text)
set_all notes lines [] = some lines
set_all notes lines ((key, value) ∷ entries) = elim (set_value notes lines key value) [
  | none ↦ none
  | some lines' ↦ set_all notes lines' entries
]

unfoldable pub set_values : Text → List (Text × Text) → Notes → Option Text
unfolding set_all
set_values text entries notes =
    elim (set_all notes (if is_empty text then [] else split_lines text) entries) [
      | none ↦ none
      | some lines ↦ some (join_lines lines)
    ]
