-- ===== src/EnvText/SetValues.antt =====
-- What the text that `setValues` returns says of every name.
use aoox_api.Prelude.{
  ℕ, ◌≡◌, ◌≢◌, refl, sym, ap, ◌∙◌, inl, inr, Option-cases, Bool-cases, true, Option, none, some,
  List, [], ◌∷◌, ◌++◌, arith, if◌then◌else◌, Text, is_empty, All, or_else, find_index, text_eq,
  subst, some-injective, map_get, last_value,
}
use aoox_api.EnvText.{is_env_name, split_lines, join_lines, defines_key, env_map}
use aoox_api.EnvText.Entry.{NoLineFeed, IsValue}
use aoox_api.EnvText.Maps.{line_value, map_get-env_map}
use aoox_api.EnvText.Replace.{written, replace_value-line_value}
use aoox_api.EnvText.Feeds.{split_lines-NoLineFeed, line_value-split-join, line_value-empty}
use aoox_api.EnvText.Append.{
  append_value-line_value, append_value-NoLineFeed, replace_value-NoLineFeed,
}
use aoox_api.EnvText.Write.{
  Notes, Property, undefined, inherited, own, note_of, note_lines, note_block, close_comment,
  drop_blank, assignment, append_value, replace_value, set_value, set_all, set_values,
}

-- An entry that can be written: a valid name, and a value of one line without white space at its end.
pub record IsEntry (e : Text × Text) : Type 0 where
  pub name : is_env_name e.0 ≡ true
  pub value : IsValue e.1

note_block_total :
    (p : Property) → p ≢ inherited → (block : List Text) × (note_block p ≡ some block)
unfolding note_block
note_block_total undefined h = ([], refl)
note_block_total inherited h = absurd (h refl)
note_block_total (own note) h = elim (Bool-cases (is_empty note)) [
  | inl e ↦ ([], rw e)
  | inr e ↦ (note_lines note, rw e)
]

-- The two branches of a round.
module _ (notes : Notes) (key value : Text) (ls : List Text) where
  set_value-new :
      find_index (λ l. defines_key l key) ls ≡ none
      → set_value notes ls key value ≡ append_value notes ls key value
  unfolding set_value
  set_value-new new = rw (new, set_value)

  set_value-found :
      (at : ℕ)
      → find_index (λ l. defines_key l key) ls ≡ some at
      → set_value notes ls key value ≡ some (replace_value ls at key value)
  unfolding set_value
  set_value-found at found = rw (found, set_value)

  pub set_value-line_value :
      (k : Text) (ms : List Text)
      → is_env_name key ≡ true
      → IsValue value
      → set_value notes ls key value ≡ some ms
      → line_value k ms ≡ written k key value (line_value k ls)
  set_value-line_value k ms name ok e =
      elim (Option-cases (find_index (λ l. defines_key l key) ls)) [
        | inl new ↦
            append_value-line_value notes key value k ls ms name ok (sym (set_value-new new) ∙ e)
        | inr (at, found) ↦
            ap (line_value k) (sym (some-injective _ _ (sym (set_value-found at found) ∙ e)))
            ∙ replace_value-line_value key value k name ok ls at found
      ]

  pub set_value-NoLineFeed :
      (ms : List Text)
      → is_env_name key ≡ true
      → IsValue value
      → set_value notes ls key value ≡ some ms
      → All NoLineFeed ls
      → All NoLineFeed ms
  set_value-NoLineFeed ms name ok e h =
      elim (Option-cases (find_index (λ l. defines_key l key) ls)) [
        | inl new ↦
            append_value-NoLineFeed notes key value ls ms name ok (sym (set_value-new new) ∙ e) h
        | inr (at, found) ↦
            subst (All NoLineFeed) (some-injective _ _ (sym (set_value-found at found) ∙ e))
              (replace_value-NoLineFeed key value ls at name ok h)
      ]

  append_value_total :
      note_of notes key ≢ inherited → (ms : List Text) × (append_value notes ls key value ≡ some ms)
  unfolding append_value
  append_value_total h =
      let (block, e) = note_block_total (note_of notes key) h in
      (
        close_comment (drop_blank ls) ++ (block ++ (assignment key value ∷ [])),
        rw (e, append_value),
      )

  set_value_total :
      note_of notes key ≢ inherited → (ms : List Text) × (set_value notes ls key value ≡ some ms)
  set_value_total h = elim (Option-cases (find_index (λ l. defines_key l key) ls)) [
    | inl new ↦ let (ms, e) = append_value_total h in (ms, set_value-new new ∙ e)
    | inr (at, found) ↦ (replace_value ls at key value, set_value-found at found)
  ]

-- After all rounds: each line is one line, and the last value written for a name counts.
record IsWritten (entries : List (Text × Text)) (ls : List Text) (written : Option (List Text))
    : Type 0 where
  lines : List Text
  returned : written ≡ some lines
  one_line : All NoLineFeed lines
  value : (k : Text) → line_value k lines ≡ or_else (last_value k entries) (line_value k ls)

pub or_else-written :
    (k key value : Text) (a b : Option Text)
    → or_else a (written k key value b)
      ≡ or_else (or_else a (if text_eq key k then some value else none)) b
or_else-written k key value none b = ground arith
or_else-written k key value (some x) b = refl

set_all-IsWritten :
    (notes : Notes) (entries : List (Text × Text)) (ls : List Text)
    → All IsEntry entries
    → All (λ e. note_of notes e.0 ≢ inherited) entries
    → All NoLineFeed ls
    → IsWritten entries ls (set_all notes ls entries)
unfolding set_all
set_all-IsWritten notes [] ls ok plain h = record {
  lines = ls;
  returned = refl;
  one_line = h;
  value = λ k. refl;
}
set_all-IsWritten notes ((key, value) ∷ entries) ls (entry, ok) (p, plain) h =
    let (ms, e) = set_value_total notes key value ls p in
    let one_line = set_value-NoLineFeed notes key value ls ms entry.name entry.value e h in
    let rest = set_all-IsWritten notes entries ms ok plain one_line in
    record {
      lines = rest.lines;
      returned = rw (e, set_all) rest.returned;
      one_line = rest.one_line;
      value = λ k.
          rest.value k
          ∙ ap (or_else (last_value k entries))
              (set_value-line_value notes key value ls k ms entry.name entry.value e)
          ∙ or_else-written k key value (last_value k entries) (line_value k ls);
    }

pub lines_of-text :
    (k text : Text)
    → line_value k (if is_empty text then [] else split_lines text)
      ≡ line_value k (split_lines text)
lines_of-text k [] = unfold line_value in sym (line_value-empty k)
lines_of-text k (c ∷ s) = refl

unfoldable pub lines_of : Text → List Text
lines_of text = if is_empty text then [] else split_lines text

pub lines_of-NoLineFeed : (text : Text) → All NoLineFeed (lines_of text)
unfolding lines_of
lines_of-NoLineFeed [] = tt
lines_of-NoLineFeed (c ∷ s) = split_lines-NoLineFeed (c ∷ s)

-- `setValues` returns a text for every text and entries with valid names and one-line values
-- without white space at their ends, if no name is one that plain objects inherit and that has no
-- note of its own. In the returned text each written name has the value that was written last, and
-- every other name has the value, or no value, that it had before.
pub set_values-map_get :
    (text : Text) (entries : List (Text × Text)) (notes : Notes)
    → All IsEntry entries
    → All (λ e. note_of notes e.0 ≢ inherited) entries
    → (result : Text) × (set_values text entries notes ≡ some result)
      × ((k : Text)
          → map_get k (env_map result) ≡ or_else (last_value k entries) (map_get k (env_map text)))
unfolding set_values
set_values-map_get text entries notes ok plain =
    let w =
      set_all-IsWritten notes entries (if is_empty text then [] else split_lines text) ok plain
        (unfold lines_of in lines_of-NoLineFeed text) in
    (
      join_lines w.lines,
      rw (w.returned, set_values),
      λ k.
          map_get-env_map k (join_lines w.lines)
          ∙ line_value-split-join k w.lines w.one_line
          ∙ w.value k
          ∙ ap (or_else (last_value k entries))
              (lines_of-text k text ∙ sym (map_get-env_map k text)),
    )
