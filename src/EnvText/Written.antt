-- ===== src/EnvText/Written.antt =====
-- What the text says of every name, whenever `setValues` returns one: the values it writes may have
-- any names that plain objects inherit, as long as it does not throw.
use aoox_api.Prelude.{
  ◌≡◌, ◌≢◌, subst, inl, inr, sym, ap, ◌∙◌, none, some, List, [], ◌∷◌, Text, is_empty, All, or_else,
  Option-cases, last_value, map_get, if◌then◌else◌, some-injective,
}
use aoox_api.EnvText.{split_lines, join_lines, env_map}
use aoox_api.EnvText.Entry.{NoLineFeed}
use aoox_api.EnvText.Maps.{line_value, map_get-env_map}
use aoox_api.EnvText.Feeds.{line_value-split-join}
use aoox_api.EnvText.Write.{Notes, set_value, set_all, set_values}
use aoox_api.EnvText.SetValues.{
  IsEntry, set_value-line_value, set_value-NoLineFeed, or_else-written, lines_of-text,
  lines_of-NoLineFeed, lines_of,
}

none≢some : {A : Type 0} (a : A) → none ≢ some a
none≢some a e = cc

-- The first round of `set_all` returned lines, and the others went on from them.
set_all-first :
    (notes : Notes) (key value : Text) (entries : List (Text × Text)) (ls ms : List Text)
    → set_all notes ls ((key, value) ∷ entries) ≡ some ms
    → (ns : List Text) × (set_value notes ls key value ≡ some ns)
      × (set_all notes ns entries ≡ some ms)
unfolding set_all
set_all-first notes key value entries ls ms e = elim (Option-cases (set_value notes ls key value)) [
  | inl f ↦ absurd (none≢some ms (sym (rw (f, set_all)) ∙ e))
  | inr (ns, f) ↦ (ns, f, sym (rw (f, set_all)) ∙ e)
]

set_all-some :
    (notes : Notes) (entries : List (Text × Text)) (ls ms : List Text)
    → All IsEntry entries
    → All NoLineFeed ls
    → set_all notes ls entries ≡ some ms
    → All NoLineFeed ms
      × ((k : Text) → line_value k ms ≡ or_else (last_value k entries) (line_value k ls))
unfolding set_all
set_all-some notes [] ls ms ok h e =
    let same = some-injective _ _ e in
    (subst (All NoLineFeed) same h, λ k. ap (line_value k) (sym same))
set_all-some notes ((key, value) ∷ entries) ls ms (entry, ok) h e =
    let (ns, f, g) = set_all-first notes key value entries ls ms e in
    let one_line = set_value-NoLineFeed notes key value ls ns entry.name entry.value f h in
    let (feeds, values) = set_all-some notes entries ns ms ok one_line g in
    (
      feeds,
      λ k.
          values k
          ∙ ap (or_else (last_value k entries))
              (set_value-line_value notes key value ls k ns entry.name entry.value f)
          ∙ or_else-written k key value (last_value k entries) (line_value k ls),
    )

-- If `setValues` returns a text for entries with valid names and one-line values without white space
-- at their ends, then each written name has in it the value that was written last, and every other
-- name what it had before.
pub set_values-some :
    (text result : Text) (entries : List (Text × Text)) (notes : Notes)
    → All IsEntry entries
    → set_values text entries notes ≡ some result
    → (k : Text)
    → map_get k (env_map result) ≡ or_else (last_value k entries) (map_get k (env_map text))
unfolding set_values
set_values-some text result entries notes ok e k =
    let ls = if is_empty text then [] else split_lines text in
    elim (Option-cases (set_all notes ls entries)) [
      | inl f ↦ absurd (none≢some result (sym (rw (f, set_values)) ∙ e))
      | inr (ms, f) ↦
          let same : join_lines ms ≡ result = some-injective _ _ (sym (rw (f, set_values)) ∙ e) in
          let (feeds, values) =
            set_all-some notes entries ls ms ok (unfold lines_of in lines_of-NoLineFeed text) f in
          ap (λ t. map_get k (env_map t)) (sym same)
          ∙ map_get-env_map k (join_lines ms)
          ∙ line_value-split-join k ms feeds
          ∙ values k
          ∙ ap (or_else (last_value k entries))
              (lines_of-text k text ∙ sym (map_get-env_map k text))
    ]
