-- ===== src/EnvText/Values.antt =====
-- The values that a text gives: each is one line without white space at its end, so that it can be
-- written again (src/modules/variable-set/env-text.ts).
use aoox_api.Prelude.{
  ℕ, zero, suc, ◌+◌, ◌≡◌, refl, sym, ◌∙◌, subst, inl, inr, ◌||◌, Option, none, some, List, [], ◌∷◌,
  arith, leb, Text, text_eq, is_empty, trim, trim_start, trim_end, starts_with, index_of, drop, All,
  or_else, map_get, Option-cases, Bool-cases,
}
use aoox_api.EnvText.{hash, split_lines, parse_trimmed, parse_line, env_map}
use aoox_api.EnvText.Entry.{NoLineFeed, IsValue}
use aoox_api.EnvText.Feeds.{split_lines-NoLineFeed}
use aoox_api.EnvText.Maps.{entry_value, line_value, map_get-env_map}

trim_end-tail : (c : ℕ) (s : Text) → trim_end (c ∷ s) ≡ c ∷ s → trim_end s ≡ s
unfolding trim_end
trim_end-tail c s h = ground arith

trim_end-drop : (n : ℕ) (s : Text) → trim_end s ≡ s → trim_end (drop n s) ≡ drop n s
trim_end-drop zero s h = h
trim_end-drop (suc n) [] h = h
trim_end-drop (suc n) (c ∷ s) h = trim_end-drop n s (trim_end-tail c s h)

trim_end-trim_start : (s : Text) → trim_end s ≡ s → trim_end (trim_start s) ≡ trim_start s
unfolding trim_start
trim_end-trim_start [] h = h
trim_end-trim_start (c ∷ s) h = ground (arith, trim_end-trim_start s, trim_end-tail c s)

trim_end_twice : (s : Text) → trim_end (trim_end s) ≡ trim_end s
unfolding trim_end
trim_end_twice [] = refl
trim_end_twice (c ∷ s) = ground (arith, trim_end_twice s)

trim_end-trim : (s : Text) → trim_end (trim s) ≡ trim s
unfolding trim
trim_end-trim s = trim_end-trim_start (trim_end s) (trim_end_twice s)

drop-NoLineFeed : (n : ℕ) (s : Text) → NoLineFeed s → NoLineFeed (drop n s)
drop-NoLineFeed zero s h = h
drop-NoLineFeed (suc n) [] h = tt
drop-NoLineFeed (suc n) (c ∷ s) (h, hs) = drop-NoLineFeed n s hs

trim_start-NoLineFeed : (s : Text) → NoLineFeed s → NoLineFeed (trim_start s)
unfolding trim_start
trim_start-NoLineFeed [] h = tt
trim_start-NoLineFeed (c ∷ s) h = ground (arith, trim_start-NoLineFeed s)

trim_end-NoLineFeed : (s : Text) → NoLineFeed s → NoLineFeed (trim_end s)
unfolding trim_end
trim_end-NoLineFeed [] h = tt
trim_end-NoLineFeed (c ∷ s) h = ground (arith, trim_end-NoLineFeed s)

-- The value of an entry, if there is one.
abbrev EntryIsValue : Option (Text × Text) → Type 0
EntryIsValue none = Unit
EntryIsValue (some (k, v)) = IsValue v

drop-IsValue :
    (n : ℕ) (line : Text) → NoLineFeed line → trim_end line ≡ line → IsValue (drop n line)
drop-IsValue n line h e = record {
  one_line = drop-NoLineFeed n line h;
  trimmed = trim_end-drop n line e;
}

parse_trimmed-IsValue :
    (line : Text) → NoLineFeed line → trim_end line ≡ line → EntryIsValue (parse_trimmed line)
unfolding parse_trimmed
parse_trimmed-IsValue line h e = elim (Bool-cases (is_empty line || starts_with line hash)) [
  | inl f ↦ rw f tt
  | inr f ↦ elim (Option-cases (index_of line b'=')) [
    | inl g ↦ rw (f, g) tt
    | inr (eq, g) ↦ elim (Bool-cases (leb eq 0)) [
      | inl k ↦ rw (f, g, k) tt
      | inr k ↦ rw (f, g, k) (drop-IsValue (eq + 1) line h e)
    ]
  ]
]

parse_line-IsValue : (raw : Text) → NoLineFeed raw → EntryIsValue (parse_line raw)
unfolding parse_line trim
parse_line-IsValue raw h =
    parse_trimmed-IsValue (trim raw)
      (trim_start-NoLineFeed (trim_end raw) (trim_end-NoLineFeed raw h)) (trim_end-trim raw)

abbrev IsValueOf : Option Text → Type 0
IsValueOf none = Unit
IsValueOf (some v) = IsValue v

entry_value-IsValue :
    (k : Text) (e : Option (Text × Text)) → EntryIsValue e → IsValueOf (entry_value k e)
entry_value-IsValue k none h = tt
entry_value-IsValue k (some (j, v)) h = elim (Bool-cases (text_eq j k)) [
  | inl e ↦ rw e h
  | inr e ↦ rw e tt
]

or_else-IsValue : (a b : Option Text) → IsValueOf a → IsValueOf b → IsValueOf (or_else a b)
or_else-IsValue none b h k = k
or_else-IsValue (some v) b h k = h

line_value-IsValue : (k : Text) (ls : List Text) → All NoLineFeed ls → IsValueOf (line_value k ls)
unfolding line_value
line_value-IsValue k [] h = tt
line_value-IsValue k (l ∷ ls) (h, hs) =
    or_else-IsValue (line_value k ls) (entry_value k (parse_line l)) (line_value-IsValue k ls hs)
      (entry_value-IsValue k (parse_line l) (parse_line-IsValue l h))

pub map_get-IsValue : (k v text : Text) → map_get k (env_map text) ≡ some v → IsValue v
map_get-IsValue k v text e =
    subst IsValueOf (sym (map_get-env_map k text) ∙ e)
      (line_value-IsValue k (split_lines text) (split_lines-NoLineFeed text))
