-- ===== src/EnvText.antt =====
-- `KEY=VALUE` texts (src/modules/variable-set/env-text.ts): parsing, and writing key by key.
pub mod Write
pub mod Entry
pub mod Maps
pub mod Replace
pub mod Feeds
pub mod Append
pub mod SetValues
pub mod Objects
pub mod Notes
pub mod Flags
pub mod References
pub mod Validate
pub mod Validated
pub mod Lines
pub mod Names
pub mod Blank
pub mod Values
pub mod Written
pub mod Compared
pub mod Compare
mod Tests
mod TextTests
use aoox_api.Prelude.{
  ℕ, ◌+◌, Bool, false, ◌&&◌, ◌||◌, Option, none, some, List, [], ◌∷◌, ◌++◌, leb, ◌==◌,
  if◌then◌else◌, Text, text_eq, is_empty, trim, starts_with, index_of, take, drop, every, ltb,
  map_from,
}

-- `lines[0] = c + lines[0]`
abbrev pub push_first : ℕ → List Text → List Text
push_first c [] = []
push_first c (l ∷ ls) = (c ∷ l) ∷ ls

abbrev pub starts_line_feed : Text → Bool
starts_line_feed [] = false
starts_line_feed (c ∷ s) = c == 10

-- `text.split(/\r?\n/)`: a carriage return right before a line feed belongs to the separator.
unfoldable pub split_lines : Text → List Text
split_lines [] = [] ∷ []
split_lines (c ∷ s) =
    let rest = split_lines s in
    if c == 10 then [] ∷ rest else if c == 13 && starts_line_feed s then rest else push_first c rest

-- `lines.join('\n')`
unfoldable pub join_lines : List Text → Text
join_lines [] = []
join_lines (l ∷ []) = l
join_lines (l ∷ m ∷ ms) = l ++ (10 ∷ join_lines (m ∷ ms))

abbrev pub hash : Text
hash = b'#' ∷ []

-- One round of the loop of `parseEnvLines`, from the trimmed line on; `none` is `continue`.
unfoldable pub parse_trimmed : Text → Option (Text × Text)
parse_trimmed line =
    if is_empty line || starts_with line hash then none else elim (index_of line b'=') [
      | none ↦ none
      | some eq ↦ if leb eq 0 then none else some (trim (take eq line), drop (eq + 1) line)
    ]

unfoldable pub parse_line : Text → Option (Text × Text)
unfolding parse_trimmed
parse_line raw = parse_trimmed (trim raw)

unfoldable pub parse_lines : List Text → List (Text × Text)
parse_lines [] = []
parse_lines (raw ∷ raws) = elim (parse_line raw) [
  | none ↦ parse_lines raws
  | some entry ↦ entry ∷ parse_lines raws
]

unfoldable pub parse_env_lines : Text → List (Text × Text)
unfolding parse_lines split_lines
parse_env_lines text = parse_lines (split_lines text)

-- A `Map`: its entries in the order of insertion, one for each key.
abbrev pub EnvMap : Type 0
EnvMap = List (Text × Text)

unfoldable pub env_map : Text → EnvMap
unfolding map_from parse_env_lines
env_map text = map_from [] (parse_env_lines text)

pub is_letter : ℕ → Bool
is_letter c = (leb b'A' c && leb c b'Z') || (leb b'a' c && leb c b'z')

pub is_digit : ℕ → Bool
is_digit c = leb b'0' c && leb c b'9'

-- `ENV_NAME`, `/^[A-Za-z_][A-Za-z0-9_]*$/`
pub is_name_start : ℕ → Bool
unfolding is_letter
is_name_start c = is_letter c || c == b'_'

pub is_name_part : ℕ → Bool
unfolding is_name_start is_digit
is_name_part c = is_name_start c || is_digit c

unfoldable pub is_env_name : Text → Bool
unfolding is_name_start is_name_part
is_env_name [] = false
is_env_name (c ∷ s) = is_name_start c && every is_name_part s

unfoldable pub defines_key : Text → Text → Bool
defines_key line key =
    let t = trim line in
    if is_empty t || starts_with t hash then false else elim (index_of t b'=') [
      | none ↦ false
      | some eq ↦ ltb 0 eq && text_eq (trim (take eq t)) key
    ]
