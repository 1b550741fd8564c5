-- ===== src/EnvText/References.antt =====
-- The references in a value: `matchAll(REFERENCE)` of src/modules/variable-set/env-text.ts. Each part
-- of the pattern ends at a code unit that it cannot hold, so that the first way to match is the only.
use aoox_api.Prelude.{
  ℕ, zero, suc, ◌-◌, Bool, ◌&&◌, ◌||◌, Option, none, some, List, [], ◌∷◌, leb, ◌==◌, if◌then◌else◌,
  Text, codes, is_empty, trim_start, starts_with, length, take, drop,
}
use aoox_api.EnvText.{is_letter, is_digit}

is_lower : ℕ → Bool
is_lower c = leb b'a' c && leb c b'z'

-- `[A-Za-z0-9_-]`
is_slug_part : ℕ → Bool
unfolding is_letter is_digit
is_slug_part c = is_letter c || is_digit c || c == b'_' || c == b'-'

-- `[A-Za-z0-9_$-]`
is_db_name_part : ℕ → Bool
unfolding is_slug_part
is_db_name_part c = is_slug_part c || c == b'$'

-- The longest beginning with the test, and what follows it.
unfoldable pub run_of : (ℕ → Bool) → Text → Text
run_of p [] = []
run_of p (c ∷ s) = if p c then c ∷ run_of p s else []

unfoldable pub after_run : (ℕ → Bool) → Text → Text
after_run p [] = []
after_run p (c ∷ s) = if p c then after_run p s else c ∷ s

abbrev pub opening : Text
opening = codes "${{"

abbrev closing : Text
closing = codes "}}"

-- One match: the groups of the pattern, and the text behind it.
pub record Match : Type 0 where
  pub scope : Text
  pub name : Text
  pub field : Option Text
  pub db_name : Option Text
  pub rest : Text

-- An optional group, which begins with the code unit `mark`: `none` if it begins and does not match.
unfoldable pub group : ℕ → (ℕ → Bool) → Text → Option (Option Text × Text)
unfolding run_of after_run
group mark p [] = some (none, [])
group mark p (c ∷ s) =
    if c == mark
    then (if is_empty (run_of p s) then none else some (some (run_of p s), after_run p s))
    else some (none, c ∷ s)

abbrev close_match : Text → Text → Option Text → Option Text → Text → Option Match
close_match scope name field db_name s =
    let t = trim_start s in
    if starts_with t closing
    then some
        (record { scope = scope; name = name; field = field; db_name = db_name; rest = drop 2 t })
    else none

match_name : Text → Text → Option Match
unfolding run_of after_run group is_slug_part is_lower is_db_name_part
match_name scope s =
    if is_empty (run_of is_slug_part s)
    then none
    else elim (group b'.' is_lower (after_run is_slug_part s)) [
      | none ↦ none
      | some (field, t) ↦ elim (group b':' is_db_name_part t) [
        | none ↦ none
        | some (db_name, u) ↦ close_match scope (run_of is_slug_part s) field db_name u
      ]
    ]

match_scope : Text → Option Match
unfolding run_of after_run is_lower match_name
match_scope s =
    let after = after_run is_lower s in
    if is_empty (run_of is_lower s)
    then none
    else if starts_with after (codes ".")
    then match_name (run_of is_lower s) (drop 1 after)
    else none

-- The match at the beginning of the text.
unfoldable pub match_at : Text → Option Match
unfolding match_scope match_name is_lower is_slug_part is_db_name_part
match_at s = if starts_with s opening then match_scope (trim_start (drop 3 s)) else none

-- A match, with its whole text.
pub record Reference : Type 0 where
  pub whole : Text
  pub found : Match

-- All matches, from the left; `skip` code units still belong to the last one.
unfoldable pub references_from : ℕ → Text → List Reference
unfolding match_at
references_from skip [] = []
references_from (suc skip) (c ∷ s) = references_from skip s
references_from zero (c ∷ s) = elim (match_at (c ∷ s)) [
  | none ↦ references_from 0 s
  | some m ↦
      let n = length (c ∷ s) - length m.rest in
      record { whole = take n (c ∷ s); found = m } ∷ references_from (n - 1) s
]

unfoldable pub references : Text → List Reference
unfolding references_from
references value = references_from 0 value

-- `(value.match(/\$\{\{/g) ?? []).length`: two openings never overlap.
unfoldable pub count_opens : Text → ℕ
unfolding starts_with
count_opens [] = 0
count_opens (c ∷ s) = let n = count_opens s in if starts_with (c ∷ s) opening then suc n else n
