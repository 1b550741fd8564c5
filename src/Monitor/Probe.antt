-- ===== src/Monitor/Probe.antt =====
-- What a monitor requests and which answers it takes for healthy
-- (src/modules/http-monitor/http-probe.ts).
use aoox_api.Prelude.{
  ℕ, ◌+◌, ◌*◌, ◌-◌, Bool, not, ◌&&◌, ◌||◌, Option, none, some, List, [], ◌∷◌, ltb, leb, length, any,
  Text, codes, trim, split_on, starts_with, includes, is_empty, if◌then◌else◌, ◌==◌,
}

abbrev pub max_path_length : ℕ
max_path_length = 200

pub data PathError : Type 0 where
  empty_path too_long no_slash two_slashes bad_character bad_encoding parent_segment
        control_character :
      PathError

-- `/[\u0000- \u007f\\#]/`
unfoldable pub is_forbidden : ℕ → Bool
is_forbidden c = leb c 32 || c == 127 || c == 92 || c == 35

-- `/[\u0000-\u001f\u007f]/`
unfoldable pub is_control : ℕ → Bool
is_control c = leb c 31 || c == 127

abbrev pub before_query : Text → Text
before_query path = elim (split_on 63 path) [ [] ↦ [] | p ∷ ps ↦ p ]

-- What follows the decoding, `none` for an exception.
unfoldable pub check_decoded : Option Text → Option PathError
unfolding is_control
check_decoded none = some bad_encoding
check_decoded (some decoded) =
    if includes (split_on 47 decoded) (codes "..") || any (λ c. c == 92) decoded
    then some parent_segment
    else if any is_control decoded
    then some control_character
    else none

-- `validateMonitorPath` of a string, over `decodeURIComponent`; `none` is a good path.
unfoldable pub validate_monitor_path : (Text → Option Text) → Text → Option PathError
unfolding check_decoded is_forbidden
validate_monitor_path decode path =
    if is_empty path
    then some empty_path
    else if ltb max_path_length (length path)
    then some too_long
    else if not (starts_with path (codes "/"))
    then some no_slash
    else if starts_with path (codes "//")
    then some two_slashes
    else if any is_forbidden path
    then some bad_character
    else check_decoded (decode (before_query path))

abbrev pub is_digit : ℕ → Bool
is_digit c = leb 48 c && leb c 57

-- `\d{3}`
unfoldable pub three_digits : ℕ → ℕ → ℕ → Option ℕ
three_digits a b c =
    if is_digit a && is_digit b && is_digit c
    then some ((a - 48) * 100 + (b - 48) * 10 + (c - 48))
    else none

abbrev pub range_of : Option ℕ → Option ℕ → Option (ℕ × ℕ)
range_of none hi = none
range_of (some lo) none = none
range_of (some lo) (some hi) = if ltb lo 100 || ltb 599 hi || ltb hi lo then none else some (lo, hi)

-- One part, by `/^(\d{3})(?:-(\d{3}))?$/`.
unfoldable pub parse_part : Text → Option (ℕ × ℕ)
unfolding three_digits
parse_part (a ∷ b ∷ c ∷ []) = range_of (three_digits a b c) (three_digits a b c)
parse_part (a ∷ b ∷ c ∷ d ∷ x ∷ y ∷ z ∷ []) =
    if d == 45 then range_of (three_digits a b c) (three_digits x y z) else none
parse_part _ = none

unfoldable pub parse_parts : List Text → Option (List (ℕ × ℕ))
unfolding parse_part
parse_parts [] = some []
parse_parts (p ∷ ps) =
    let rest = parse_parts ps in
    elim (parse_part (trim p)) [
      | none ↦ none
      | some r ↦ elim rest [ none ↦ none | some rs ↦ some (r ∷ rs) ]
    ]

unfoldable pub parse_expected_codes : Text → Option (List (ℕ × ℕ))
unfolding parse_parts
parse_expected_codes spec =
    if ltb 80 (length spec)
    then none
    else if ltb 10 (length (split_on 44 spec))
    then none
    else parse_parts (split_on 44 spec)

abbrev pub in_range : ℕ → ℕ × ℕ → Bool
in_range code (lo, hi) = leb lo code && leb code hi

unfoldable pub status_is_healthy : ℕ → Text → Bool
unfolding parse_expected_codes
status_is_healthy code spec = elim (parse_expected_codes spec) [
  | none ↦ leb 200 code && ltb code 400
  | some ranges ↦ any (in_range code) ranges
]
