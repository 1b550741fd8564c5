-- ===== src/EnvText/Flags.antt =====
-- Which variables are secret (src/modules/variable-set/env-text.ts): the flags after a write, and
-- whether a value is masked in logs.
use aoox_api.Prelude.{
  ℕ, ◌+◌, Bool, true, false, not, ◌&&◌, ◌||◌, Option, none, some, List, [], ◌∷◌, length, every, any,
  leb, ltb, if◌then◌else◌, Text, codes, is_empty, starts_with, includes, map_get,
}
use aoox_api.EnvText.{is_letter, is_digit}
use aoox_api.EnvText.Objects.{assign, Flag, marked, LiveFlags, flag_of}

abbrev lower_case : ℕ → ℕ
lower_case c = if leb b'A' c && leb c b'Z' then c + 32 else c

abbrev lower : Text → Text
lower [] = []
lower (c ∷ s) = lower_case c ∷ lower s

-- `part` occurs in the text.
unfoldable pub occurs : Text → Text → Bool
occurs part [] = is_empty part
occurs part (c ∷ s) = starts_with (c ∷ s) part || occurs part s

-- The alternatives of `SECRET_NAME`.
abbrev secret_words : List Text
secret_words =
    codes "password"
    ∷ codes "secret"
    ∷ codes "token"
    ∷ codes "key"
    ∷ codes "private"
    ∷ codes "credential"
    ∷ []

unfoldable pub looks_secret_name : Text → Bool
unfolding occurs
looks_secret_name name = any (λ word. occurs word (lower name)) secret_words

abbrev pub min_redact_length : ℕ
min_redact_length = 6

unfoldable pub should_redact_value : Text → Bool
unfolding is_letter is_digit
should_redact_value value =
    if ltb (length value) min_redact_length
    then false
    else if not (is_empty value) && every is_letter value
    then false
    else if not (is_empty value) && every is_digit value
    then false
    else true

masks : Text → Text → Option Flag → Bool
masks key value (some (marked true)) = ltb 0 (length value)
masks key value (some (marked false)) = false
masks key value _ =
    if looks_secret_name key && leb min_redact_length (length value)
    then true
    else should_redact_value value

unfoldable pub is_secret_value : Text → Text → LiveFlags → Bool
unfolding masks
is_secret_value key value flags = masks key value (flag_of flags key)

-- A value of a patch: a flag, null, or what is neither.
pub data Patch : Type 0 where
  mark : Bool → Patch
  clear other : Patch

abbrev pub FlagPatch : Type 0
FlagPatch = List (Text × Patch)

-- The flag of a key without an entry in the patch.
kept_flag : Bool → Option Flag → Option Flag
kept_flag becomes_secret (some flag) = some flag
kept_flag becomes_secret none = if becomes_secret then some (marked true) else none

requested_flag : Bool → Option Flag → Option Patch → Option Flag
unfolding kept_flag
requested_flag becomes_secret previous (some (mark b)) = some (marked b)
requested_flag becomes_secret previous (some clear) = none
requested_flag becomes_secret previous _ = kept_flag becomes_secret previous

-- One round of the loop of `nextFlags`: what it assigns.
unfoldable pub next_flag : LiveFlags → List Text → FlagPatch → Text → Option Flag
unfolding requested_flag
next_flag previous known patch key =
    requested_flag (not (includes known key) && looks_secret_name key) (flag_of previous key)
      (map_get key patch)

-- `out[key] = flag`. The inherited member at `__proto__` changes nothing there either.
abbrev pub put_flag : Text → Option Flag → LiveFlags → LiveFlags
put_flag key none out = out
put_flag key (some flag) out = assign key flag out

unfoldable pub next_flags_from :
    LiveFlags → List Text → FlagPatch → LiveFlags → List Text → LiveFlags
unfolding next_flag assign
next_flags_from previous known patch out [] = out
next_flags_from previous known patch out (key ∷ keys) =
    next_flags_from previous known patch (put_flag key (next_flag previous known patch key) out)
      keys

unfoldable pub next_flags : LiveFlags → List Text → List Text → FlagPatch → LiveFlags
unfolding next_flags_from
next_flags previous previous_keys keys patch = next_flags_from previous previous_keys patch [] keys
