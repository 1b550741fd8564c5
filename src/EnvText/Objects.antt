-- ===== src/EnvText/Objects.antt =====
-- Plain objects keyed by the names of variables (`Record<string, T>` of
-- src/modules/variable-set/env-text.ts): their own properties, in the order of insertion.
use aoox_api.Prelude.{
  Bool, true, false, not, ◌&&◌, Option, none, some, List, [], ◌∷◌, map, every, length, ◌==◌,
  if◌then◌else◌, Text, codes, text_eq, map_set,
}
use aoox_api.EnvText.Write.{is_inherited}

-- `o[key] = value`, where the value is no object: such a write to `__proto__` is lost.
unfoldable pub assign {ℓ} : {V : Type ℓ} → Text → V → List (Text × V) → List (Text × V)
assign key value o = if text_eq key (codes "__proto__") then o else map_set key value o

-- What reading a flag can give: a flag, or a member that every plain object inherits.
pub data Flag : Type 0 where
  marked : Bool → Flag
  inherited : Flag

-- `SecretFlags`, as the database keeps it.
abbrev pub Flags : Type 0
Flags = List (Text × Bool)

abbrev pub as_flag : Text × Bool → Text × Flag
as_flag (key, b) = (key, marked b)

-- The same object in the program, where `nextFlags` may have copied an inherited member.
abbrev pub LiveFlags : Type 0
LiveFlags = List (Text × Flag)

abbrev pub as_live : Flags → LiveFlags
as_live flags = map as_flag flags

-- What writing the object to the database keeps: a member that is a function is left out.
unfoldable pub stored_flags : LiveFlags → Flags
stored_flags [] = []
stored_flags ((key, marked b) ∷ flags) = (key, b) ∷ stored_flags flags
stored_flags ((key, inherited) ∷ flags) = stored_flags flags

inherited_flag : Text → Option Flag
inherited_flag key = if is_inherited key then some inherited else none

-- `flags[key]`, `none` for undefined.
unfoldable pub flag_of : LiveFlags → Text → Option Flag
unfolding inherited_flag
flag_of [] key = inherited_flag key
flag_of ((k, flag) ∷ flags) key = if text_eq k key then some flag else flag_of flags key

abbrev pub bool_eq : Bool → Bool → Bool
bool_eq true b = b
bool_eq false b = not b

-- `a[key] === b[key]`
abbrev pub flag_eq : Option Flag → Option Flag → Bool
flag_eq none none = true
flag_eq (some (marked a)) (some (marked b)) = bool_eq a b
flag_eq (some inherited) (some inherited) = true
flag_eq _ _ = false

-- `sameFlags` of src/modules/variable-set/variable-set-environment.service.ts
unfoldable pub same_flags : LiveFlags → LiveFlags → Bool
same_flags a b = length a == length b && every (λ e. flag_eq (flag_of a e.0) (flag_of b e.0)) a
