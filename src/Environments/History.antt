-- ===== src/Environments/History.antt =====
-- The history that `commit` keeps (src/modules/variable-set/variable-set-environment.service.ts).
use aoox_api.Prelude.{
  ℕ, zero, suc, ◌≤◌, ◌<◌, ◌≡◌, refl, sym, ap, ◌∙◌, Bool, true, false, Option, none, some, List, [],
  ◌∷◌, length, take, every, arith, Text, text_eq_iff, map_get, All, lt→ltb,
}
use aoox_api.EnvText.Objects.{
  Flag, marked, inherited, Flags, LiveFlags, as_live, stored_flags, flag_of, flag_eq, same_flags,
}
use aoox_api.Environments.{text_of, Version, Row}
use aoox_api.Environments.Commit.{normalize_text, insert_version}

-- The version has the content of the row, but for line endings and white space at the end, and
-- exactly its flags.
pub record Mirrors (v : Version) (row : Row) : Type 0 where
  pub text : normalize_text (text_of v.content) ≡ normalize_text (text_of row.content)
  pub flags : (k : Text) (b : Bool) → map_get k v.flags ≡ some b → map_get k row.flags ≡ some b
  pub no_more : length row.flags ≤ length v.flags

abbrev pub NewestMirrors : List Version → Row → Type 0
NewestMirrors [] row = Unit
NewestMirrors (v ∷ vs) row = Mirrors v row

-- All versions are older than the time.
abbrev pub AreBefore : ℕ → List Version → Type 0
AreBefore now = All (λ v. v.created_at < now)

pub length-take : {A : Type 0} (n : ℕ) (xs : List A) → length (take n xs) ≤ n
length-take zero xs = omega arith
length-take (suc n) [] = omega arith
length-take (suc n) (x ∷ xs) = omega (arith, length-take n xs)

pub insert_version-newest :
    (v : Version) (vs : List Version) → AreBefore v.created_at vs → insert_version v vs ≡ v ∷ vs
unfolding insert_version
insert_version-newest v [] h = refl
insert_version-newest v (w ∷ ws) (h, hs) = rw (lt→ltb w.created_at v.created_at h) refl

-- Flags.
flag_of-as_live :
    (flags : Flags) (k : Text) (b : Bool)
    → map_get k flags ≡ some b
    → flag_of (as_live flags) k ≡ some (marked b)
unfolding map_get flag_of
flag_of-as_live [] k b h = cc
flag_of-as_live ((j, c) ∷ flags) k b h = ground (arith, flag_of-as_live flags k b)

map_get-stored_flags :
    (flags : LiveFlags) (k : Text) (b : Bool)
    → flag_of flags k ≡ some (marked b)
    → map_get k (stored_flags flags) ≡ some b
unfolding map_get flag_of stored_flags
map_get-stored_flags [] k b h = ground arith
map_get-stored_flags ((j, marked c) ∷ flags) k b h = ground (arith, map_get-stored_flags flags k b)
map_get-stored_flags ((j, inherited) ∷ flags) k b h = ground (arith, map_get-stored_flags flags k b)

length-stored_flags : (flags : LiveFlags) → length (stored_flags flags) ≤ length flags
unfolding stored_flags
length-stored_flags [] = omega arith
length-stored_flags ((j, marked c) ∷ flags) = omega (arith, length-stored_flags flags)
length-stored_flags ((j, inherited) ∷ flags) = omega (arith, length-stored_flags flags)

length-as_live : (flags : Flags) → length (as_live flags) ≡ length flags
length-as_live [] = refl
length-as_live (e ∷ flags) = ap suc (length-as_live flags)

every-as_live :
    (p : Text → Bool) (flags : Flags) (k : Text) (b : Bool)
    → every (λ e. p e.0) (as_live flags) ≡ true
    → map_get k flags ≡ some b
    → p k ≡ true
unfolding map_get
every-as_live p [] k b h e = cc
every-as_live p ((j, c) ∷ flags) k b h e =
    ground (arith, every-as_live p flags k b, text_eq_iff j k)

flag_eq-marked :
    (o : Option Flag) (b : Bool) → flag_eq (some (marked b)) o ≡ true → o ≡ some (marked b)
flag_eq-marked none b h = cc
flag_eq-marked (some inherited) b h = cc
flag_eq-marked (some (marked true)) true h = refl
flag_eq-marked (some (marked true)) false h = cc
flag_eq-marked (some (marked false)) true h = cc
flag_eq-marked (some (marked false)) false h = refl

-- A flag is the same after a write that `sameFlags` finds to change nothing.
pub same_flags-map_get :
    (flags : Flags) (next : LiveFlags) (k : Text) (b : Bool)
    → same_flags (as_live flags) next ≡ true
    → map_get k flags ≡ some b
    → map_get k (stored_flags next) ≡ some b
unfolding same_flags
same_flags-map_get flags next k b h e =
    let all =
      every-as_live (λ j. flag_eq (flag_of (as_live flags) j) (flag_of next j)) flags k b
        (ground arith) e in
    map_get-stored_flags next k b (
      flag_eq-marked (flag_of next k) b
        (ap (λ o. flag_eq o (flag_of next k)) (sym (flag_of-as_live flags k b e)) ∙ all))

pub same_flags-length :
    (flags : Flags) (next : LiveFlags)
    → same_flags (as_live flags) next ≡ true
    → length (stored_flags next) ≤ length flags
unfolding same_flags
same_flags-length flags next h = ground (arith, length-stored_flags next, length-as_live flags)
