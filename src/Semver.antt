-- ===== src/Semver.antt =====
-- Precedence of versions and the newest of the published ones (src/modules/registry/semver.ts). Of the
-- number that a comparison returns only the sign is kept, which is all that its callers read.
pub mod Order
pub mod Precedence
pub mod Newest
mod Tests
use aoox_api.Prelude.{
  ℕ, Bool, true, false, not, ◌&&◌, ◌||◌, Option, none, some, List, [], ◌∷◌, ltb, leb, length, every,
  Text, if◌then◌else◌,
}

pub data Sign : Type 0 where
  less equal more : Sign

-- The second comparison decides where the first one does not.
abbrev pub then_by : Sign → Sign → Sign
then_by equal s = s
then_by less s = less
then_by more s = more

pub record Semver : Type 0 where
  pub major : ℕ
  pub minor : ℕ
  pub patch : ℕ
  pub prerelease : List Text

unfoldable pub compare_numbers : ℕ → ℕ → Sign
compare_numbers a b = if ltb a b then less else if ltb b a then more else equal

-- `<` and `>` of two strings: by code units, a proper prefix first.
unfoldable pub compare_texts : Text → Text → Sign
unfolding compare_numbers
compare_texts [] [] = equal
compare_texts [] (b ∷ t) = less
compare_texts (a ∷ s) [] = more
compare_texts (a ∷ s) (b ∷ t) = then_by (compare_numbers a b) (compare_texts s t)

-- `/^\d+$/`
unfoldable pub is_numeric : Text → Bool
is_numeric [] = false
is_numeric (c ∷ s) = every (λ d. leb 48 d && leb d 57) (c ∷ s)

-- `compareIdentifiers` for identifiers of which it is known whether they are numeric.
unfoldable pub compare_kinds : Bool → Bool → Text → Text → Sign
compare_kinds true true a b = then_by (compare_numbers (length a) (length b)) (compare_texts a b)
compare_kinds true false a b = less
compare_kinds false true a b = more
compare_kinds false false a b = compare_texts a b

unfoldable pub compare_identifiers : Text → Text → Sign
unfolding compare_kinds
compare_identifiers a b = compare_kinds (is_numeric a) (is_numeric b) a b

-- The loop over the shared identifiers, then the difference of the lengths.
unfoldable pub compare_lists : List Text → List Text → Sign
unfolding compare_identifiers
compare_lists [] [] = equal
compare_lists [] (b ∷ bs) = less
compare_lists (a ∷ as_) [] = more
compare_lists (a ∷ as_) (b ∷ bs) = then_by (compare_identifiers a b) (compare_lists as_ bs)

-- A stable release outranks any pre-release of the same version.
unfoldable pub compare_prerelease : List Text → List Text → Sign
unfolding compare_lists
compare_prerelease [] [] = equal
compare_prerelease [] (b ∷ bs) = more
compare_prerelease (a ∷ as_) [] = less
compare_prerelease (a ∷ as_) (b ∷ bs) = compare_lists (a ∷ as_) (b ∷ bs)

unfoldable pub compare_semver : Semver → Semver → Sign
unfolding compare_prerelease
compare_semver a b = then_by (compare_numbers a.major b.major) (
    then_by (compare_numbers a.minor b.minor)
      (then_by (compare_numbers a.patch b.patch) (compare_prerelease a.prerelease b.prerelease)))

abbrev pub is_stable : Semver → Bool
is_stable v = elim v.prerelease [ [] ↦ true | _ ∷ _ ↦ false ]

abbrev pub is_more : Sign → Bool
is_more more = true
is_more _ = false

abbrev pub allows_prerelease : Option Semver → Bool
allows_prerelease none = true
allows_prerelease (some v) = not (is_stable v)

-- `parseSemver` is an argument of what follows.
module _ (parse_semver : Text → Option Semver) where
  -- One tag of the loop of `newestVersion`.
  unfoldable pub consider :
      Bool → Option (Text × Semver) → Text → Option Semver → Option (Text × Semver)
  consider allow best tag none = best
  consider allow none tag (some v) = if not (is_stable v) && not allow then none else some (tag, v)
  consider allow (some best) tag (some v) =
      if not (is_stable v) && not allow
      then some best
      else if is_more (compare_semver v best.1)
      then some (tag, v)
      else some best

  unfoldable pub newest_from : Bool → Option (Text × Semver) → List Text → Option (Text × Semver)
  unfolding consider
  newest_from allow best [] = best
  newest_from allow best (tag ∷ tags) =
      newest_from allow (consider allow best tag (parse_semver tag)) tags

  unfoldable pub newest_version : List Text → Text → Option Text
  unfolding newest_from
  newest_version tags current =
      elim (newest_from (allows_prerelease (parse_semver current)) none tags) [
        | none ↦ none
        | some best ↦ some best.0
      ]

  unfoldable pub is_newer : Text → Text → Bool
  unfolding compare_semver
  is_newer latest current = elim (parse_semver latest) [
    | none ↦ false
    | some l ↦ elim (parse_semver current) [ none ↦ false | some c ↦ is_more (compare_semver l c) ]
  ]
