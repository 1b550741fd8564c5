-- ===== src/Semver/Precedence.antt =====
-- The comparisons of src/modules/registry/semver.ts as orders.
use aoox_api.Prelude.{◌≡◌, refl, Bool, true, false, List, [], ◌∷◌, length, Text}
use aoox_api.Semver.{
  compare_texts, compare_kinds, compare_identifiers, compare_lists, compare_prerelease,
  compare_semver, is_numeric,
}
use aoox_api.Semver.Order.{
  flip, Joins, IsOrder, Joins-less, Joins-more, less-Joins, more-Joins, then_by-flip, then_by-Joins,
  compare_numbers-IsOrder,
}
open compare_numbers-IsOrder use {flips as numbers_flip, joins as numbers_join}

texts_flip : (s t : Text) → compare_texts t s ≡ flip (compare_texts s t)
unfolding compare_texts flip
texts_flip [] [] = refl
texts_flip [] (b ∷ t) = refl
texts_flip (a ∷ s) [] = refl
texts_flip (a ∷ s) (b ∷ t) = then_by-flip _ _ _ _ (numbers_flip a b) (texts_flip s t)

texts_join : (s t u : Text) → Joins (compare_texts s t) (compare_texts t u) (compare_texts s u)
unfolding compare_texts
texts_join [] [] [] = refl
texts_join [] [] (c ∷ u) = refl
texts_join [] (b ∷ t) [] = tt
texts_join [] (b ∷ t) (c ∷ u) = less-Joins (compare_texts (b ∷ t) (c ∷ u))
texts_join (a ∷ s) [] [] = refl
texts_join (a ∷ s) [] (c ∷ u) = tt
texts_join (a ∷ s) (b ∷ t) [] = Joins-more (compare_texts (a ∷ s) (b ∷ t))
texts_join (a ∷ s) (b ∷ t) (c ∷ u) =
    then_by-Joins _ _ _ _ _ _ (numbers_join a b c) (texts_join s t u)

kinds_flip : (p q : Bool) (s t : Text) → compare_kinds q p t s ≡ flip (compare_kinds p q s t)
unfolding compare_kinds flip
kinds_flip true true s t =
    then_by-flip _ _ _ _ (numbers_flip (length s) (length t)) (texts_flip s t)
kinds_flip true false s t = refl
kinds_flip false true s t = refl
kinds_flip false false s t = texts_flip s t

kinds_join :
    (p q r : Bool) (s t u : Text)
    → Joins (compare_kinds p q s t) (compare_kinds q r t u) (compare_kinds p r s u)
unfolding compare_kinds
kinds_join true true true s t u =
    then_by-Joins _ _ _ _ _ _ (numbers_join (length s) (length t) (length u)) (texts_join s t u)
kinds_join true true false s t u = Joins-less (compare_kinds true true s t)
kinds_join true false true s t u = tt
kinds_join true false false s t u = less-Joins (compare_texts t u)
kinds_join false true true s t u = more-Joins (compare_kinds true true t u)
kinds_join false true false s t u = tt
kinds_join false false true s t u = Joins-more (compare_texts s t)
kinds_join false false false s t u = texts_join s t u

lists_flip : (s t : List Text) → compare_lists t s ≡ flip (compare_lists s t)
unfolding compare_lists compare_identifiers flip
lists_flip [] [] = refl
lists_flip [] (b ∷ t) = refl
lists_flip (a ∷ s) [] = refl
lists_flip (a ∷ s) (b ∷ t) =
    then_by-flip _ _ _ _ (kinds_flip (is_numeric a) (is_numeric b) a b) (lists_flip s t)

lists_join : (s t u : List Text) → Joins (compare_lists s t) (compare_lists t u) (compare_lists s u)
unfolding compare_lists compare_identifiers
lists_join [] [] [] = refl
lists_join [] [] (c ∷ u) = refl
lists_join [] (b ∷ t) [] = tt
lists_join [] (b ∷ t) (c ∷ u) = less-Joins (compare_lists (b ∷ t) (c ∷ u))
lists_join (a ∷ s) [] [] = refl
lists_join (a ∷ s) [] (c ∷ u) = tt
lists_join (a ∷ s) (b ∷ t) [] = Joins-more (compare_lists (a ∷ s) (b ∷ t))
lists_join (a ∷ s) (b ∷ t) (c ∷ u) =
    then_by-Joins _ _ _ _ _ _ (kinds_join (is_numeric a) (is_numeric b) (is_numeric c) a b c)
      (lists_join s t u)

prerelease_flip : (s t : List Text) → compare_prerelease t s ≡ flip (compare_prerelease s t)
unfolding compare_prerelease flip
prerelease_flip [] [] = refl
prerelease_flip [] (b ∷ t) = refl
prerelease_flip (a ∷ s) [] = refl
prerelease_flip (a ∷ s) (b ∷ t) = lists_flip (a ∷ s) (b ∷ t)

prerelease_join :
    (s t u : List Text)
    → Joins (compare_prerelease s t) (compare_prerelease t u) (compare_prerelease s u)
unfolding compare_prerelease
prerelease_join [] [] [] = refl
prerelease_join [] [] (c ∷ u) = refl
prerelease_join [] (b ∷ t) [] = tt
prerelease_join [] (b ∷ t) (c ∷ u) = more-Joins (compare_lists (b ∷ t) (c ∷ u))
prerelease_join (a ∷ s) [] [] = refl
prerelease_join (a ∷ s) [] (c ∷ u) = tt
prerelease_join (a ∷ s) (b ∷ t) [] = Joins-less (compare_lists (a ∷ s) (b ∷ t))
prerelease_join (a ∷ s) (b ∷ t) (c ∷ u) = lists_join (a ∷ s) (b ∷ t) (c ∷ u)

-- Swapping the versions flips the sign, and comparisons in a row compose: `compareSemver` is a total
-- preorder.
pub compare_semver-IsOrder : IsOrder compare_semver
unfolding compare_semver
compare_semver-IsOrder = record {
  flips = λ a b. then_by-flip _ _ _ _ (numbers_flip a.major b.major) (
      then_by-flip _ _ _ _ (numbers_flip a.minor b.minor) (
        then_by-flip _ _ _ _ (numbers_flip a.patch b.patch)
          (prerelease_flip a.prerelease b.prerelease)));
  joins = λ a b c. then_by-Joins _ _ _ _ _ _ (numbers_join a.major b.major c.major) (
      then_by-Joins _ _ _ _ _ _ (numbers_join a.minor b.minor c.minor) (
        then_by-Joins _ _ _ _ _ _ (numbers_join a.patch b.patch c.patch)
          (prerelease_join a.prerelease b.prerelease c.prerelease)));
}
