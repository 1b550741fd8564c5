-- ===== src/Semver/Newest.antt =====
-- The version that `newestVersion` offers.
use aoox_api.Prelude.{
  ◌≡◌, refl, ◌⊎◌, inl, inr, Bool, true, false, not, ◌&&◌, Option, none, some, List, [], ◌∷◌, arith,
  All, any, includes, Text, text_eq_iff, Option-cases, Bool-cases, if◌then◌else◌,
}
use aoox_api.Semver.{
  Sign, less, equal, more, Semver, compare_semver, is_stable, is_more, allows_prerelease, consider,
  newest_from, newest_version,
}
use aoox_api.Semver.Order.{Joins, flip}
use aoox_api.Semver.Precedence.{compare_semver-IsOrder}
open compare_semver-IsOrder use {flips, joins}

-- No newer than the version of the candidate, of which there is one.
AtMost : Semver → Option (Text × Semver) → Type 0
AtMost u none = ⊥
AtMost u (some best) = is_more (compare_semver u best.1) ≡ false

not_more-Joins :
    (s t r : Sign) → Joins s t r → is_more s ≡ false → is_more t ≡ false → is_more r ≡ false
not_more-Joins less less r j h k = rw j
not_more-Joins less equal r j h k = rw j
not_more-Joins less more r j h k = absurd cc
not_more-Joins equal t r j h k = rw j k
not_more-Joins more t r j h k = absurd cc

not_more_trans :
    (a b c : Semver)
    → is_more (compare_semver a b) ≡ false
    → is_more (compare_semver b c) ≡ false
    → is_more (compare_semver a c) ≡ false
not_more_trans a b c = not_more-Joins _ _ _ (joins a b c)

not_more-flip : (s : Sign) → is_more s ≡ true → is_more (flip s) ≡ false
unfolding flip
not_more-flip less h = absurd cc
not_more-flip equal h = refl
not_more-flip more h = refl

not_more_self : (s : Sign) → s ≡ flip s → is_more s ≡ false
unfolding flip
not_more_self less h = refl
not_more_self equal h = refl
not_more_self more h = absurd cc

AtMost-self : (t : Text) (v : Semver) → AtMost v (some (t, v))
unfolding AtMost
AtMost-self t v = not_more_self (compare_semver v v) (flips v v)

AtMost-trans :
    (u : Semver) (b : Text × Semver) (o : Option (Text × Semver))
    → AtMost u (some b)
    → AtMost b.1 o
    → AtMost u o
unfolding AtMost
AtMost-trans u b none h k = k
AtMost-trans u b (some r) h k = not_more_trans u b.1 r.1 h k

more-AtMost :
    (u v : Semver) (tag : Text) → is_more (compare_semver v u) ≡ true → AtMost u (some (tag, v))
unfolding AtMost
more-AtMost u v tag h = rw (flips v u) (not_more-flip (compare_semver v u) h)

module _ (parse_semver : Text → Option Semver) (allow : Bool) where
  -- The version that may be offered.
  pub offered : Option Semver → Option Semver
  offered none = none
  offered (some v) = if not (is_stable v) && not allow then none else some v

  consider-keeps :
      (b : Text × Semver) (tag : Text) (o : Option Semver)
      → AtMost b.1 (consider parse_semver allow (some b) tag o)
  unfolding consider
  consider-keeps b tag none = AtMost-self b.0 b.1
  consider-keeps b tag (some v) =
      let self = AtMost-self b.0 b.1 in
      elim (Bool-cases (not (is_stable v) && not allow)) [
        | inl out ↦ rw out self
        | inr fine ↦ elim (Bool-cases (is_more (compare_semver v b.1))) [
          | inl newer ↦ rw (fine, newer) (more-AtMost b.1 v tag newer)
          | inr older ↦ rw (fine, older) self
        ]
      ]

  consider-new :
      (best : Option (Text × Semver)) (tag : Text) (o : Option Semver) (u : Semver)
      → offered o ≡ some u
      → AtMost u (consider parse_semver allow best tag o)
  unfolding consider offered AtMost
  consider-new best tag none u h = absurd cc
  consider-new none tag (some v) u h = let self = AtMost-self tag v in ground (arith, h)
  consider-new (some b) tag (some v) u h = let self = AtMost-self tag v in ground (arith, h)

  bounds-consider :
      (best : Option (Text × Semver)) (tag : Text) (o : Option Semver) (u : Semver)
      → AtMost u best
      → AtMost u (consider parse_semver allow best tag o)
  unfolding AtMost
  bounds-consider none tag o u h = absurd h
  bounds-consider (some b) tag o u h =
      AtMost-trans u b (consider parse_semver allow (some b) tag o) h (consider-keeps b tag o)

  newest_from-bounds :
      (tags : List Text) (best : Option (Text × Semver)) (u : Semver)
      → AtMost u best
      → AtMost u (newest_from parse_semver allow best tags)
  unfolding newest_from
  newest_from-bounds [] best u h = h
  newest_from-bounds (tag ∷ tags) best u h =
      newest_from-bounds tags (consider parse_semver allow best tag (parse_semver tag)) u
        (bounds-consider best tag (parse_semver tag) u h)

  -- Nothing offered among the tags is newer than the result.
  newest_from-upper :
      (tags : List Text) (best : Option (Text × Semver))
      → All
          (λ t.
            (u : Semver)
            → offered (parse_semver t) ≡ some u
            → AtMost u (newest_from parse_semver allow best tags))
          tags
  unfolding newest_from
  newest_from-upper [] best = tt
  newest_from-upper (tag ∷ tags) best =
      let best' = consider parse_semver allow best tag (parse_semver tag) in
      (
        λ u h. newest_from-bounds tags best' u (consider-new best tag (parse_semver tag) u h),
        newest_from-upper tags best',
      )

  -- The result is one of the tags, with its version.
  IsOffered : List Text → Text × Semver → Type 0
  IsOffered tags r = includes tags r.0 ≡ true × offered (parse_semver r.0) ≡ some r.1

  consider-from :
      (best : Option (Text × Semver)) (tag : Text) (o : Option Semver) (r : Text × Semver)
      → consider parse_semver allow best tag o ≡ some r
      → (best ≡ some r) ⊎ (tag ≡ r.0 × offered o ≡ some r.1)
  unfolding consider offered
  consider-from best tag none r h = inl h
  consider-from none tag (some v) r h = ground (arith, h)
  consider-from (some b) tag (some v) r h = ground (arith, h)

  newest_from-from :
      (tags : List Text) (best : Option (Text × Semver)) (r : Text × Semver)
      → newest_from parse_semver allow best tags ≡ some r
      → (best ≡ some r) ⊎ IsOffered tags r
  unfolding newest_from IsOffered includes
  newest_from-from [] best r h = inl h
  newest_from-from (tag ∷ tags) best r h =
      let best' = consider parse_semver allow best tag (parse_semver tag) in
      elim (newest_from-from tags best' r h) [
        | inr (there, ok) ↦ inr (ground (arith, there), ok)
        | inl this ↦ elim (consider-from best tag (parse_semver tag) r this) [
          | inl old ↦ inl old
          | inr (same, ok) ↦ inr (ground (arith, (text_eq_iff tag r.0).1 same), rw⁻¹ same ok)
        ]
      ]

abbrev pub is_some : Option Semver → Bool
is_some none = false
is_some (some v) = true

-- A version is there and it is newer than `v`.
abbrev pub exceeds : Option Semver → Semver → Bool
exceeds none v = false
exceeds (some u) v = is_more (compare_semver u v)

-- What `newestVersion` is to give: a tag whose version may be offered and which no other such version
-- exceeds, or nothing where none may be offered.
pub IsNewest : (Text → Option Semver) → Bool → List Text → Option Text → Type 0
IsNewest parse_semver allow tags none =
    any (λ t. is_some (offered parse_semver allow (parse_semver t))) tags ≡ false
IsNewest parse_semver allow tags (some tag) =
    includes tags tag ≡ true
    × ((v : Semver) × (offered parse_semver allow (parse_semver tag) ≡ some v
          × any (λ t. exceeds (offered parse_semver allow (parse_semver t)) v) tags ≡ false))

any-bound :
    (parse_semver : Text → Option Semver) (allow : Bool) (p : Option Semver → Bool)
    (P : Semver → Type 0)
    → p none ≡ false
    → ((u : Semver) → P u → p (some u) ≡ false)
    → (tags : List Text)
    → All (λ t. (u : Semver) → offered parse_semver allow (parse_semver t) ≡ some u → P u) tags
    → any (λ t. p (offered parse_semver allow (parse_semver t))) tags ≡ false
any-bound parse_semver allow p P at_none at_some [] hs = refl
any-bound parse_semver allow p P at_none at_some (t ∷ tags) (h, hs) =
    let rest = any-bound parse_semver allow p P at_none at_some tags hs in
    elim (Option-cases (offered parse_semver allow (parse_semver t))) [
      | inl e ↦ rw (e, at_none) rest
      | inr (u, e) ↦ rw (e, at_some u (h u e)) rest
    ]

newest_from-IsNewest :
    (parse_semver : Text → Option Semver) (allow : Bool) (tags : List Text)
    (o : Option (Text × Semver))
    → newest_from parse_semver allow none tags ≡ o
    → IsNewest parse_semver allow tags (elim o [ none ↦ none | some best ↦ some best.0 ])
unfolding IsNewest IsOffered AtMost
newest_from-IsNewest parse_semver allow tags none e =
    let upper = newest_from-upper parse_semver allow tags none in
    any-bound parse_semver allow is_some (λ u. ⊥) refl (λ u impossible. absurd impossible) tags
      (rw e at upper)
newest_from-IsNewest parse_semver allow tags (some r) e =
    let upper = newest_from-upper parse_semver allow tags none in
    elim (newest_from-from parse_semver allow tags none r e) [
      | inl impossible ↦ absurd cc
      | inr (there, ok) ↦ (
        there,
        (
          r.1,
          (
            ok,
            any-bound parse_semver allow (λ o. exceeds o r.1)
                (λ u. is_more (compare_semver u r.1) ≡ false) refl (λ u h. h) tags (rw e at upper),
          ),
        ),
      )
    ]

-- `newestVersion` gives a tag of the list whose version may be offered and which no other such version
-- exceeds, or nothing if no version of the list may be offered.
pub newest_version-IsNewest :
    (parse_semver : Text → Option Semver) (tags : List Text) (current : Text)
    → IsNewest parse_semver
        (allows_prerelease (parse_semver current))
        tags
        (newest_version parse_semver tags current)
unfolding newest_version
newest_version-IsNewest parse_semver tags current =
    let allow = allows_prerelease (parse_semver current) in
    newest_from-IsNewest parse_semver allow tags (newest_from parse_semver allow none tags) refl
