-- ===== src/SetAccess/Laws.antt =====
-- The two rules for values and the role on a set
-- (src/modules/variable-set/variable-set-access.service.ts).
use aoox_api.Prelude.{
  ◌≤◌, ◌≡◌, refl, ◌↔◌, true, false, Option, none, some, List, [], ◌∷◌, arith, Text, map_get,
  includes, text_eq, text_eq_iff, subst, keep, inl, inr, Bool-cases,
}
use aoox_api.Access.{ProjectRole, RequestContext, roles_of}
use aoox_api.SetAccess.{
  SetAccess, Environment, rank, better, best_role, role_among, is_key, set_role_for, in_project,
  may_use_values, assert_values,
}

-- The values may be used exactly if `assertValues` does not throw, whatever the request, the role
-- and the environment.
pub may_use_values-assert_values :
    (ctx : Option RequestContext) (access : SetAccess) (env : Environment)
    → may_use_values ctx access env ≡ true ↔ (assert_values ctx access env ≡ none)
unfolding may_use_values assert_values
may_use_values-assert_values ctx access env = ground arith

-- At least as high as a role, if there is one.
abbrev AtLeast : Option ProjectRole → Option ProjectRole → Type 0
AtLeast best none = Unit
AtLeast none (some r) = ⊥
AtLeast (some b) (some r) = rank r ≤ rank b

better-AtLeast :
    (best next bound : Option ProjectRole) → AtLeast best bound → AtLeast (better best next) bound
unfolding better
better-AtLeast best next bound h = ground arith

better-AtLeast_next : (best next : Option ProjectRole) → AtLeast (better best next) next
unfolding better
better-AtLeast_next best next = ground arith

module _ (roles : List (Text × ProjectRole)) where
  best_role-AtLeast :
      (ids : List Text) (best bound : Option ProjectRole)
      → AtLeast best bound
      → AtLeast (best_role roles best ids) bound
  unfolding best_role
  best_role-AtLeast [] best bound h = h
  best_role-AtLeast (id ∷ ids) best bound h =
      best_role-AtLeast ids (better best (map_get id roles)) bound
        (better-AtLeast best (map_get id roles) bound h)

  best_role-bound :
      (ids : List Text) (best : Option ProjectRole) (id : Text)
      → includes ids id ≡ true
      → AtLeast (best_role roles best ids) (map_get id roles)
  unfolding best_role includes
  best_role-bound [] best id h = cc
  best_role-bound (x ∷ ids) best id h = elim (Bool-cases (text_eq x id)) [
    | inl same ↦
        let e = (text_eq_iff x id).0 same in
        subst (λ k. AtLeast (best_role roles (better best (map_get x roles)) ids) (map_get k roles))
          e
          (best_role-AtLeast ids (better best (map_get x roles)) (map_get x roles)
            (better-AtLeast_next best (map_get x roles)))
    | inr other ↦ best_role-bound ids (better best (map_get x roles)) id (ground arith)
  ]

includes-keep_key :
    (roles : List (Text × ProjectRole)) (id : Text) (r : ProjectRole)
    → map_get id roles ≡ some r
    → (ids : List Text) → includes ids id ≡ true
    → includes (keep (is_key roles) ids) id ≡ true
unfolding includes
includes-keep_key roles id r h [] listed = cc
includes-keep_key roles id r h (x ∷ ids) listed =
    ground (arith, text_eq_iff x id, includes-keep_key roles id r h ids)

AtLeast-rank :
    (best : Option ProjectRole) (r : ProjectRole)
    → AtLeast best (some r)
    → (b : ProjectRole) × (best ≡ some b) × (rank r ≤ rank b)
AtLeast-rank none r h = absurd h
AtLeast-rank (some b) r h = (b, refl, h)

role_among-bound :
    (roles : List (Text × ProjectRole)) (ids : List Text) (r : ProjectRole)
    → AtLeast (best_role roles none ids) (some r)
    → (best : ProjectRole) × (role_among false roles ids ≡ some (in_project best))
      × (rank r ≤ rank best)
unfolding role_among
role_among-bound roles [] r h = absurd h
role_among-bound roles (id ∷ ids) r h =
    let (b, e, le) = AtLeast-rank (best_role roles none (id ∷ ids)) r h in
    (b, rw (e, role_among), le)

-- The role of a caller on a set that is shared with some projects is at least the role that the
-- caller has in each of them, for callers who are no platform owners or admins.
pub set_role_for-bound :
    (roles : List (Text × ProjectRole)) (shared : List Text) (id : Text) (r : ProjectRole)
    → includes shared id ≡ true
    → map_get id roles ≡ some r
    → (best : ProjectRole) × (set_role_for
          (record { platform = false; roles = roles_of roles })
          false
          shared
        ≡ some (in_project best))
      × (rank r ≤ rank best)
unfolding set_role_for
set_role_for-bound roles shared id r listed h =
    let ids = keep (is_key roles) shared in
    let kept = includes-keep_key roles id r h shared listed in
    let bound = best_role-bound roles ids none id kept in
    role_among-bound roles ids r (subst (AtLeast (best_role roles none ids)) h bound)
