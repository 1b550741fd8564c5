-- ===== src/SetAccess.antt =====
-- Who may do what with variable sets (src/modules/variable-set/variable-set-access.service.ts), and
-- the scopes of API tokens on them (src/modules/variable-set/variable-scope.ts).
pub mod Laws
mod Tests
use aoox_api.Prelude.{
  ℕ, ◌+◌, Bool, true, false, not, ◌&&◌, ◌||◌, Option, none, some, List, [], ◌∷◌, map, any, keep,
  if◌then◌else◌, leb, ltb, ◌==◌, Text, codes, text_eq, index_of, take, drop, map_get,
}
use aoox_api.Access.{
  ProjectRole, TokenScope, RequestContext, current_token_scope, ProjectRoles, Roles, all_roles,
  roles_of, project_ids,
}

-- One entry of a token's scopes: `<set-slug>/<env>`, with `*` for any of either.
scope_entry_allows : Text → Text → Text → Bool
scope_entry_allows set_slug environment entry = elim (index_of entry b'/') [
  | none ↦ false
  | some at ↦
      if leb at 0
      then false
      else (let s = take at entry in
          let e = drop (at + 1) entry in
          (text_eq s (codes "*") || text_eq s set_slug)
          && (text_eq e (codes "*") || text_eq e environment))
]

unfoldable pub variable_scope_allows : Option (List Text) → Text → Text → Bool
unfolding scope_entry_allows
variable_scope_allows none set_slug environment = true
variable_scope_allows (some scopes) set_slug environment =
    any (scope_entry_allows set_slug environment) scopes

-- `'platform' | ProjectRole`
pub data SetRole : Type 0 where
  platform : SetRole
  in_project : ProjectRole → SetRole

abbrev pub rank : ProjectRole → ℕ
rank ProjectRole.viewer = 1
rank ProjectRole.developer = 2
rank ProjectRole.admin = 3

-- One round of the loop over the candidates; every candidate is a key of the map.
unfoldable pub better : Option ProjectRole → Option ProjectRole → Option ProjectRole
better best none = best
better none (some r) = some r
better (some b) (some r) = if ltb (rank b) (rank r) then some r else some b

unfoldable pub best_role :
    List (Text × ProjectRole) → Option ProjectRole → List Text → Option ProjectRole
best_role roles best [] = best
best_role roles best (id ∷ ids) = best_role roles (better best (map_get id roles)) ids

abbrev is_key : List (Text × ProjectRole) → Text → Bool
is_key roles id = elim (map_get id roles) [ none ↦ false | some r ↦ true ]

abbrev candidates : List (Text × ProjectRole) → Bool → List Text → List Text
candidates roles shared_with_all ids =
    if shared_with_all then project_ids roles else keep (is_key roles) ids

abbrev as_set_role : Option ProjectRole → Option SetRole
as_set_role none = none
as_set_role (some r) = some (in_project r)

role_among : Bool → List (Text × ProjectRole) → List Text → Option SetRole
unfolding best_role
role_among is_platform roles [] = none
role_among is_platform roles (id ∷ ids) =
    if is_platform then some platform else as_set_role (best_role roles none (id ∷ ids))

role_under : Bool → Roles → Bool → List Text → Option SetRole
unfolding role_among
role_under is_platform all_roles shared_with_all ids = some platform
role_under is_platform (roles_of roles) shared_with_all ids =
    role_among is_platform roles (candidates roles shared_with_all ids)

unfoldable pub set_role_for : ProjectRoles → Bool → List Text → Option SetRole
unfolding role_under
set_role_for ctx shared_with_all ids = role_under ctx.platform ctx.roles shared_with_all ids

pub record SetAccess : Type 0 where
  pub slug : Text
  pub role : SetRole

pub record Environment : Type 0 where
  pub name : Text
  pub is_protected : Bool

abbrev pub is_set_viewer : SetRole → Bool
is_set_viewer (in_project ProjectRole.viewer) = true
is_set_viewer _ = false

abbrev pub is_platform_role : SetRole → Bool
is_platform_role platform = true
is_platform_role _ = false

pub data Refusal : Type 0 where
  viewers_cannot token_is_limited only_platform : Refusal

module _ (ctx : Option RequestContext) where
  unfoldable pub token_may_use : Text → Text → Bool
  token_may_use set_slug env_name =
      variable_scope_allows
        (elim (current_token_scope ctx) [ none ↦ none | some s ↦ s.variable_scopes ]) set_slug
        env_name

  unfoldable pub may_use_values : SetAccess → Environment → Bool
  may_use_values access env =
      if is_set_viewer access.role
      then false
      else if env.is_protected && not (is_platform_role access.role)
      then false
      else token_may_use access.slug env.name

  -- `none` is a return, `some` an exception.
  unfoldable pub assert_values : SetAccess → Environment → Option Refusal
  assert_values access env =
      if is_set_viewer access.role
      then some viewers_cannot
      else if not (token_may_use access.slug env.name)
      then some token_is_limited
      else if env.is_protected && not (is_platform_role access.role)
      then some only_platform
      else none
