-- ===== src/Access.antt =====
-- Who may see which project (src/modules/project/project-access.service.ts), under the request and
-- the API token of the caller (src/modules/auth/request-context.ts).
pub mod Agreement
pub mod Rules
mod Tests
use aoox_api.Prelude.{
  Bool, true, false, not, ◌&&◌, ◌||◌, Option, none, some, List, [], ◌∷◌, ◌++◌, map, keep,
  if◌then◌else◌, Text, codes, text_eq, is_empty, split_on, includes, reverse, map_get, map_set,
  map_from, map_delete,
}

pub data UserRole : Type 0 where
  owner admin member : UserRole

pub data ProjectRole : Type 0 where
  viewer developer admin : ProjectRole

pub record TokenScope : Type 0 where
  pub read_only : Bool
  pub project_ids : Option (List Text)
  pub variable_scopes : Option (List Text)

pub record RequestContext : Type 0 where
  pub method : Text
  pub path : Text
  pub token_scope : Option TokenScope

-- A part of a path in `READ_ONLY_POSTS`: a fixed one, or `[^/]+`.
pub data Part : Type 0 where
  fixed : Text → Part
  filled : Part

matches_part : Part → Text → Bool
matches_part (fixed t) s = text_eq t s
matches_part filled s = not (is_empty s)

-- The parts stand at the end of the path, both lists from the end on, behind a slash.
ends_with_parts : List Part → List Text → Bool
unfolding matches_part
ends_with_parts [] [] = false
ends_with_parts [] (s ∷ ss) = true
ends_with_parts (p ∷ ps) [] = false
ends_with_parts (p ∷ ps) (s ∷ ss) = matches_part p s && ends_with_parts ps ss

abbrev environment_parts : List Part
environment_parts =
    filled ∷ fixed (codes "environments") ∷ filled ∷ fixed (codes "variable-sets") ∷ []

is_read_only_post : Text → Bool
unfolding ends_with_parts
is_read_only_post path =
    let parts = reverse (split_on b'/' path) in
    ends_with_parts (fixed (codes "log-ticket") ∷ []) parts
    || ends_with_parts (fixed (codes "reveal") ∷ environment_parts) parts
    || ends_with_parts
        (fixed (codes "reveal") ∷ filled ∷ fixed (codes "versions") ∷ environment_parts) parts

-- `none` is background work, which has no request.
unfoldable pub is_write_request : Option RequestContext → Bool
unfolding is_read_only_post
is_write_request none = false
is_write_request (some ctx) =
    if includes (codes "GET" ∷ codes "HEAD" ∷ codes "OPTIONS" ∷ []) ctx.method
    then false
    else not (text_eq ctx.method (codes "POST") && is_read_only_post ctx.path)

abbrev pub current_token_scope : Option RequestContext → Option TokenScope
current_token_scope none = none
current_token_scope (some ctx) = ctx.token_scope

-- `currentTokenScope()?.projectIds ?? null`
abbrev pub project_scope : Option RequestContext → Option (List Text)
project_scope ctx = elim (current_token_scope ctx) [ none ↦ none | some s ↦ s.project_ids ]

pub record Project : Type 0 where
  pub id : Text
  pub owner_id : Text

-- The queries of the service, answered by the database.
pub record Tables : Type 0 where
  -- the role of a user
  pub role_of : Text → Option UserRole
  -- the ids of the projects that a user owns
  pub owned : Text → List Text
  -- the projects that a user is a member of, with the roles
  pub memberships : Text → List (Text × ProjectRole)
  -- the role of a member, by project and user
  pub membership : Text → Text → Option ProjectRole

abbrev pub is_platform : Option UserRole → Bool
is_platform (some UserRole.owner) = true
is_platform (some UserRole.admin) = true
is_platform _ = false

-- `'all' | string[]`
pub data Accessible : Type 0 where
  all_projects : Accessible
  these : List Text → Accessible

abbrev pub project_ids : List (Text × ProjectRole) → List Text
project_ids [] = []
project_ids ((id, role) ∷ rows) = id ∷ project_ids rows

-- `'all' | Map<string, ProjectRole>`
pub data Roles : Type 0 where
  all_roles : Roles
  roles_of : List (Text × ProjectRole) → Roles

pub record ProjectRoles : Type 0 where
  pub platform : Bool
  pub roles : Roles

abbrev as_admin : Text → Text × ProjectRole
as_admin id = (id, ProjectRole.admin)

-- The loop that deletes what the token's scope does not hold; it runs over a copy of the keys.
unfoldable pub narrow :
    List Text → List Text → List (Text × ProjectRole) → List (Text × ProjectRole)
narrow scope [] roles = roles
narrow scope (id ∷ ids) roles =
    narrow scope ids (if includes scope id then roles else map_delete id roles)

module _ (t : Tables) (ctx : Option RequestContext) where
  -- `new Set([...])` holds each id once, which `includes` does not see.
  unfoldable pub accessible_project_ids : Text → Accessible
  accessible_project_ids user =
      let scope = project_scope ctx in
      if is_platform (t.role_of user)
      then (elim scope [ none ↦ all_projects | some ids ↦ these ids ])
      else (let own = t.owned user ++ project_ids (t.memberships user) in
          elim scope [ none ↦ these own | some ids ↦ these (keep (includes own) ids) ])

  unfoldable pub project_roles : Text → ProjectRoles
  project_roles user =
      let scope = project_scope ctx in
      if is_platform (t.role_of user)
      then record {
        platform = true;
        roles = elim scope [
          | none ↦ all_roles
          | some ids ↦ roles_of (map_from [] (map as_admin ids))
        ];
      }
      else (let rows = map_from (map_from [] (t.memberships user)) (map as_admin (t.owned user)) in
          record {
            platform = false;
            roles = elim scope [
              | none ↦ roles_of rows
              | some ids ↦ roles_of (narrow ids (project_ids rows) rows)
            ];
          })

  abbrev outside_scope : Text → Bool
  outside_scope id = elim (project_scope ctx) [ none ↦ false | some ids ↦ not (includes ids id) ]

  unfoldable pub role_for : Text → Project → Option ProjectRole
  role_for user project =
      if outside_scope project.id
      then none
      else if is_platform (t.role_of user)
      then some ProjectRole.admin
      else if text_eq project.owner_id user
      then some ProjectRole.admin
      else t.membership project.id user
