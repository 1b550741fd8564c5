-- ===== src/Access/Agreement.antt =====
-- The three answers of the access service (src/modules/project/project-access.service.ts): the list of
-- the accessible projects, the map of the roles in all of them, and the role in one.
use aoox_api.Prelude.{
  ◌≡◌, refl, inl, inr, Option-cases, Bool, true, false, not, ◌&&◌, ◌||◌, Option, none, some, List,
  [], ◌∷◌, ◌++◌, map, arith, keep, if◌then◌else◌, Text, text_eq, text_eq_iff, includes, map_get,
  map_from, map_delete, last_value, map_get-map_from, map_get-map_delete,
}
use aoox_api.Access.{
  ProjectRole, RequestContext, Project, Tables, Accessible, all_projects, these, Roles, all_roles,
  roles_of, project_ids, as_admin, narrow, project_scope, accessible_project_ids, project_roles,
  role_for,
}

-- What the queries answer about one user and one stored project: its id is among those that the
-- user owns exactly if its row names the user as the owner, and the member row is the user's row for it.
pub record Answers (t : Tables) (user : Text) (project : Project) : Type 0 where
  pub owned : includes (t.owned user) project.id ≡ text_eq project.owner_id user
  pub member : t.membership project.id user ≡ last_value project.id (t.memberships user)

abbrev pub role_in : Roles → Text → Option ProjectRole
role_in all_roles id = some ProjectRole.admin
role_in (roles_of m) id = map_get id m

abbrev pub can_access : Accessible → Text → Bool
can_access all_projects id = true
can_access (these ids) id = includes ids id

abbrev pub is_some {ℓ} : {A : Type ℓ} → Option A → Bool
is_some none = false
is_some (some x) = true

last_value-as_admin :
    (id : Text) (ids : List Text)
    → last_value id (map as_admin ids) ≡ (if includes ids id then some ProjectRole.admin else none)
unfolding includes
last_value-as_admin id [] = refl
last_value-as_admin id (x ∷ ids) = ground (arith, last_value-as_admin id ids)

map_get-narrow :
    (id : Text) (scope ids : List Text) (m : List (Text × ProjectRole))
    → map_get id (narrow scope ids m)
      ≡ (if includes ids id && not (includes scope id) then none else map_get id m)
unfolding narrow includes
map_get-narrow id scope [] m = refl
map_get-narrow id scope (x ∷ ids) m = ground (
  arith,
  text_eq_iff x id,
  map_get-narrow id scope ids m,
  map_get-narrow id scope ids (map_delete x m),
  map_get-map_delete id x m,
)

map_get-absent :
    (id : Text) (m : List (Text × ProjectRole))
    → includes (project_ids m) id ≡ false
    → map_get id m ≡ none
unfolding includes map_get
map_get-absent id [] h = refl
map_get-absent id ((k, v) ∷ m) h = ground (arith, map_get-absent id m)

includes-append :
    (xs ys : List Text) (id : Text) → includes (xs ++ ys) id ≡ (includes xs id || includes ys id)
unfolding includes
includes-append [] ys id = refl
includes-append (x ∷ xs) ys id = ground (arith, includes-append xs ys id)

includes-keep :
    (own ids : List Text) (id : Text)
    → includes (keep (includes own) ids) id ≡ (includes ids id && includes own id)
unfolding includes
includes-keep own [] id = refl
includes-keep own (x ∷ ids) id = ground (arith, includes-keep own ids id, text_eq_iff x id)

includes-project_ids :
    (id : Text) (rows : List (Text × ProjectRole))
    → includes (project_ids rows) id ≡ is_some (last_value id rows)
unfolding includes
includes-project_ids id [] = refl
includes-project_ids id ((k, v) ∷ rows) = ground (arith, includes-project_ids id rows)

rows_of : Tables → Text → List (Text × ProjectRole)
rows_of t user = map_from (map_from [] (t.memberships user)) (map as_admin (t.owned user))

map_get-rows_of :
    (t : Tables) (user id : Text)
    → map_get id (rows_of t user) ≡ (
        if includes (t.owned user) id
        then some ProjectRole.admin
        else last_value id (t.memberships user))
unfolding rows_of map_get
map_get-rows_of t user id = ground (
  arith,
  map_get-map_from id (map_from [] (t.memberships user)) (map as_admin (t.owned user)),
  map_get-map_from id [] (t.memberships user),
  last_value-as_admin id (t.owned user),
)

-- The role that the map of all roles gives for a stored project is the one that `roleFor` gives,
-- for every user, every API token and also without a request.
pub project_roles-role_for :
    (t : Tables) (ctx : Option RequestContext) (user : Text) (project : Project)
    → Answers t user project
    → role_in (project_roles t ctx user).roles project.id ≡ role_for t ctx user project
unfolding project_roles role_for rows_of map_get
project_roles-role_for t ctx user project h =
    let id = project.id in
    let rows = map_get-rows_of t user id in
    elim (Option-cases (project_scope ctx)) [
      | inl e ↦ ground (arith, h.owned, h.member, rows)
      | inr (ids, e) ↦ ground (
        arith,
        h.owned,
        h.member,
        rows,
        map_get-narrow id ids (project_ids (rows_of t user)) (rows_of t user),
        map_get-absent id (rows_of t user),
        map_get-map_from id [] (map as_admin ids),
        last_value-as_admin id ids,
      )
    ]

-- A stored project is among the accessible ones exactly if `roleFor` gives a role in it, for every
-- user, every API token and also without a request.
pub accessible_project_ids-role_for :
    (t : Tables) (ctx : Option RequestContext) (user : Text) (project : Project)
    → Answers t user project
    → can_access (accessible_project_ids t ctx user) project.id
      ≡ is_some (role_for t ctx user project)
unfolding accessible_project_ids role_for
accessible_project_ids-role_for t ctx user project h =
    let id = project.id in
    let own = t.owned user ++ project_ids (t.memberships user) in
    let in_own = includes-append (t.owned user) (project_ids (t.memberships user)) id in
    let in_rows = includes-project_ids id (t.memberships user) in
    elim (Option-cases (project_scope ctx)) [
      | inl e ↦ ground (arith, h.owned, h.member, in_own, in_rows)
      | inr (ids, e) ↦ ground (arith, h.owned, h.member, in_own, in_rows, includes-keep own ids id)
    ]
