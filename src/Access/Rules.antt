-- ===== src/Access/Rules.antt =====
-- What the access service refuses, and with which error.
use aoox_api.Prelude.{
  ◌≡◌, ◌↔◌, Bool, true, false, ◌&&◌, Option, none, some, arith, if◌then◌else◌, Text,
}
use aoox_api.Access.{ProjectRole, RequestContext, Project, Tables, role_for, is_write_request}

-- `not_found` is a 404, `forbidden` a 403.
pub data Checked : Type 0 where
  allowed : ProjectRole → Checked
  not_found forbidden : Checked

abbrev pub is_viewer : ProjectRole → Bool
is_viewer ProjectRole.viewer = true
is_viewer _ = false

abbrev pub is_project_admin : ProjectRole → Bool
is_project_admin ProjectRole.admin = true
is_project_admin _ = false

-- The body of `assertAccess` behind `roleFor`.
check_role : Option RequestContext → Option ProjectRole → Checked
check_role ctx none = not_found
check_role ctx (some role) =
    if is_viewer role && is_write_request ctx then forbidden else allowed role

module _ (t : Tables) (ctx : Option RequestContext) (user : Text) (project : Project) where
  unfoldable pub assert_access : Checked
  unfolding check_role
  assert_access = check_role ctx (role_for t ctx user project)

  unfoldable pub assert_can_export : Checked
  unfolding assert_access
  assert_can_export = elim assert_access [
    | allowed role ↦ if is_viewer role then forbidden else allowed role
    | refused ↦ refused
  ]

  unfoldable pub can_read_secrets : Bool
  can_read_secrets = elim (role_for t ctx user project) [
    | none ↦ false
    | some role ↦ if is_viewer role then false else true
  ]

  unfoldable pub assert_admin : Checked
  unfolding assert_access
  assert_admin = elim assert_access [
    | allowed role ↦ if is_project_admin role then allowed role else forbidden
    | refused ↦ refused
  ]

  -- Outsiders get the same 404 from all three checks, and nobody else does.
  pub not_found_iff :
      (assert_access ≡ not_found ↔ (role_for t ctx user project ≡ none))
      × (assert_can_export ≡ not_found ↔ (role_for t ctx user project ≡ none))
      × (assert_admin ≡ not_found ↔ (role_for t ctx user project ≡ none))
  unfolding assert_can_export assert_admin
  not_found_iff = ground arith

  -- Each check that passes gives the role of `roleFor`: `assertAccess` no viewer's on a request that
  -- changes something, `assertCanExport` no viewer's, `assertAdmin` an admin's.
  pub allowed_iff :
      (role : ProjectRole)
      → (assert_access ≡ allowed role
          ↔ (role_for t ctx user project ≡ some role)
            × ((is_viewer role && is_write_request ctx) ≡ false))
        × (assert_can_export ≡ allowed role
            ↔ (role_for t ctx user project ≡ some role) × (is_viewer role ≡ false))
        × (assert_admin ≡ allowed role
            ↔ (role_for t ctx user project ≡ some role) × (is_project_admin role ≡ true))
  unfolding assert_can_export assert_admin
  allowed_iff role = ground arith

abbrev pub without_token : Option RequestContext → Option RequestContext
without_token none = none
without_token (some ctx) = some (record ctx { token_scope = none })

-- An API token only narrows: a role that a user has in a project under a token is the one that the
-- user has there in the same request without it.
pub role_for_narrows :
    (t : Tables) (ctx : Option RequestContext) (user : Text) (project : Project)
    (role : ProjectRole)
    → role_for t ctx user project ≡ some role
    → role_for t (without_token ctx) user project ≡ some role
unfolding role_for
role_for_narrows t none user project role h = h
role_for_narrows t (some ctx) user project role h = ground arith
