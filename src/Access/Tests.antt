-- ===== src/Access/Tests.antt =====
-- The access rules over a small set of tables, and the theorems about them there.
use aoox_api.Prelude.{
  ◌≡◌, refl, ◌↔◌, true, false, ◌&&◌, Option, none, some, [], ◌∷◌, if◌then◌else◌, codes, text_eq,
  includes, split_on,
}
use aoox_api.Access.{
  UserRole, ProjectRole, RequestContext, Project, Tables, accessible_project_ids, project_roles,
  role_for, is_write_request,
}
use aoox_api.Access.Agreement.{
  Answers, role_in, can_access, is_some, project_roles-role_for, accessible_project_ids-role_for,
}
use aoox_api.Access.Rules.{
  allowed, is_viewer, is_project_admin, assert_access, assert_can_export, assert_admin, allowed_iff,
}

abbrev shop : Project
shop = record { id = codes "shop"; owner_id = codes "ann" }

abbrev tables : Tables
tables = record {
  role_of = λ u. some UserRole.member;
  owned = λ u. if text_eq u (codes "ann") then codes "shop" ∷ [] else [];
  memberships =
      λ u. if text_eq u (codes "bob") then (codes "shop", ProjectRole.viewer) ∷ [] else [];
  membership = λ p u. if text_eq u (codes "bob") then some ProjectRole.viewer else none;
}

abbrev request : Option RequestContext
request = some (record {
  method = codes "POST";
  path = codes "/applications/1/deploy";
  token_scope = some (record {
    read_only = false;
    project_ids = some (codes "shop" ∷ []);
    variable_scopes = none;
  });
})

writes : is_write_request request ≡ true
unfolding is_write_request split_on includes
writes = refl

reveals :
    is_write_request (
      some (record {
        method = codes "POST";
        path = codes "/api/variable-sets/a/environments/b/reveal";
        token_scope = none;
      }))
    ≡ false
unfolding is_write_request split_on includes
reveals = refl

Answers-bob : Answers tables (codes "bob") shop
unfolding includes
Answers-bob = record { owned = refl; member = refl }

project_roles-role_for_example :
    role_in (project_roles tables request (codes "bob")).roles shop.id
    ≡ role_for tables request (codes "bob") shop
project_roles-role_for_example =
    project_roles-role_for tables request (codes "bob") shop Answers-bob

accessible_project_ids-role_for_example :
    can_access (accessible_project_ids tables request (codes "bob")) shop.id
    ≡ is_some (role_for tables request (codes "bob") shop)
accessible_project_ids-role_for_example =
    accessible_project_ids-role_for tables request (codes "bob") shop Answers-bob

abbrev role : ProjectRole
role = ProjectRole.viewer

allowed_iff_example :
    (assert_access tables request (codes "bob") shop ≡ allowed role
      ↔ (role_for tables request (codes "bob") shop ≡ some role)
        × ((is_viewer role && is_write_request request) ≡ false))
    × (assert_can_export tables request (codes "bob") shop ≡ allowed role
        ↔ (role_for tables request (codes "bob") shop ≡ some role) × (is_viewer role ≡ false))
    × (assert_admin tables request (codes "bob") shop ≡ allowed role
        ↔ (role_for tables request (codes "bob") shop ≡ some role) × (is_project_admin role ≡ true))
allowed_iff_example = allowed_iff tables request (codes "bob") shop role
