-- ===== src/SetAccess/Tests.antt =====
-- The rules for variable sets at concrete inputs.
use aoox_api.Prelude.{◌≡◌, refl, ◌↔◌, true, false, none, some, List, [], ◌∷◌, Text, codes, index_of}
use aoox_api.Access.{ProjectRole}
use aoox_api.SetAccess.{
  SetAccess, Environment, in_project, may_use_values, assert_values, variable_scope_allows,
}
use aoox_api.SetAccess.Laws.{may_use_values-assert_values}

scopes :
    (variable_scope_allows (some (codes "*/prod" ∷ [])) (codes "api") (codes "prod") ≡ true)
    × (variable_scope_allows (some (codes "/prod" ∷ codes "api" ∷ [])) (codes "api") (codes "prod")
        ≡ false)
unfolding variable_scope_allows index_of
scopes = (refl, refl)

abbrev access : SetAccess
access = record { slug = codes "api"; role = in_project ProjectRole.developer }

abbrev production : Environment
production = record { name = codes "production"; is_protected = true }

may_use_values-assert_values_example :
    may_use_values none access production ≡ true ↔ (assert_values none access production ≡ none)
may_use_values-assert_values_example = may_use_values-assert_values none access production

abbrev roles : List (Text × ProjectRole)
roles = (codes "a", ProjectRole.viewer) ∷ (codes "b", ProjectRole.developer) ∷ []
