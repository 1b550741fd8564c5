-- ===== src/Links.antt =====
-- The links of an application or a stack to environments, in order
-- (src/modules/variable-set/variable-set-link.service.ts).
pub mod Effective
mod Tests
use aoox_api.Prelude.{Bool, not, ◌&&◌, List, [], ◌∷◌, ◌++◌, keep, if◌then◌else◌, Text, includes}

pub record LinkConflicts : Type 0 where
  pub shadowed_keys : List Text
  pub overridden_by_own_env : List Text

-- `flatMap((l) => l.keys)`
unfoldable pub all_keys : List (List Text) → List Text
all_keys [] = []
all_keys (keys ∷ layers) = keys ++ all_keys layers

-- One layer, with those behind it.
unfoldable pub conflicts_of : List Text → List Text → List (List Text) → LinkConflicts
unfolding all_keys includes
conflicts_of own_keys keys later = record {
  shadowed_keys = keep (includes (all_keys later)) keys;
  overridden_by_own_env = keep (λ k. includes own_keys k && not (includes (all_keys later) k)) keys;
}

unfoldable pub link_conflicts : List (List Text) → List Text → List LinkConflicts
unfolding conflicts_of
link_conflicts [] own_keys = []
link_conflicts (keys ∷ layers) own_keys =
    conflicts_of own_keys keys layers ∷ link_conflicts layers own_keys
