-- ===== src/Links/Tests.antt =====
-- Two links and the own variables of an application.
use aoox_api.Prelude.{
  ◌≡◌, refl, some, map, [], ◌∷◌, codes, or_else, map_get, map_set, map_from, includes, trim,
  trim_start, trim_end, is_space, starts_with, index_of,
}
use aoox_api.EnvText.{env_map, split_lines, parse_env_lines, parse_lines, parse_line, parse_trimmed}
use aoox_api.EnvText.Validate.{keys_of, unique, set_from}
use aoox_api.Resolver.{merge_layers}
use aoox_api.Links.{LinkConflicts, link_conflicts, conflicts_of, all_keys}
use aoox_api.Links.Effective.{at_index, link_conflicts-effective}

conflicts :
    link_conflicts
      ((codes "A" ∷ codes "B" ∷ codes "C" ∷ []) ∷ (codes "B" ∷ []) ∷ [])
      (codes "A" ∷ codes "B" ∷ [])
    ≡ record { shadowed_keys = codes "B" ∷ []; overridden_by_own_env = codes "A" ∷ [] }
      ∷ record { shadowed_keys = []; overridden_by_own_env = codes "B" ∷ [] }
      ∷ []
unfolding link_conflicts conflicts_of all_keys includes
conflicts = refl

abbrev second : LinkConflicts
second = record { shadowed_keys = []; overridden_by_own_env = codes "A" ∷ [] }

second_link :
    at_index 1 (
      link_conflicts
        (map keys_of (codes "C=1" ∷ codes "C=2\nA=1" ∷ codes "B=3" ∷ []))
        (keys_of (codes "A=0")))
    ≡ some second
unfolding at_index link_conflicts conflicts_of all_keys includes keys_of unique set_from split_lines
    parse_env_lines parse_lines parse_line parse_trimmed trim trim_start trim_end is_space
    starts_with index_of
second_link = refl

link_conflicts-effective_example :
    or_else
      (map_get (codes "C") (env_map (codes "A=0")))
      (map_get (codes "C") (merge_layers (codes "C=1" ∷ codes "C=2\nA=1" ∷ codes "B=3" ∷ []) []))
    ≡ some (codes "2")
unfolding includes env_map map_from map_get map_set split_lines parse_env_lines parse_lines
    parse_line parse_trimmed trim trim_start trim_end is_space starts_with index_of
link_conflicts-effective_example =
    link_conflicts-effective (codes "C=1" ∷ []) (codes "C=2\nA=1") (codes "B=3" ∷ []) (codes "A=0")
      (codes "C") (codes "2") second second_link refl refl refl
