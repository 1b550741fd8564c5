-- ===== src/Prelude/Maps.antt =====
-- A `Map` keyed by texts: its entries in the order of insertion, one for each key.
use mathlib.Core.Path.{◌≡◌, refl}
use mathlib.Core.Option.{Option, none, some}
use mathlib.Core.List.{List, [], ◌∷◌}
use native.Mathlib.Omega.{arith}
use aoox_api.Prelude.Tests.{if◌then◌else◌, or_else}
use aoox_api.Prelude.Texts.{Text, text_eq, text_eq_iff}

module _ {ℓ} {V : Type ℓ} where
  unfoldable pub map_get : Text → List (Text × V) → Option V
  map_get key [] = none
  map_get key ((k, v) ∷ m) = if text_eq k key then some v else map_get key m

  unfoldable pub map_set : Text → V → List (Text × V) → List (Text × V)
  map_set key value [] = (key, value) ∷ []
  map_set key value ((k, v) ∷ m) =
      if text_eq k key then (k, value) ∷ m else (k, v) ∷ map_set key value m

  unfoldable pub map_delete : Text → List (Text × V) → List (Text × V)
  map_delete key [] = []
  map_delete key ((k, v) ∷ m) =
      if text_eq k key then map_delete key m else (k, v) ∷ map_delete key m

  -- `new Map(entries)`, from the map `m` on.
  unfoldable pub map_from : List (Text × V) → List (Text × V) → List (Text × V)
  map_from m [] = m
  map_from m ((k, v) ∷ entries) = map_from (map_set k v m) entries

  -- The last definition of a name among entries.
  abbrev pub last_value : Text → List (Text × V) → Option V
  last_value key [] = none
  last_value key ((k, v) ∷ entries) =
      or_else (last_value key entries) (if text_eq k key then some v else none)

module _ {ℓ} {V : Type ℓ} where
  pub map_get-map_set :
      (key k : Text) (v : V) (m : List (Text × V))
      → map_get key (map_set k v m) ≡ (if text_eq k key then some v else map_get key m)
  unfolding map_get map_set
  map_get-map_set key k v [] = refl
  map_get-map_set key k v ((j, w) ∷ m) =
      ground
        (arith, text_eq_iff k key, text_eq_iff j key, text_eq_iff j k, map_get-map_set key k v m)

  pub map_get-map_delete :
      (key k : Text) (m : List (Text × V))
      → map_get key (map_delete k m) ≡ (if text_eq k key then none else map_get key m)
  unfolding map_get map_delete
  map_get-map_delete key k [] = ground arith
  map_get-map_delete key k ((j, w) ∷ m) =
      ground
        (arith, text_eq_iff k key, text_eq_iff j key, text_eq_iff j k, map_get-map_delete key k m)

  pub map_get-map_from :
      (key : Text) (m : List (Text × V)) (entries : List (Text × V))
      → map_get key (map_from m entries) ≡ or_else (last_value key entries) (map_get key m)
  unfolding map_from
  map_get-map_from key m [] = refl
  map_get-map_from key m ((k, v) ∷ entries) =
      ground (arith, map_get-map_from key (map_set k v m) entries, map_get-map_set key k v m)
