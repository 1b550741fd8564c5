-- ===== src/Resolver/Merging.antt =====
-- Where the value of a variable comes from.
use aoox_api.Prelude.{
  ◌≡◌, refl, sym, ap, ◌∙◌, Bool, not, ◌&&◌, Option, none, is_some, List, [], ◌∷◌, arith, map, keep,
  includes, Text, text_eq, text_eq_iff, or_else, map_get, map_from, last_value, map_get-map_from,
}
use aoox_api.EnvText.{parse_env_lines}
use aoox_api.EnvText.Maps.{or_else_assoc, or_else-none}
use aoox_api.Resolver.{
  Input, EnvMap, merge_layers, variables, own, synced, merged, literal, delete_keys,
}

-- The value that the last layer with the name gives it.
unfoldable pub layer_value : Text → List Text → Option Text
layer_value key [] = none
layer_value key (text ∷ texts) =
    or_else (layer_value key texts) (last_value key (parse_env_lines text))

pub merge_layers-value :
    (key : Text) (texts : List Text) (m : EnvMap)
    → map_get key (merge_layers texts m) ≡ or_else (layer_value key texts) (map_get key m)
unfolding merge_layers layer_value
merge_layers-value key [] m = refl
merge_layers-value key (text ∷ texts) m =
    merge_layers-value key texts (map_from m (parse_env_lines text))
    ∙ ap (or_else (layer_value key texts)) (map_get-map_from key m (parse_env_lines text))
    ∙ sym (
        or_else_assoc (layer_value key texts) (last_value key (parse_env_lines text))
          (map_get key m))

-- The application's own value, else the one of the secret source, else that of the last layer.
unfoldable pub raw_value : Input → Option EnvMap → Text → Option Text
raw_value i f key =
    or_else (last_value key (own i))
      (or_else (last_value key (synced i f)) (layer_value key i.layers))

pub merged-raw_value :
    (i : Input) (f : Option EnvMap) (key : Text) → map_get key (merged i f) ≡ raw_value i f key
unfolding merged raw_value map_get
merged-raw_value i f key =
    map_get-map_from key (map_from (variables i) (synced i f)) (own i)
    ∙ ap (or_else (last_value key (own i))) (
        map_get-map_from key (variables i) (synced i f)
        ∙ ap (or_else (last_value key (synced i f)))
            (merge_layers-value key i.layers [] ∙ or_else-none (layer_value key i.layers)))

pub includes-keys :
    (key : Text) (m : EnvMap) → includes (map (λ e. e.0) m) key ≡ is_some (last_value key m)
unfolding includes
includes-keys key [] = refl
includes-keys key ((k, v) ∷ m) = let ih = includes-keys key m in ground (arith, ih)

includes-keep :
    (keys : List Text) (k key : Text)
    → includes (keep (λ l. not (text_eq l k)) keys) key ≡ includes keys key && not (text_eq k key)
unfolding includes
includes-keep [] k key = refl
includes-keep (l ∷ keys) k key =
    let ih = includes-keep keys k key in
    ground (arith, ih, text_eq_iff l k, text_eq_iff l key, text_eq_iff k key)

includes-delete_keys :
    (m : EnvMap) (keys : List Text) (key : Text)
    → includes (delete_keys m keys) key ≡ includes keys key && not (is_some (last_value key m))
unfolding delete_keys
includes-delete_keys [] keys key = ground arith
includes-delete_keys ((k, v) ∷ m) keys key =
    let ih = includes-delete_keys m (keep (λ l. not (text_eq l k)) keys) key in
    let kept = includes-keep keys k key in ground (arith, ih, kept)

-- The value comes from the secret source: it has the name, and the application does not.
unfoldable pub is_from_source : Input → Option EnvMap → Text → Bool
is_from_source i f key =
    is_some (last_value key (synced i f)) && not (is_some (last_value key (own i)))

pub literal-is_from_source :
    (i : Input) (f : Option EnvMap) (key : Text)
    → includes (literal i f) key ≡ is_from_source i f key
unfolding literal is_from_source
literal-is_from_source i f key =
    includes-delete_keys (own i) (map (λ e. e.0) (synced i f)) key
    ∙ ap (λ b. b && not (is_some (last_value key (own i)))) (includes-keys key (synced i f))
