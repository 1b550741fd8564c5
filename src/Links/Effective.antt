-- ===== src/Links/Effective.antt =====
-- What the conflicts of links mean for the values of a container
-- (src/modules/variable-set/variable-set-link.service.ts).
use aoox_api.Prelude.{
  ◌≡◌, refl, sym, ap, ◌∙◌, inl, inr, Bool, true, false, not, ◌&&◌, ◌||◌, Option, none, some, List,
  [], ◌∷◌, ◌++◌, map, keep, arith, if◌then◌else◌, Text, text_eq, text_eq_iff, includes, is_some,
  or_else, last_value, map_get, map_get-map_from, Bool-cases, ℕ, zero, suc, length, some-injective,
}
use aoox_api.EnvText.{env_map, parse_env_lines}
use aoox_api.EnvText.Maps.{or_else-none, or_else_assoc}
use aoox_api.EnvText.Names.{includes-append}
use aoox_api.EnvText.Validate.{set_add, set_from, unique, keys_of}
use aoox_api.Resolver.{merge_layers}
use aoox_api.Resolver.Merging.{layer_value, merge_layers-value, includes-keys}
use aoox_api.Links.{LinkConflicts, all_keys, conflicts_of, link_conflicts}

already :
    (seen : List Text) (x k : Text)
    → includes seen x ≡ true
    → includes seen k ≡ (includes seen k || text_eq x k)
unfolding includes
already [] x k h = cc
already (y ∷ ys) x k h =
    ground (arith, already ys x k, text_eq_iff y x, text_eq_iff x k, text_eq_iff y k)

includes-set_add :
    (seen : List Text) (x k : Text) → includes (set_add seen x) k ≡ (includes seen k || text_eq x k)
includes-set_add seen x k = elim (Bool-cases (includes seen x)) [
  | inr e ↦ rw e (includes-append seen x k)
  | inl e ↦ rw e (already seen x k e)
]

or_assoc : (a b c : Bool) → ((a || b) || c) ≡ (a || (b || c))
or_assoc a b c = ground arith

or_false : (a : Bool) → a ≡ (a || false)
or_false a = ground arith

includes-set_from :
    (seen xs : List Text) (k : Text)
    → includes (set_from seen xs) k ≡ (includes seen k || includes xs k)
unfolding set_from includes
includes-set_from seen [] k = or_false (includes seen k)
includes-set_from seen (x ∷ xs) k =
    includes-set_from (set_add seen x) xs k
    ∙ ap (λ b. b || includes xs k) (includes-set_add seen x k)
    ∙ or_assoc (includes seen k) (text_eq x k) (includes xs k)

-- `keysOf` has the names that the lines define.
keys_of-last_value :
    (text k : Text) → includes (keys_of text) k ≡ is_some (last_value k (parse_env_lines text))
unfolding keys_of unique includes
keys_of-last_value text k =
    includes-set_from [] (map (λ e. e.0) (parse_env_lines text)) k
    ∙ includes-keys k (parse_env_lines text)

map_get-last_value :
    (text k : Text) → map_get k (env_map text) ≡ last_value k (parse_env_lines text)
unfolding env_map map_get
map_get-last_value text k =
    map_get-map_from k [] (parse_env_lines text)
    ∙ or_else-none (last_value k (parse_env_lines text))

includes-cons-if :
    (b : Bool) (j k : Text) (xs : List Text)
    → includes (if b then j ∷ xs else xs) k ≡ ((b && text_eq j k) || includes xs k)
unfolding includes
includes-cons-if true j k xs = refl
includes-cons-if false j k xs = refl

keep_same : (b h : Bool) → ((b && true) || (h && b)) ≡ b
keep_same b h = ground arith

keep_step : (pj pk e h : Bool) → (e ≡ true → pj ≡ pk) → ((pj && e) || (h && pk)) ≡ ((e || h) && pk)
keep_step pj pk false h same = ground arith
keep_step pj pk true h same = ap (λ b. (b && true) || (h && pk)) (same refl) ∙ keep_same pk h

includes-keep :
    (p : Text → Bool) (keys : List Text) (k : Text)
    → includes (keep p keys) k ≡ (includes keys k && p k)
unfolding includes
includes-keep p [] k = refl
includes-keep p (j ∷ js) k =
    includes-cons-if (p j) j k (keep p js)
    ∙ ap (λ b. (p j && text_eq j k) || b) (includes-keep p js k)
    ∙ keep_step (p j) (p k) (text_eq j k) (includes js k) (λ e. ap p ((text_eq_iff j k).0 e))

includes-append-lists :
    (xs ys : List Text) (k : Text) → includes (xs ++ ys) k ≡ (includes xs k || includes ys k)
unfolding includes
includes-append-lists [] ys k = refl
includes-append-lists (x ∷ xs) ys k = ground (arith, includes-append-lists xs ys k)

-- A name that no layer has.
layer_value-none :
    (texts : List Text) (k : Text)
    → includes (all_keys (map keys_of texts)) k ≡ false
    → layer_value k texts ≡ none
unfolding all_keys layer_value includes
layer_value-none [] k h = refl
layer_value-none (t ∷ ts) k h =
    let apart = sym (includes-append-lists (keys_of t) (all_keys (map keys_of ts)) k) ∙ h in
    ground (arith, layer_value-none ts k, keys_of-last_value t k)

layer_value-append :
    (before : List Text) (text : Text) (after : List Text) (k : Text)
    → layer_value k (before ++ (text ∷ after))
      ≡ or_else
          (layer_value k after)
          (or_else (last_value k (parse_env_lines text)) (layer_value k before))
unfolding layer_value
layer_value-append [] text after k =
    ap (or_else (layer_value k after)) (sym (or_else-none (last_value k (parse_env_lines text))))
layer_value-append (t ∷ ts) text after k =
    ap (λ o. or_else o (last_value k (parse_env_lines t))) (layer_value-append ts text after k)
    ∙ or_else_assoc (layer_value k after) _ (last_value k (parse_env_lines t))
    ∙ ap (or_else (layer_value k after)) (
        or_else_assoc (last_value k (parse_env_lines text)) (layer_value k ts)
          (last_value k (parse_env_lines t)))

not_later : (has later : Bool) → has ≡ true → (has && later) ≡ false → later ≡ false
not_later has later h e = ground arith

not_own :
    (has own later : Bool)
    → has ≡ true
    → later ≡ false
    → (has && (own && not later)) ≡ false
    → own ≡ false
not_own has own later h l e = ground arith

none_of : (o : Option Text) → is_some o ≡ false → o ≡ none
none_of none h = refl
none_of (some v) h = cc

conflicts_of-effective :
    (before : List Text) (text : Text) (after : List Text) (own_env k v : Text)
    → map_get k (env_map text) ≡ some v
    → includes (conflicts_of (keys_of own_env) (keys_of text) (map keys_of after)).shadowed_keys k
      ≡ false
    → includes
        (conflicts_of (keys_of own_env) (keys_of text) (map keys_of after)).overridden_by_own_env
        k
      ≡ false
    → or_else (map_get k (env_map own_env)) (map_get k (merge_layers (before ++ (text ∷ after)) []))
      ≡ some v
unfolding conflicts_of map_get
conflicts_of-effective before text after own_env k v set shadow over =
    let value : last_value k (parse_env_lines text) ≡ some v =
      sym (map_get-last_value text k) ∙ set in
    let listed = keys_of-last_value text k ∙ ap is_some value in
    let later =
      not_later _ _ listed
        (sym (includes-keep (includes (all_keys (map keys_of after))) (keys_of text) k) ∙ shadow) in
    let own = not_own _ _ _ listed later (sym (includes-keep _ (keys_of text) k) ∙ over) in
    let own_none =
      map_get-last_value own_env k ∙ none_of _ (sym (keys_of-last_value own_env k) ∙ own) in
    ap (λ o. or_else o (map_get k (merge_layers (before ++ (text ∷ after)) []))) own_none
    ∙ merge_layers-value k (before ++ (text ∷ after)) []
    ∙ or_else-none (layer_value k (before ++ (text ∷ after)))
    ∙ layer_value-append before text after k
    ∙ ap (λ o. or_else o (or_else (last_value k (parse_env_lines text)) (layer_value k before)))
        (layer_value-none after k later)
    ∙ ap (λ o. or_else o (layer_value k before)) value

-- The conflicts at an index.
unfoldable pub at_index : ℕ → List LinkConflicts → Option LinkConflicts
at_index n [] = none
at_index zero (c ∷ cs) = some c
at_index (suc n) (c ∷ cs) = at_index n cs

link_conflicts-at :
    (own_keys : List Text) (before : List Text) (text : Text) (after : List Text)
    → at_index (length before) (link_conflicts (map keys_of (before ++ (text ∷ after))) own_keys)
      ≡ some (conflicts_of own_keys (keys_of text) (map keys_of after))
unfolding at_index link_conflicts
link_conflicts-at own_keys [] text after = refl
link_conflicts-at own_keys (t ∷ ts) text after = link_conflicts-at own_keys ts text after

-- A key of a link's environment that `linkConflicts`, at the index of the link, lists neither as
-- shadowed by a later link nor as overridden by the own variables has, for the container, the value
-- that this environment gives it, whatever links are before it.
pub link_conflicts-effective :
    (before : List Text) (text : Text) (after : List Text) (own_env k v : Text) (c : LinkConflicts)
    → at_index
        (length before)
        (link_conflicts (map keys_of (before ++ (text ∷ after))) (keys_of own_env))
      ≡ some c
    → map_get k (env_map text) ≡ some v
    → includes c.shadowed_keys k ≡ false
    → includes c.overridden_by_own_env k ≡ false
    → or_else (map_get k (env_map own_env)) (map_get k (merge_layers (before ++ (text ∷ after)) []))
      ≡ some v
link_conflicts-effective before text after own_env k v c there set shadow over =
    let same =
      some-injective (conflicts_of (keys_of own_env) (keys_of text) (map keys_of after)) c
        (sym (link_conflicts-at (keys_of own_env) before text after) ∙ there) in
    conflicts_of-effective before text after own_env k v set
      (ap (λ x. includes x.shadowed_keys k) same ∙ shadow)
      (ap (λ x. includes x.overridden_by_own_env k) same ∙ over)
