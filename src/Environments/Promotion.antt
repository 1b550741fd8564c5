-- ===== src/Environments/Promotion.antt =====
-- What `promote` means (src/modules/variable-set/variable-set-environment.service.ts): the values of
-- the chosen names are copied, and nothing else changes.
use aoox_api.Prelude.{
  ℕ, ◌≡◌, ◌≢◌, refl, sym, ap, ◌∙◌, Bool, true, false, Option, none, some, List, [], ◌∷◌, length,
  arith, if◌then◌else◌, ◌==◌, Text, text_eq_iff, map_get, All, includes, is_some, given, or_else,
  last_value,
}
use aoox_api.Access.{RequestContext}
use aoox_api.SetAccess.{SetAccess, assert_values}
use aoox_api.EnvText.{EnvMap, env_map, is_env_name}
use aoox_api.EnvText.Write.{set_values}
use aoox_api.EnvText.Notes.{extract_notes}
use aoox_api.EnvText.SetValues.{IsEntry}
use aoox_api.EnvText.Values.{map_get-IsValue}
use aoox_api.EnvText.Written.{set_values-some}
use aoox_api.EnvText.Validate.{validate_environment_text}
use aoox_api.Environments.{
  Row, Store, text_of, seal, Actor, done, set_not_found, forbidden, invalid_text, type_error,
  find_in_set,
}
use aoox_api.Environments.Commit.{Stamps, Saved, commit}
use aoox_api.Environments.Service.{guard_values, environment_of}
use aoox_api.Environments.Promote.{picked, promoted_row, missing_keys}
use aoox_api.Environments.Steps.{
  bind-done, require_none-done, require_some-done, done-injective, env_map-seal,
}
use aoox_api.Environments.Rows.{value_in}

-- The entries to write.
last_value-picked :
    (k : Text) (m : EnvMap) (keys : List Text)
    → All (λ j. is_some (map_get j m) ≡ true) keys
    → last_value k (picked m keys) ≡ (if includes keys k then map_get k m else none)
unfolding includes
last_value-picked k m [] h = refl
last_value-picked k m (j ∷ js) (h, hs) = ground (arith, last_value-picked k m js, text_eq_iff j k)

pub keep-present :
    (m : EnvMap) (keys : List Text)
    → (length (missing_keys m keys) == 0) ≡ true
    → All (λ j. is_some (map_get j m) ≡ true) keys
keep-present m [] h = tt
keep-present m (j ∷ js) h = ground (arith, keep-present m js)

pub guard_values-done :
    (ctx : Option RequestContext) (load : Option SetAccess) (set_id env_id : ℕ) (store : Store)
    (row : Row)
    → guard_values ctx load set_id env_id store ≡ done row
    → find_in_set env_id set_id store ≡ done row
unfolding guard_values
guard_values-done ctx load set_id env_id store row h =
    let (access, _, h1) = require_some-done load set_not_found _ row h in
    let (env, found, h2) = bind-done (find_in_set env_id set_id store) _ row h1 in
    let (_, h3) =
      require_none-done (assert_values ctx access (environment_of env)) forbidden _ row h2 in
    found ∙ h3

module _ (stamps : Stamps) (actor : Actor) (source : Row) (keys : List Text) (env : Row) where
  pub promoted_row-done :
      (old_text : Text) (saved : Saved)
      → promoted_row stamps actor source keys env old_text ≡ done saved
      → (text : Text) × (set_values old_text
            (picked (env_map (text_of source.content)) keys)
            (extract_notes (text_of source.content))
          ≡ some text)
        × (saved.row.content ≡ seal text)
        × (saved.row.id ≡ env.id)
        × (saved.row.set_id ≡ env.set_id)
  unfolding promoted_row commit
  promoted_row-done old_text saved h =
      let (text, wrote, h1) = require_some-done (set_values old_text _ _) type_error _ saved h in
      let (_, h2) = require_none-done (validate_environment_text text) invalid_text _ saved h1 in
      let same = done-injective _ _ h2 in
      (
        text,
        wrote,
        sym (ap (λ s. s.row.content) same),
        sym (ap (λ s. s.row.id) same),
        sym (ap (λ s. s.row.set_id) same),
      )

IsEntry-given :
    (text k : Text) (o : Option Text)
    → map_get k (env_map text) ≡ o
    → is_env_name k ≡ true
    → is_some o ≡ true
    → IsEntry (k, given o [])
IsEntry-given text k none e name h = cc
IsEntry-given text k (some v) e name h = record { name = name; value = map_get-IsValue k v text e }

picked-IsEntry :
    (text : Text) (keys : List Text)
    → All (λ j. is_env_name j ≡ true) keys
    → All (λ j. is_some (map_get j (env_map text)) ≡ true) keys
    → All IsEntry (picked (env_map text) keys)
picked-IsEntry text [] valid h = tt
picked-IsEntry text (k ∷ ks) (name, names) (h, hs) =
    (IsEntry-given text k (map_get k (env_map text)) refl name h, picked-IsEntry text ks names hs)

false≢true : false ≢ true
false≢true e = cc

or_else-if :
    (b : Bool) (o p : Option Text)
    → (b ≡ true → is_some o ≡ true)
    → or_else (if b then o else none) p ≡ (if b then o else p)
or_else-if false o p h = refl
or_else-if true none p h = absurd (false≢true (h refl))
or_else-if true (some v) p h = refl

includes-present :
    (m : EnvMap) (k : Text) (keys : List Text)
    → All (λ j. is_some (map_get j m) ≡ true) keys
    → includes keys k ≡ true
    → is_some (map_get k m) ≡ true
unfolding includes
includes-present m k [] h e = cc
includes-present m k (j ∷ js) (h, hs) e =
    ground (arith, includes-present m k js hs, text_eq_iff j k)

-- The values of the saved row.
module _ (stamps : Stamps) (actor : Actor) (source : Row) (keys : List Text) (env : Row)
    (saved : Saved) where
  pub promoted_row-values :
      promoted_row stamps actor source keys env (text_of env.content) ≡ done saved
      → All (λ j. is_env_name j ≡ true) keys
      → All (λ j. is_some (map_get j (env_map (text_of source.content))) ≡ true) keys
      → (k : Text)
      → value_in (some saved.row) k
        ≡ (if includes keys k then value_in (some source) k else value_in (some env) k)
  promoted_row-values h names present k =
      let m = env_map (text_of source.content) in
      let (text, wrote, content, _, _) =
        promoted_row-done stamps actor source keys env (text_of env.content) saved h in
      ap (λ c. map_get k (env_map (text_of c))) content
      ∙ ap (map_get k) (env_map-seal text)
      ∙ set_values-some (text_of env.content) text (picked m keys)
          (extract_notes (text_of source.content))
          (picked-IsEntry (text_of source.content) keys names present) wrote k
      ∙ ap (λ o. or_else o (value_in (some env) k)) (last_value-picked k m keys present)
      ∙ or_else-if (includes keys k) (map_get k m) (value_in (some env) k)
          (includes-present m k keys present)
