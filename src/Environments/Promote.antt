-- ===== src/Environments/Promote.antt =====
-- `promote` of src/modules/variable-set/variable-set-environment.service.ts: copying the values of
-- variables from one environment of a set into another.
use aoox_api.Prelude.{
  ℕ, not, Option, some, List, [], map, keep, length, ◌==◌, Text, map_get, is_some, given,
}
use aoox_api.Access.{RequestContext}
use aoox_api.SetAccess.{SetAccess}
use aoox_api.EnvText.{EnvMap, env_map}
use aoox_api.EnvText.Write.{set_values}
use aoox_api.EnvText.Objects.{as_live}
use aoox_api.EnvText.Notes.{extract_notes}
use aoox_api.EnvText.Validate.{unique, validate_environment_text}
use aoox_api.EnvText.Compare.{summarize_change}
use aoox_api.Environments
use aoox_api.Environments.{
  Action, Detail, no_detail, restored_version, from_environment, Actor, text_of, seal, Version, Row,
  Store, Failure, set_not_found, version_not_found, forbidden, invalid_text, already_current,
  same_environment, no_keys, not_set, type_error, too_many, already_exists, still_used,
  database_error, Result, done, failed, ◌>>=◌, ◌>>◌, require, require_some, require_none,
  find_in_set, find_by_name, find_version, list_of, secret_keys, plain_keys,
}
use aoox_api.Environments.Commit.{Stamps, commit, commit_flags, Expected, Saved, transact}
use aoox_api.Environments.Service.{guard_values, patch_from}

-- The values of the names; each of them is in the map.
abbrev pub picked : EnvMap → List Text → List (Text × Text)
picked values keys = map (λ k. (k, given (map_get k values) [])) keys

-- The row with the values, from the source's text and flags.
unfoldable pub promoted_row : Stamps → Actor → Row → List Text → Row → Text → Result Saved
unfolding set_values extract_notes
promoted_row stamps actor source keys env old_text = do
  text ←
      require_some
        (set_values old_text (picked (env_map (text_of source.content)) keys)
          (extract_notes (text_of source.content)))
        type_error
  require_none (validate_environment_text text) invalid_text
  let patch = patch_from (as_live source.flags) [] keys
  let out =
      commit stamps
        (record {
          actor = actor;
          action = Environments.promote;
          detail = from_environment source.name;
        })
        env old_text text patch
  done (record {
    row = out;
    summary =
        some (summarize_change old_text text (as_live env.flags) (commit_flags env text patch));
  })

abbrev pub missing_keys : EnvMap → List Text → List Text
missing_keys values keys = keep (λ k. not (is_some (map_get k values))) keys

module _ (ctx : Option RequestContext) (load : Option SetAccess) where
  unfoldable pub promote :
      Stamps → Actor → ℕ → ℕ → ℕ → List Text → Expected → Store → Result (Store × Saved)
  unfolding guard_values transact promoted_row unique
  promote stamps actor set_id target_id source_id keys expected store = do
    require (not (source_id == target_id)) same_environment
    require (not (length (unique keys) == 0)) no_keys
    source ← guard_values ctx load set_id source_id store
    guard_values ctx load set_id target_id store
    let missing = missing_keys (env_map (text_of source.content)) (unique keys)
    require (length missing == 0) (not_set missing)
    transact store set_id target_id expected (promoted_row stamps actor source (unique keys))
