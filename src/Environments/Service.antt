-- ===== src/Environments/Service.antt =====
-- The operations on environments (src/modules/variable-set/variable-set-environment.service.ts), each
-- one a step on the table. The set with the caller's role, and what the database answers to a write
-- that another one may have overtaken, are arguments.
use aoox_api.Prelude.{
  map, true, false, ℕ, Bool, not, ◌&&◌, Option, none, some, List, [], ◌∷◌, Text, text_eq, take,
}
use aoox_api.Access.{RequestContext}
use aoox_api.SetAccess.{SetAccess, Environment, only_platform, is_platform_role, assert_values}
use aoox_api.EnvText.Write.{Notes}
use aoox_api.EnvText.Objects.{
  assign, Flag, marked, inherited, LiveFlags, as_live, flag_of, same_flags,
}
use aoox_api.EnvText.Flags.{Patch, mark, clear, other, FlagPatch, next_flags}
use aoox_api.EnvText.Validate.{keys_of, validate_environment_text}
use aoox_api.Environments
use aoox_api.EnvText.Compare.{ChangeSummary}
use aoox_api.Environments.{
  Via, Detail, Action, Detail, no_detail, restored_version, from_environment, Actor, text_of, seal,
  Version, Row, Store, Failure, set_not_found, version_not_found, forbidden, invalid_text,
  already_current, same_environment, no_keys, not_set, type_error, too_many, already_exists,
  still_used, database_error, Result, done, failed, ◌>>=◌, ◌>>◌, require, require_some,
  require_none, find_in_set, find_by_name, find_version, list_of, secret_keys, plain_keys,
}
use aoox_api.Environments.Commit.{
  env_version_keep, Stamps, commit, Expected, Saved, transact, assert_flag_patch, normalize_text,
}

-- `patch[k] = flags?.[k] ?? null`; an inherited member is no flag and not null.
abbrev pub patch_value : Option Flag → Patch
patch_value none = clear
patch_value (some (marked b)) = mark b
patch_value (some inherited) = other

unfoldable pub patch_from : LiveFlags → FlagPatch → List Text → FlagPatch
unfolding assign flag_of
patch_from flags patch [] = patch
patch_from flags patch (k ∷ ks) =
    patch_from flags (assign k (patch_value (flag_of flags k)) patch) ks

abbrev pub environment_of : Row → Environment
environment_of row = record { name = row.name; is_protected = row.is_protected }

pub record Reveal : Type 0 where
  pub variables : Text
  pub keys : List Text
  pub secret_keys : List Text
  pub plain_keys : List Text
  pub notes : Notes
  pub updated_at : ℕ

abbrev pub saved_only : Row → Saved
saved_only row = record { row = row; summary = none }

-- The flags of the old version for its keys.
abbrev pub version_patch : Version → List Text → FlagPatch
version_patch v keys = patch_from (as_live v.flags) [] keys

unfoldable pub is_current : Row → Text → Version → Bool
unfolding patch_from
is_current env old_text v =
    let text = text_of v.content in
    let keys = keys_of text in
    text_eq (normalize_text text) (normalize_text old_text)
    && same_flags (as_live env.flags) (next_flags [] [] keys (version_patch v keys))

-- The function that `update` gives to `transact`.
unfoldable pub edit : Stamps → Actor → Action → FlagPatch → Text → Row → Text → Result Saved
edit stamps actor action patch variables env old_text = done (
    saved_only (
      commit stamps (record { actor = actor; action = action; detail = no_detail }) env old_text
        variables patch))

unfoldable pub restore : Stamps → Actor → ℕ → Row → Text → Result Saved
unfolding is_current patch_from
restore stamps actor version_id env old_text = do
  v ← require_some (find_version version_id env.versions) version_not_found
  require_none (validate_environment_text (text_of v.content)) invalid_text
  require (not (is_current env old_text v)) already_current
  done (
      saved_only (
        commit stamps
          (record {
            actor = actor;
            action = Environments.restore;
            detail = restored_version v.created_at;
          })
          env old_text (text_of v.content) (version_patch v (keys_of (text_of v.content)))))

-- A version for those who see the set: its names and notes, and never its values.
pub record VersionView : Type 0 where
  pub id : ℕ
  pub created_at : ℕ
  pub author_email : Option Text
  pub via : Via
  pub action : Action
  pub detail : Detail
  pub summary : ChangeSummary
  pub notes : Notes
  pub current : Bool

abbrev version_view : Bool → Version → VersionView
version_view current v = record {
  id = v.id;
  created_at = v.created_at;
  author_email = v.author_email;
  via = v.via;
  action = v.action;
  detail = v.detail;
  summary = v.summary;
  notes = v.notes;
  current = current;
}

-- The newest version is the current content.
abbrev pub version_views : List Version → List VersionView
version_views [] = []
version_views (v ∷ vs) = version_view true v ∷ map (version_view false) vs

pub record RevealedVersion : Type 0 where
  pub variables : Text
  pub secret_keys : List Text
  pub plain_keys : List Text
  pub notes : Notes
  pub created_at : ℕ

-- `access.load` found the set with the caller's role, or throws.
module _ (ctx : Option RequestContext) (load : Option SetAccess) where
  unfoldable pub guard_values : ℕ → ℕ → Store → Result Row
  guard_values set_id env_id store = do
    access ← require_some load set_not_found
    env ← find_in_set env_id set_id store
    require_none (assert_values ctx access (environment_of env)) forbidden
    done env

  unfoldable pub load_for_manage : Result SetAccess
  load_for_manage = do
    access ← require_some load set_not_found
    require (is_platform_role access.role) (forbidden only_platform)
    done access

  unfoldable pub reveal : ℕ → ℕ → Store → Result Reveal
  unfolding guard_values
  reveal set_id env_id store = do
    env ← guard_values set_id env_id store
    done (record {
      variables = text_of env.content;
      keys = env.keys;
      secret_keys = Environments.secret_keys env.flags;
      plain_keys = Environments.plain_keys env.flags;
      notes = env.notes;
      updated_at = env.updated_at;
    })

  unfoldable pub list_versions : ℕ → ℕ → Store → Result (List VersionView)
  list_versions set_id env_id store = do
    require_some load set_not_found
    env ← find_in_set env_id set_id store
    done (version_views (take env_version_keep env.versions))

  unfoldable pub reveal_version : ℕ → ℕ → ℕ → Store → Result RevealedVersion
  unfolding guard_values
  reveal_version set_id env_id version_id store = do
    env ← guard_values set_id env_id store
    v ← require_some (find_version version_id env.versions) version_not_found
    done (record {
      variables = text_of v.content;
      secret_keys = Environments.secret_keys v.flags;
      plain_keys = Environments.plain_keys v.flags;
      notes = v.notes;
      created_at = v.created_at;
    })

  unfoldable pub update :
      Stamps → Actor → Action → FlagPatch → ℕ → ℕ → Text → Expected → Store → Result (Store × Saved)
  unfolding guard_values transact assert_flag_patch edit
  update stamps actor action patch set_id env_id variables expected store = do
    guard_values set_id env_id store
    require_none (validate_environment_text variables) invalid_text
    assert_flag_patch patch (keys_of variables)
    transact store set_id env_id expected (edit stamps actor action patch variables)

  unfoldable pub restore_version :
      Stamps → Actor → ℕ → ℕ → ℕ → Expected → Store → Result (Store × Saved)
  unfolding guard_values transact restore
  restore_version stamps actor set_id env_id version_id expected store = do
    guard_values set_id env_id store
    transact store set_id env_id expected (restore stamps actor version_id)
