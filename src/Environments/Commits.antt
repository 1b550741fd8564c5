-- ===== src/Environments/Commits.antt =====
-- Every change of variables is a commit of a text that passes validation
-- (src/modules/variable-set/variable-set-environment.service.ts).
use aoox_api.Prelude.{ℕ, ◌≡◌, sym, ap, true, not, Option, none, List, [], length, ◌==◌, Text}
use aoox_api.Access.{RequestContext}
use aoox_api.SetAccess.{SetAccess}
use aoox_api.EnvText.{env_map}
use aoox_api.EnvText.Flags.{FlagPatch}
use aoox_api.EnvText.Write.{set_values}
use aoox_api.EnvText.Validate.{unique, keys_of, validate_environment_text}
use aoox_api.EnvText.Objects.{as_live}
use aoox_api.EnvText.Notes.{extract_notes}
use aoox_api.Environments
use aoox_api.Environments.{
  no_detail, from_environment, restored_version, Row, Store, Version, text_of, Actor, Action,
  Result, done, invalid_text, type_error, version_not_found, already_current, same_environment,
  no_keys, not_set, find_in_set, find_version, put_row,
}
use aoox_api.Environments.Commit.{
  Stamps, Authorship, Expected, matches, Saved, commit, assert_flag_patch, transact,
}
use aoox_api.Environments.Service.{
  guard_values, is_current, patch_from, version_patch, edit, restore, update, restore_version,
}
use aoox_api.Environments.Promote.{picked, promoted_row, missing_keys, promote}
use aoox_api.Environments.Steps.{
  bind-done, require-done, require_none-done, require_some-done, done-injective, transact-IsWrite,
}

pub record IsCommit (stamps : Stamps) (set_id env_id : ℕ) (expected : Expected)
    (store store' : Store) (saved : Saved) : Type 0 where
  pub row : Row
  pub found : find_in_set env_id set_id store ≡ done row
  pub unchanged : matches expected row ≡ true
  pub text : Text
  pub valid : validate_environment_text text ≡ none
  pub patch : FlagPatch
  pub authorship : Authorship
  pub wrote : saved.row ≡ commit stamps authorship row (text_of row.content) text patch
  pub table : store' ≡ put_row saved.row store

-- What the row of a transaction was made of.
record IsCommitted (stamps : Stamps) (row : Row) (saved : Saved) : Type 0 where
  text : Text
  valid : validate_environment_text text ≡ none
  patch : FlagPatch
  authorship : Authorship
  wrote : saved.row ≡ commit stamps authorship row (text_of row.content) text patch

write-IsCommit :
    (stamps : Stamps) (set_id env_id : ℕ) (expected : Expected) (fn : Row → Text → Result Saved)
    (store store' : Store) (saved : Saved)
    → ((row : Row) → fn row (text_of row.content) ≡ done saved → IsCommitted stamps row saved)
    → transact store set_id env_id expected fn ≡ done (store', saved)
    → IsCommit stamps set_id env_id expected store store' saved
write-IsCommit stamps set_id env_id expected fn store store' saved c h =
    let w = transact-IsWrite store set_id env_id expected fn store' saved h in
    let k = c w.row w.wrote in
    record {
      row = w.row;
      found = w.found;
      unchanged = w.unchanged;
      text = k.text;
      valid = k.valid;
      patch = k.patch;
      authorship = k.authorship;
      wrote = k.wrote;
      table = w.table;
    }

restore-IsCommitted :
    (stamps : Stamps) (actor : Actor) (version_id : ℕ) (row : Row) (saved : Saved)
    → restore stamps actor version_id row (text_of row.content) ≡ done saved
    → IsCommitted stamps row saved
unfolding restore
restore-IsCommitted stamps actor version_id row saved h =
    let (v, _, h1) =
      require_some-done (find_version version_id row.versions) version_not_found _ saved h in
    let (valid, h2) =
      require_none-done (validate_environment_text (text_of v.content)) invalid_text _ saved h1 in
    let (_, h3) =
      require-done (not (is_current row (text_of row.content) v)) already_current _ saved h2 in
    record {
      text = text_of v.content;
      valid = valid;
      patch = version_patch v (keys_of (text_of v.content));
      authorship = record {
        actor = actor;
        action = Environments.restore;
        detail = restored_version v.created_at;
      };
      wrote = ap (λ s. s.row) (sym (done-injective _ _ h3));
    }

promoted_row-IsCommitted :
    (stamps : Stamps) (actor : Actor) (source : Row) (keys : List Text) (row : Row) (saved : Saved)
    → promoted_row stamps actor source keys row (text_of row.content) ≡ done saved
    → IsCommitted stamps row saved
unfolding promoted_row
promoted_row-IsCommitted stamps actor source keys row saved h =
    let (text, _, h1) =
      require_some-done
        (set_values (text_of row.content) (picked (env_map (text_of source.content)) keys)
          (extract_notes (text_of source.content)))
        type_error _ saved h in
    let (valid, h2) = require_none-done (validate_environment_text text) invalid_text _ saved h1 in
    record {
      text = text;
      valid = valid;
      patch = patch_from (as_live source.flags) [] keys;
      authorship = record {
        actor = actor;
        action = Environments.promote;
        detail = from_environment source.name;
      };
      wrote = ap (λ s. s.row) (sym (done-injective _ _ h2));
    }

module _ (ctx : Option RequestContext) (load : Option SetAccess) (stamps : Stamps) (actor : Actor)
    (set_id env_id : ℕ) (expected : Expected) (store store' : Store) (saved : Saved) where
  pub update-IsCommit :
      (action : Action) (patch : FlagPatch) (variables : Text)
      → update ctx load stamps actor action patch set_id env_id variables expected store
        ≡ done (store', saved)
      → IsCommit stamps set_id env_id expected store store' saved
  unfolding update edit
  update-IsCommit action patch variables h =
      let out : Store × Saved = (store', saved) in
      let (_, _, h1) = bind-done (guard_values ctx load set_id env_id store) _ out h in
      let (valid, h2) =
        require_none-done (validate_environment_text variables) invalid_text _ out h1 in
      let (_, _, h3) = bind-done (assert_flag_patch patch (keys_of variables)) _ out h2 in
      write-IsCommit stamps set_id env_id expected (edit stamps actor action patch variables) store
        store' saved
        (λ row e. record {
          text = variables;
          valid = valid;
          patch = patch;
          authorship = record { actor = actor; action = action; detail = no_detail };
          wrote = ap (λ s. s.row) (sym (done-injective _ _ e));
        })
        h3

  pub restore_version-IsCommit :
      (version_id : ℕ)
      → restore_version ctx load stamps actor set_id env_id version_id expected store
        ≡ done (store', saved)
      → IsCommit stamps set_id env_id expected store store' saved
  unfolding restore_version
  restore_version-IsCommit version_id h =
      let out : Store × Saved = (store', saved) in
      let (_, _, h1) = bind-done (guard_values ctx load set_id env_id store) _ out h in
      write-IsCommit stamps set_id env_id expected (restore stamps actor version_id) store store'
        saved (λ row. restore-IsCommitted stamps actor version_id row saved) h1

  pub promote-IsCommit :
      (source_id : ℕ) (keys : List Text)
      → promote ctx load stamps actor set_id env_id source_id keys expected store
        ≡ done (store', saved)
      → IsCommit stamps set_id env_id expected store store' saved
  unfolding promote
  promote-IsCommit source_id keys h =
      let out : Store × Saved = (store', saved) in
      let (_, h1) = require-done (not (source_id == env_id)) same_environment _ out h in
      let (_, h2) = require-done (not (length (unique keys) == 0)) no_keys _ out h1 in
      let (source, _, h3) = bind-done (guard_values ctx load set_id source_id store) _ out h2 in
      let (_, _, h4) = bind-done (guard_values ctx load set_id env_id store) _ out h3 in
      let missing = missing_keys (env_map (text_of source.content)) (unique keys) in
      let (_, h5) = require-done (length missing == 0) (not_set missing) _ out h4 in
      write-IsCommit stamps set_id env_id expected (promoted_row stamps actor source (unique keys))
        store store' saved
        (λ row. promoted_row-IsCommitted stamps actor source (unique keys) row saved) h5
