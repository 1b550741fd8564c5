-- ===== src/Environments/Manage.antt =====
-- Creating, deleting, exporting and importing environments, and reading them for a deployment
-- (src/modules/variable-set/variable-set-environment.service.ts).
use aoox_api.Prelude.{
  ℕ, Bool, true, false, not, ◌&&◌, Option, none, some, List, [], ◌∷◌, ◌++◌, map, keep, any, length,
  ltb, ◌==◌, if◌then◌else◌, Text, text_eq, is_empty,
}
use aoox_api.Access.{RequestContext}
use aoox_api.SetAccess.{SetAccess, token_is_limited, token_may_use}
use aoox_api.EnvText.Objects.{assign, Flags, stored_flags}
use aoox_api.EnvText.Notes.{extract_notes}
use aoox_api.EnvText.Flags.{mark, FlagPatch, next_flags}
use aoox_api.EnvText.Validate.{keys_of}
use aoox_api.Environments
use aoox_api.Environments.{
  Action, Detail, no_detail, restored_version, from_environment, Actor, text_of, seal, Version, Row,
  Store, Failure, set_not_found, version_not_found, forbidden, invalid_text, already_current,
  same_environment, no_keys, not_set, type_error, too_many, already_exists, still_used,
  database_error, Result, done, failed, ◌>>=◌, ◌>>◌, require, require_some, require_none,
  find_in_set, find_by_name, find_version, list_of, find_row, secret_keys, plain_keys,
}
use aoox_api.Environments.Service.{load_for_manage}

-- A new row, `create`.
abbrev pub max_environments : ℕ
max_environments = 20

-- How the database answers to a write: done, a unique or a foreign key is violated, another error.
pub data Answer : Type 0 where
  written violated broken : Answer

abbrev pub in_set : ℕ → Store → Store
in_set set_id store = keep (λ r. r.set_id == set_id) store

abbrev pub answered : Answer → Failure → Result Unit
answered written e = done tt
answered violated e = failed e
answered broken e = failed database_error

-- `DELETE` of a row, with its versions.
abbrev pub without_row : ℕ → ℕ → Store → Store
without_row env_id set_id store = keep (λ r. not (r.id == env_id && r.set_id == set_id)) store

-- An empty row, saved at a time.
abbrev pub empty_row : ℕ → ℕ → Text → Bool → ℕ → Row
empty_row env_id set_id name is_protected now = record {
  id = env_id;
  set_id = set_id;
  name = name;
  is_protected = is_protected;
  content = none;
  keys = [];
  flags = [];
  notes = [];
  updated_at = now;
  versions = [];
}

module _ (ctx : Option RequestContext) (load : Option SetAccess) where
  -- The row gets a new name `env_id`, and `answer` is the database's to the insertion.
  unfoldable pub create : ℕ → ℕ → Answer → ℕ → Text → Bool → Store → Result (Store × Row)
  unfolding load_for_manage
  create env_id now answer set_id name is_protected store = do
    access ← load_for_manage ctx load
    require (token_may_use ctx access.slug name) (forbidden token_is_limited)
    require (ltb (length (in_set set_id store)) max_environments) too_many
    require (not (any (λ r. text_eq r.name name) (in_set set_id store))) already_exists
    answered answer already_exists
    let row = empty_row env_id set_id name is_protected now
    done (store ++ (row ∷ []), row)

  -- `users` are the applications and stacks that link the environment.
  unfoldable pub remove : List Text → Answer → ℕ → ℕ → Store → Result Store
  unfolding load_for_manage
  remove users answer set_id env_id store = do
    access ← load_for_manage ctx load
    env ← find_in_set env_id set_id store
    require (token_may_use ctx access.slug env.name) (forbidden token_is_limited)
    require (length users == 0) still_used
    answered answer still_used
    done (without_row env_id set_id store)

-- One layer of variables for a deployment.
pub record VariableLayer : Type 0 where
  pub environment_id : ℕ
  pub text : Text
  pub flags : Flags

-- `layersFor`: the texts in the order of the links; what is missing is skipped.
unfoldable pub layers_for : List ℕ → Store → List VariableLayer
unfolding find_row
layers_for [] store = []
layers_for (id ∷ ids) store =
    let rest = layers_for ids store in
    elim (find_row (λ r. r.id == id) store) [
      | none ↦ rest
      | some row ↦
          record { environment_id = id; text = text_of row.content; flags = row.flags } ∷ rest
    ]

pub record ExportedEnvironment : Type 0 where
  pub name : Text
  pub is_protected : Bool
  pub variables : Option Text
  pub secret_keys : List Text
  pub plain_keys : List Text

abbrev exported : Bool → Row → ExportedEnvironment
exported include_values e = record {
  name = e.name;
  is_protected = e.is_protected;
  variables = if include_values then some (text_of e.content) else none;
  secret_keys = Environments.secret_keys e.flags;
  plain_keys = Environments.plain_keys e.flags;
}

unfoldable pub export_of : ℕ → Bool → Store → List ExportedEnvironment
unfolding list_of
export_of set_id include_values store = map (exported include_values) (list_of set_id store)

-- The entries of a file that are texts, each with the same flag.
abbrev pub mark_all : Bool → List Text → FlagPatch → FlagPatch
mark_all b [] patch = patch
mark_all b (k ∷ ks) patch = mark_all b ks (assign k (mark b) patch)

unfoldable pub seal_imported : Row → Text → List Text → List Text → Row
unfolding assign
seal_imported row text secret plain = record {
  id = row.id;
  set_id = row.set_id;
  name = row.name;
  is_protected = row.is_protected;
  content = if is_empty text then none else some text;
  keys = keys_of text;
  flags =
      stored_flags
        (next_flags [] [] (keys_of text) (mark_all false plain (mark_all true secret [])));
  notes = extract_notes text;
  updated_at = row.updated_at;
  versions = row.versions;
}
