-- ===== src/Environments/Runs.antt =====
-- Sequences of operations on environments, by any callers
-- (src/modules/variable-set/variable-set-environment.service.ts).
use aoox_api.Prelude.{
  ℕ, ◌≡◌, refl, none, some, map, is_empty, if◌then◌else◌, sym, ap, not, Bool, Option, List, [], ◌∷◌,
  ◌++◌, length, ltb, any, ◌==◌, Text, text_eq,
}
use aoox_api.Access.{RequestContext}
use aoox_api.SetAccess.{SetAccess, token_is_limited, token_may_use}
use aoox_api.EnvText.Flags.{FlagPatch}
use aoox_api.EnvText.Notes.{extract_notes}
use aoox_api.EnvText.Validate.{unique, keys_of}
use aoox_api.EnvText.Blank.{parse_env_lines-IsBlank, extract_notes-IsBlank}
use aoox_api.Environments.{
  text_of, Row, Store, Actor, Action, done, forbidden, too_many, already_exists, still_used,
  find_in_set,
}
use aoox_api.Environments.Commit.{Stamps, Expected, Saved}
use aoox_api.Environments.Service.{update, restore_version, load_for_manage}
use aoox_api.Environments.Promote.{promote}
use aoox_api.Environments.Manage.{
  Answer, answered, create, remove, without_row, seal_imported, empty_row, in_set, max_environments,
}
use aoox_api.Environments.Steps.{bind-done, require-done, done-injective}
use aoox_api.Environments.Commits.{
  IsCommit, update-IsCommit, restore_version-IsCommit, promote-IsCommit,
}

-- One accepted operation, with stamps that are allowed on the table.
pub data Step (Allowed : Stamps → Store → Type 0) : Store → Store → Type 0 where
  updated :
      (ctx : Option RequestContext) (load : Option SetAccess) (stamps : Stamps) (actor : Actor)
      (action : Action) (patch : FlagPatch) (set_id env_id : ℕ) (variables : Text)
      (expected : Expected) (s s' : Store) (saved : Saved)
      → Allowed stamps s
      → update ctx load stamps actor action patch set_id env_id variables expected s
        ≡ done (s', saved)
      → Step Allowed s s'
  restored :
      (ctx : Option RequestContext) (load : Option SetAccess) (stamps : Stamps) (actor : Actor)
      (set_id env_id version_id : ℕ) (expected : Expected) (s s' : Store) (saved : Saved)
      → Allowed stamps s
      → restore_version ctx load stamps actor set_id env_id version_id expected s ≡ done (s', saved)
      → Step Allowed s s'
  promoted :
      (ctx : Option RequestContext) (load : Option SetAccess) (stamps : Stamps) (actor : Actor)
      (set_id target_id source_id : ℕ) (keys : List Text) (expected : Expected) (s s' : Store)
      (saved : Saved)
      → Allowed stamps s
      → promote ctx load stamps actor set_id target_id source_id keys expected s ≡ done (s', saved)
      → Step Allowed s s'
  created :
      (ctx : Option RequestContext) (load : Option SetAccess) (stamps : Stamps) (env_id : ℕ)
      (answer : Answer) (set_id : ℕ) (name : Text) (is_protected : Bool) (s s' : Store) (row : Row)
      → Allowed stamps s
      → create ctx load env_id stamps.saved_at answer set_id name is_protected s ≡ done (s', row)
      → Step Allowed s s'
  -- One environment of an imported set. The text is any: an import does not validate it.
  imported :
      (stamps : Stamps) (env_id set_id : ℕ) (name : Text) (is_protected : Bool) (text : Text)
      (secret plain : List Text) (s s' : Store)
      → Allowed stamps s
      → s'
        ≡ s
          ++ (seal_imported
                (empty_row env_id set_id name is_protected stamps.saved_at)
                text
                secret
                plain
              ∷ [])
      → Step Allowed s s'
  removed :
      (ctx : Option RequestContext) (load : Option SetAccess) (users : List Text) (answer : Answer)
      (set_id env_id : ℕ) (s s' : Store)
      → remove ctx load users answer set_id env_id s ≡ done s'
      → Step Allowed s s'

pub data Runs (Allowed : Stamps → Store → Type 0) (s : Store) : Store → Type 0 where
  here : Runs Allowed s s
  next : (s' s'' : Store) → Runs Allowed s s' → Step Allowed s' s'' → Runs Allowed s s''

-- A new row: its columns are those of its text, and it has no versions.
pub record IsFresh (now : ℕ) (row : Row) : Type 0 where
  pub saved : row.updated_at ≡ now
  pub keys : row.keys ≡ keys_of (text_of row.content)
  pub notes : row.notes ≡ extract_notes (text_of row.content)
  pub versions : row.versions ≡ []

empty_row-IsFresh :
    (env_id set_id : ℕ) (name : Text) (is_protected : Bool) (now : ℕ)
    → IsFresh now (empty_row env_id set_id name is_protected now)
unfolding keys_of
empty_row-IsFresh env_id set_id name is_protected now = record {
  saved = refl;
  keys = ap (λ es. unique (map (λ e. e.0) es)) (sym (parse_env_lines-IsBlank [] refl));
  notes = sym (extract_notes-IsBlank [] refl);
  versions = refl;
}

text_of-imported : (text : Text) → text ≡ text_of (if is_empty text then none else some text)
text_of-imported [] = refl
text_of-imported (c ∷ cs) = refl

seal_imported-IsFresh :
    (now : ℕ) (row : Row) (text : Text) (secret plain : List Text)
    → IsFresh now row
    → IsFresh now (seal_imported row text secret plain)
unfolding seal_imported
seal_imported-IsFresh now row text secret plain f = record {
  saved = f.saved;
  keys = ap keys_of (text_of-imported text);
  notes = ap extract_notes (text_of-imported text);
  versions = f.versions;
}

-- What an operation does to the table.
pub data Effect (Allowed : Stamps → Store → Type 0) (s s' : Store) : Type 0 where
  committed :
      (stamps : Stamps) (set_id env_id : ℕ) (expected : Expected) (saved : Saved)
      → Allowed stamps s
      → IsCommit stamps set_id env_id expected s s' saved
      → Effect Allowed s s'
  inserted :
      (stamps : Stamps) (row : Row)
      → Allowed stamps s
      → IsFresh stamps.saved_at row
      → s' ≡ s ++ (row ∷ [])
      → Effect Allowed s s'
  deleted : (env_id set_id : ℕ) → s' ≡ without_row env_id set_id s → Effect Allowed s s'

create-inserted :
    (ctx : Option RequestContext) (load : Option SetAccess) (env_id now : ℕ) (answer : Answer)
    (set_id : ℕ) (name : Text) (is_protected : Bool) (s s' : Store) (row : Row)
    → create ctx load env_id now answer set_id name is_protected s ≡ done (s', row)
    → s' ≡ s ++ (empty_row env_id set_id name is_protected now ∷ [])
unfolding create
create-inserted ctx load env_id now answer set_id name is_protected s s' row h =
    let out : Store × Row = (s', row) in
    let (access, _, h1) = bind-done (load_for_manage ctx load) _ out h in
    let (_, h2) =
      require-done (token_may_use ctx access.slug name) (forbidden token_is_limited) _ out h1 in
    let (_, h3) =
      require-done (ltb (length (in_set set_id s)) max_environments) too_many _ out h2 in
    let (_, h4) =
      require-done (not (any (λ r. text_eq r.name name) (in_set set_id s))) already_exists _ out
        h3 in
    let (_, _, h5) = bind-done (answered answer already_exists) _ out h4 in
    sym (ap (λ p. p.0) (done-injective _ _ h5))

remove-deleted :
    (ctx : Option RequestContext) (load : Option SetAccess) (users : List Text) (answer : Answer)
    (set_id env_id : ℕ) (s s' : Store)
    → remove ctx load users answer set_id env_id s ≡ done s'
    → s' ≡ without_row env_id set_id s
unfolding remove
remove-deleted ctx load users answer set_id env_id s s' h =
    let (access, _, h1) = bind-done (load_for_manage ctx load) _ s' h in
    let (env, _, h2) = bind-done (find_in_set env_id set_id s) _ s' h1 in
    let (_, h3) =
      require-done (token_may_use ctx access.slug env.name) (forbidden token_is_limited) _ s' h2 in
    let (_, h4) = require-done (length users == 0) still_used _ s' h3 in
    let (_, _, h5) = bind-done (answered answer still_used) _ s' h4 in sym (done-injective _ _ h5)

pub Step-Effect :
    (Allowed : Stamps → Store → Type 0) (s s' : Store) → Step Allowed s s' → Effect Allowed s s'
Step-Effect Allowed _ _
      (updated ctx load stamps actor action patch set_id env_id variables expected s s' saved a h) =
    committed stamps set_id env_id expected saved a (
      update-IsCommit ctx load stamps actor set_id env_id expected s s' saved action patch variables
        h)
Step-Effect Allowed _ _
      (restored ctx load stamps actor set_id env_id version_id expected s s' saved a h) =
    committed stamps set_id env_id expected saved a (
      restore_version-IsCommit ctx load stamps actor set_id env_id expected s s' saved version_id h)
Step-Effect Allowed _ _
      (promoted ctx load stamps actor set_id target_id source_id keys expected s s' saved a h) =
    committed stamps set_id target_id expected saved a
      (promote-IsCommit ctx load stamps actor set_id target_id expected s s' saved source_id keys h)
Step-Effect Allowed _ _
      (created ctx load stamps env_id answer set_id name is_protected s s' row a h) =
    inserted stamps (empty_row env_id set_id name is_protected stamps.saved_at) a
      (empty_row-IsFresh env_id set_id name is_protected stamps.saved_at)
      (create-inserted ctx load env_id stamps.saved_at answer set_id name is_protected s s' row h)
Step-Effect Allowed _ _
      (imported stamps env_id set_id name is_protected text secret plain s s' a table) =
    let row = empty_row env_id set_id name is_protected stamps.saved_at in
    inserted stamps (seal_imported row text secret plain) a
      (seal_imported-IsFresh stamps.saved_at row text secret plain
        (empty_row-IsFresh env_id set_id name is_protected stamps.saved_at))
      table
Step-Effect Allowed _ _ (removed ctx load users answer set_id env_id s s' h) =
    deleted env_id set_id (remove-deleted ctx load users answer set_id env_id s s' h)
