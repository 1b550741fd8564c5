-- ===== src/Resolver.antt =====
-- The environment of a container (`resolve` of src/modules/application/env-resolver.service.ts). What
-- `matchAll(REFERENCE)` finds in a value is an argument, and so are the secret source and databases.
pub mod Merging
pub mod Precedence
mod Tests
use aoox_api.Prelude.{
  ℕ, ◌+◌, ◌-◌, Bool, true, false, not, ◌&&◌, ◌||◌, Option, none, some, List, [], ◌∷◌, ◌++◌, map,
  keep, take, drop, length, any, includes, Text, text_eq, map_get, map_from, if◌then◌else◌,
}
use aoox_api.EnvText.{parse_env_lines}

pub data DatabaseField : Type 0 where
  url host port username password database : DatabaseField

pub data Scope : Type 0 where
  vars secret databases other : Scope

-- The field of a reference: none, one of a database, or another.
pub data FieldName : Type 0 where
  absent unknown : FieldName
  known : DatabaseField → FieldName

-- One match of `REFERENCE`, at its index.
pub record Reference : Type 0 where
  pub index : ℕ
  pub whole : Text
  pub scope : Scope
  pub name : Text
  pub field : FieldName
  pub db_name : Option Text

-- Why a container does not start.
pub data Problem : Type 0 where
  no_variable no_source no_secret no_database bad_reference : Text → Reference → Problem
  source_failed : Problem

pub data Outcome (A : Type 0) : Type 0 where
  resolved : A → Outcome A
  refused : Problem → Outcome A

abbrev pub EnvMap : Type 0
EnvMap = List (Text × Text)

-- What the secret source answers; `source_error` is a `SecretSourceError`.
pub data Fetch : Type 0 where
  secrets : EnvMap → Fetch
  source_error other_error : Fetch

pub record Input : Type 0 where
  -- The texts of the linked environments, in the order of the links.
  pub layers : List Text
  pub app_env : Text
  -- The application has a source, and the caller does not leave it out.
  pub source_active : Bool
  pub secret_sync : Bool
  pub lenient : Bool
  pub fetch : Fetch
  -- The pattern of a reference to a secret.
  pub refers_to_secret : Text → Bool
  -- `ENV_KEY_PATTERN`
  pub is_key : Text → Bool
  pub references : Text → List Reference
  -- The fields of a database of the project, for a name of a database on its server.
  pub find_database : Text → Option (Option Text → DatabaseField → Text)

-- The variables of the layers, later ones winning.
unfoldable pub merge_layers : List Text → EnvMap → EnvMap
unfolding map_from parse_env_lines
merge_layers [] m = m
merge_layers (text ∷ texts) m = merge_layers texts (map_from m (parse_env_lines text))

abbrev pub variables : Input → EnvMap
variables i = merge_layers i.layers []

abbrev pub own : Input → EnvMap
own i = parse_env_lines i.app_env

abbrev pub refers : Input → Bool
refers i =
    any (λ e. i.refers_to_secret e.1) (variables i) || any (λ e. i.refers_to_secret e.1) (own i)

abbrev pub fetched_or_not : Bool → Fetch → Outcome (Option EnvMap)
fetched_or_not lenient (secrets m) = resolved (some m)
fetched_or_not lenient source_error = if lenient then resolved none else refused source_failed
fetched_or_not lenient other_error = refused source_failed

unfoldable pub fetch_secrets : Input → Outcome (Option EnvMap)
unfolding merge_layers
fetch_secrets i =
    if i.source_active && (i.secret_sync || refers i)
    then fetched_or_not i.lenient i.fetch
    else resolved none

-- The secrets that become variables.
unfoldable pub synced : Input → Option EnvMap → EnvMap
synced i none = []
synced i (some m) = if i.secret_sync then keep (λ e. i.is_key e.0) m else []

unfoldable pub merged : Input → Option EnvMap → EnvMap
unfolding synced merge_layers map_from
merged i f = map_from (map_from (variables i) (synced i f)) (own i)

unfoldable pub delete_keys : EnvMap → List Text → List Text
delete_keys [] keys = keys
delete_keys ((k, v) ∷ entries) keys = delete_keys entries (keep (λ l. not (text_eq l k)) keys)

-- The keys whose values are never expanded.
unfoldable pub literal : Input → Option EnvMap → List Text
unfolding delete_keys synced
literal i f = delete_keys (own i) (map (λ e. e.0) (synced i f))

abbrev pub or_refuse : Problem → Option Text → Outcome Text
or_refuse p none = refused p
or_refuse p (some v) = resolved v

-- A source that could not be reached is only met by a lenient caller.
abbrev pub secret_value : Text → Reference → Option EnvMap → Outcome Text
secret_value key r none = resolved []
secret_value key r (some m) = or_refuse (no_secret key r) (map_get r.name m)

abbrev pub fields_value :
    Problem → Reference → DatabaseField → Option (Option Text → DatabaseField → Text) → Outcome Text
fields_value p r field none = refused p
fields_value p r field (some fields) = resolved (fields r.db_name field)

abbrev pub value_of : Input → Option EnvMap → Text → Reference → Scope → FieldName → Outcome Text
value_of i f key r vars absent = or_refuse (no_variable key r) (map_get r.name (variables i))
value_of i f key r secret absent =
    if i.source_active then secret_value key r f else refused (no_source key r)
value_of i f key r databases (known field) =
    fields_value (no_database key r) r field (i.find_database r.name)
value_of i f key r _ _ = refused (bad_reference key r)

-- The loop over the matches, with `last` and `resolved`.
unfoldable pub expand_from :
    Input → Option EnvMap → Text → Text → List Reference → ℕ → Text → Outcome Text
expand_from i f key value [] last text = resolved (text ++ drop last value)
expand_from i f key value (r ∷ rs) last text = elim (value_of i f key r r.scope r.field) [
  | refused p ↦ refused p
  | resolved v ↦
      expand_from i f key value rs (r.index + length r.whole)
        (text ++ take (r.index - last) (drop last value) ++ v)
]

unfoldable pub expand_entry : Input → Option EnvMap → Text → Text → Outcome Text
unfolding expand_from literal
expand_entry i f key value =
    if includes (literal i f) key
    then resolved value
    else expand_from i f key value (i.references value) 0 []

abbrev pub put_first : Text → Text → Outcome EnvMap → Outcome EnvMap
put_first key value (refused p) = refused p
put_first key value (resolved env) = resolved ((key, value) ∷ env)

abbrev pub expand_rest : Text → Outcome EnvMap → Outcome Text → Outcome EnvMap
expand_rest key rest (refused p) = refused p
expand_rest key rest (resolved value) = put_first key value rest

unfoldable pub expand_all : Input → Option EnvMap → EnvMap → Outcome EnvMap
unfolding expand_entry
expand_all i f [] = resolved []
expand_all i f ((key, value) ∷ m) = expand_rest key (expand_all i f m) (expand_entry i f key value)

-- The entries of `env`, each `KEY=VALUE` as a pair.
abbrev pub expand_fetched : Input → Outcome (Option EnvMap) → Outcome EnvMap
expand_fetched i (refused p) = refused p
expand_fetched i (resolved f) = expand_all i f (merged i f)

unfoldable pub resolve : Input → Outcome EnvMap
unfolding fetch_secrets expand_all merged
resolve i = expand_fetched i (fetch_secrets i)
