-- ===== src/Resolver/Tests.antt =====
-- The environment of a small container.
use aoox_api.Prelude.{
  ◌≡◌, refl, true, false, Option, none, some, inl, [], ◌∷◌, All, Text, codes, map_get, map_set,
  includes, text_eq, is_space, trim, starts_with, index_of, if◌then◌else◌,
}
use aoox_api.EnvText.{split_lines, parse_line, parse_env_lines}
use aoox_api.Resolver.{
  Input, EnvMap, Reference, vars, absent, secrets, resolved, resolve, fetch_secrets, synced,
}
use aoox_api.Resolver.Merging.{raw_value, is_from_source}
use aoox_api.Resolver.Precedence.{resolve-raw_value, IsKnown, resolve-IsKnown}

abbrev to_host : Text
to_host = codes "http://${{vars.HOST}}/"

abbrev host_reference : Reference
host_reference = record {
  index = 7;
  whole = codes "${{vars.HOST}}";
  scope = vars;
  name = codes "HOST";
  field = absent;
  db_name = none;
}

abbrev input : Input
input = record {
  layers = codes "HOST=a\nPORT=1" ∷ codes "HOST=b" ∷ [];
  app_env = codes "URL=http://${{vars.HOST}}/";
  source_active = true;
  secret_sync = true;
  lenient = false;
  fetch = secrets ((codes "PORT", codes "2") ∷ []);
  refers_to_secret = λ v. false;
  is_key = λ k. true;
  references = λ v. if text_eq v to_host then host_reference ∷ [] else [];
  find_database = λ n. none;
}

abbrev from_source : Option EnvMap
from_source = some ((codes "PORT", codes "2") ∷ [])

abbrev output : EnvMap
output =
    (codes "HOST", codes "b") ∷ (codes "PORT", codes "2") ∷ (codes "URL", codes "http://b/") ∷ []

resolve-input : resolve input ≡ resolved output
unfolding resolve split_lines parse_line trim is_space starts_with index_of map_get map_set includes
resolve-input = refl

fetched : fetch_secrets input ≡ resolved from_source
unfolding fetch_secrets
fetched = refl

port_value : raw_value input from_source (codes "PORT") ≡ some (codes "2")
unfolding raw_value synced parse_env_lines parse_line trim is_space starts_with index_of
port_value = refl

port_from_source : is_from_source input from_source (codes "PORT") ≡ true
unfolding is_from_source synced parse_env_lines parse_line trim is_space starts_with index_of
port_from_source = refl

resolve-raw_value_example : map_get (codes "PORT") output ≡ some (codes "2")
resolve-raw_value_example =
    resolve-raw_value input from_source output (codes "PORT") (codes "2") fetched resolve-input
      port_value (inl port_from_source)

url_value : raw_value input from_source (codes "URL") ≡ some to_host
unfolding raw_value synced parse_env_lines parse_line trim is_space starts_with index_of
url_value = refl

url_own : is_from_source input from_source (codes "URL") ≡ false
unfolding is_from_source synced parse_env_lines parse_line trim is_space starts_with index_of
url_own = refl

resolve-IsKnown_example :
    All (λ r. IsKnown input from_source r r.scope r.field) (input.references to_host)
resolve-IsKnown_example =
    resolve-IsKnown input from_source output (codes "URL") to_host fetched resolve-input url_value
      url_own
