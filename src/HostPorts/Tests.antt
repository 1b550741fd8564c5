-- ===== src/HostPorts/Tests.antt =====
-- Conflicts of host ports on one server.
use aoox_api.Prelude.{
  ◌≡◌, refl, false, none, some, List, [], ◌∷◌, every, length, ◌||◌, ◌&&◌, ◌==◌, codes, decimal,
  decimal_digits, includes, ℕ,
}
use aoox_api.HostPorts.{
  ConflictData, Options, add_port, add_apps, add_dbs, add_services, add_stacks, add_bound,
  add_containers, container_name, host_port_conflicts,
}
use aoox_api.HostPorts.Free.{
  nothing, app_is_free, db_is_free, stack_is_free, container_is_free, host_port_conflicts-nothing,
}

abbrev ports : List ℕ
ports = 80 ∷ 90 ∷ []

abbrev server : ConflictData
server = record {
  apps =
      record { id = codes "a"; app_name = codes "web"; host_port = 80 }
      ∷ record { id = codes "b"; app_name = codes "api"; host_port = 90 }
      ∷ [];
  dbs = record { name = codes "pg"; host_port = 5432 } ∷ [];
  stacks = [];
  containers =
      record { id = codes "0123"; names = codes "/x" ∷ []; ports = some 80 ∷ none ∷ some 80 ∷ [] }
      ∷ [];
  companions = [];
}

abbrev options : Options
options = record {
  exclude_application_id = some (codes "a");
  exclude_compose_app_id = none;
  is_own_container = λ c. false;
}

conflicts :
    host_port_conflicts ports server options
    ≡ codes "90 (application api)" ∷ codes "80 (container x)" ∷ []
unfolding host_port_conflicts add_apps add_dbs add_stacks add_services add_containers add_bound
    add_port container_name decimal decimal_digits includes
conflicts = refl

host_port_conflicts-nothing_example : nothing (host_port_conflicts ports server options) ≡ (
    length ports == 0
    || (every (app_is_free ports options) server.apps
        && (every (db_is_free ports options) server.dbs
            && (every (db_is_free ports options) server.companions
                && (every (stack_is_free ports options) server.stacks
                    && every (container_is_free ports options) server.containers)))))
host_port_conflicts-nothing_example = host_port_conflicts-nothing ports server options
