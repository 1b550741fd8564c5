-- ===== src/HostPorts.antt =====
-- Conflicts of host ports (src/modules/host-port/host-port-conflicts.ts): what already has a port,
-- among the rows of the panel and the containers of the daemon.
pub mod Free
mod Tests
use aoox_api.Prelude.{
  ℕ, Bool, true, false, not, ◌&&◌, ◌||◌, Option, none, some, List, [], ◌∷◌, ◌++◌, any, length, take,
  ◌==◌, if◌then◌else◌, Text, codes, text_eq, decimal,
}
use aoox_api.EnvText.Validate.{set_add}

pub record AppRow : Type 0 where
  pub id : Text
  pub app_name : Text
  pub host_port : ℕ

pub record DbRow : Type 0 where
  pub name : Text
  pub host_port : ℕ

pub record StackRow : Type 0 where
  pub id : Text
  pub name : Text
  pub service_ports : List ℕ

-- What the rule reads of a container; a port may be published to none of the host's.
pub record Container : Type 0 where
  pub id : Text
  pub names : List Text
  pub ports : List (Option ℕ)

pub record ConflictData : Type 0 where
  pub apps : List AppRow
  pub dbs : List DbRow
  pub stacks : List StackRow
  pub containers : List Container
  pub companions : List DbRow

pub record Options : Type 0 where
  pub exclude_application_id : Option Text
  pub exclude_compose_app_id : Option Text
  pub is_own_container : Container → Bool

-- `id === excluded`
abbrev pub is_excluded : Text → Option Text → Bool
is_excluded id none = false
is_excluded id (some excluded) = text_eq id excluded

-- `seen.has(port)`
abbrev pub wants : List ℕ → ℕ → Bool
wants ports port = any (λ p. p == port) ports

abbrev message : ℕ → Text → Text → Text
message port kind name =
    decimal port ++ (codes " (" ++ (kind ++ (codes " " ++ (name ++ codes ")"))))

unfoldable pub container_name : Container → Text
container_name c = elim c.names [
  | [] ↦ take 12 c.id
  | [] ∷ names ↦ []
  | (d ∷ name) ∷ names ↦ if d == b'/' then name else d ∷ name
]

-- `if (seen.has(port)) taken.add(...)`
unfoldable pub add_port : List ℕ → List Text → ℕ → Text → Text → List Text
add_port ports taken port kind name =
    if wants ports port then set_add taken (message port kind name) else taken

module _ (ports : List ℕ) (options : Options) where
  unfoldable pub add_apps : List Text → List AppRow → List Text
  unfolding add_port
  add_apps taken [] = taken
  add_apps taken (a ∷ apps) =
      add_apps
        (if is_excluded a.id options.exclude_application_id
          then taken
          else add_port ports taken a.host_port (codes "application") a.app_name)
        apps

  unfoldable pub add_dbs : Text → List Text → List DbRow → List Text
  unfolding add_port
  add_dbs kind taken [] = taken
  add_dbs kind taken (d ∷ dbs) = add_dbs kind (add_port ports taken d.host_port kind d.name) dbs

  unfoldable pub add_services : Text → List Text → List ℕ → List Text
  unfolding add_port
  add_services name taken [] = taken
  add_services name taken (p ∷ ps) =
      add_services name (add_port ports taken p (codes "stack") name) ps

  unfoldable pub add_stacks : List Text → List StackRow → List Text
  unfolding add_services
  add_stacks taken [] = taken
  add_stacks taken (s ∷ stacks) =
      add_stacks
        (if is_excluded s.id options.exclude_compose_app_id
          then taken
          else add_services s.name taken s.service_ports)
        stacks

  -- A port that is 0 or missing is skipped.
  unfoldable pub add_bound : Text → List Text → List (Option ℕ) → List Text
  unfolding add_port
  add_bound name taken [] = taken
  add_bound name taken (none ∷ ps) = add_bound name taken ps
  add_bound name taken (some p ∷ ps) =
      add_bound name (if p == 0 then taken else add_port ports taken p (codes "container") name) ps

  unfoldable pub add_containers : List Text → List Container → List Text
  unfolding add_bound
  add_containers taken [] = taken
  add_containers taken (c ∷ cs) =
      add_containers
        (if options.is_own_container c then taken else add_bound (container_name c) taken c.ports)
        cs

unfoldable pub host_port_conflicts : List ℕ → ConflictData → Options → List Text
unfolding add_apps add_dbs add_stacks add_containers
host_port_conflicts ports rows options =
    if length ports == 0
    then []
    else (let apps = add_apps ports options [] rows.apps in
        let dbs = add_dbs ports options (codes "database") apps rows.dbs in
        let companions = add_dbs ports options (codes "admin database") dbs rows.companions in
        let stacks = add_stacks ports options companions rows.stacks in
        add_containers ports options stacks rows.containers)
