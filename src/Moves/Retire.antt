-- ===== src/Moves/Retire.antt =====
-- Cleaning up the daemons that a moved application left behind (`removeApplicationContainers` of
-- src/modules/application/previous-daemons.ts and `retirePreviousDaemons` of
-- src/modules/application/deployment-runner.service.ts).
use aoox_api.Prelude.{
  Bool, true, false, not, ◌||◌, Option, none, some, List, [], ◌∷◌, keep, includes, Text, text_eq,
  if◌then◌else◌, is_empty,
}
use aoox_api.Moves.{server_id_of, set_add, pending_daemons}

-- What the labels of a container say.
pub record Container : Type 0 where
  pub of_application : Bool
  pub is_swarm_task : Bool

-- `forServer` (src/modules/server/remote-docker.service.ts): an empty id is the local daemon as well.
unfoldable pub for_server : Option Text → Option Text
for_server none = none
for_server (some id) = if is_empty id then none else some id

-- The daemon that a recorded key leads to.
unfoldable pub target_of : Text → Option Text
unfolding for_server server_id_of
target_of key = for_server (server_id_of key)

-- The containers of each daemon, `none` for the host's.
abbrev pub Daemons : Type 0
Daemons = Option Text → List Container

abbrev pub same_server : Option Text → Option Text → Bool
same_server none none = true
same_server (some a) (some b) = text_eq a b
same_server _ _ = false

-- Whether a daemon answers; `missing` is the exception that its server has no row.
pub data Reached : Type 0 where
  reached missing unreachable : Reached

-- The containers that are left, and whether no removal threw.
unfoldable pub remove_application_containers :
    (Container → Bool) → List Container → List Container × Bool
remove_application_containers removes [] = ([], true)
remove_application_containers removes (c ∷ cs) =
    let (rest, all) = remove_application_containers removes cs in
    if not c.of_application || c.is_swarm_task
    then (c ∷ rest, all)
    else if removes c
    then (rest, all)
    else (c ∷ cs, false)

abbrev pub set_daemon : Option Text → List Container → Daemons → Daemons
set_daemon id cs daemons d = if same_server d id then cs else daemons d

abbrev pub swept : Text → List Text → Daemons → List Container × Bool → Daemons × List Text
swept key done daemons (cs, all) =
    (set_daemon (target_of key) cs daemons, if all then set_add done key else done)

-- One round of the loop over the targets.
abbrev pub visit_daemon :
    (Container → Bool) → Reached → Text → Daemons × List Text → Daemons × List Text
visit_daemon removes reached key (daemons, done) =
    swept key done daemons (remove_application_containers removes (daemons (target_of key)))
visit_daemon removes missing key (daemons, done) = (daemons, set_add done key)
visit_daemon removes unreachable key (daemons, done) = (daemons, done)

unfoldable pub visit_targets :
    (Container → Bool)
    → (Option Text → Reached)
    → List Text
    → Daemons × List Text
    → Daemons × List Text
unfolding remove_application_containers target_of set_add
visit_targets removes reach [] s = s
visit_targets removes reach (key ∷ keys) s =
    visit_targets removes reach keys (visit_daemon removes (reach (target_of key)) key s)

-- The columns of the application's row.
pub record MovedRow : Type 0 where
  pub server_id : Option Text
  pub previous_daemons : List Text

-- The write of the row, which may throw.
abbrev pub without_done : Bool → MovedRow → Daemons × List Text → MovedRow × Daemons
without_done can_write row (daemons, done) =
    if can_write
    then (
      record row { previous_daemons = keep (λ k. not (includes done k)) row.previous_daemons },
      daemons,
    )
    else (row, daemons)

-- The row as it is read, with the server that the runner's copy has.
unfoldable pub retire_previous_daemons :
    (Container → Bool)
    → (Option Text → Reached)
    → Bool
    → Option Text
    → MovedRow
    → Daemons
    → MovedRow × Daemons
unfolding visit_targets pending_daemons
retire_previous_daemons removes reach can_write held row daemons =
    if same_server row.server_id held
    then without_done can_write row (
        visit_targets removes reach (pending_daemons row.previous_daemons row.server_id)
          (daemons, []))
    else (row, daemons)
