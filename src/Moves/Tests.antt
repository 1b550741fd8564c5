-- ===== src/Moves/Tests.antt =====
-- A move to one server and on to another, and the clean-up after it.
use aoox_api.Prelude.{
  ◌≡◌, refl, true, false, if◌then◌else◌, not, ◌&&◌, Option, none, some, List, [], ◌∷◌, includes,
  Text, text_eq, codes,
}
use aoox_api.Moves.{daemon_key}
use aoox_api.Moves.Chain.{server_after, pending_after, visited, pending_after-visited}
use aoox_api.Moves.Retire.{
  Daemons, for_server, Reached, reached, missing, unreachable, MovedRow, retire_previous_daemons,
}
use aoox_api.Moves.Sweep.{IsDone}
use aoox_api.Moves.Serving.{retire-serving, retire-IsDone}

abbrev route : List (Option Text)
route = some (codes "b") ∷ some (codes "a") ∷ []

pending_after-visited_example :
    includes (pending_after none route) (codes "a")
    ≡ includes (visited none route) (codes "a")
      && not (text_eq (daemon_key (server_after none route)) (codes "a"))
pending_after-visited_example = pending_after-visited none route (codes "a")

-- The old containers are on the host, and the server `gone` has no row.
abbrev daemons : Daemons
daemons none = record { of_application = true; is_swarm_task = false } ∷ []
daemons (some id) = record { of_application = true; is_swarm_task = false } ∷ []

abbrev answer : Option Text → Reached
answer none = reached
answer (some id) = if text_eq id (codes "gone") then missing else unreachable

abbrev moved_row : MovedRow
moved_row = record {
  server_id = some (codes "a");
  previous_daemons = codes "host" ∷ codes "gone" ∷ codes "b" ∷ [];
}

retire-moved_row :
    (retire_previous_daemons
      (λ c. true)
      answer
      true
      (some (codes "a"))
      moved_row
      daemons).0.previous_daemons
    ≡ codes "b" ∷ []
unfolding retire_previous_daemons daemon_key includes
retire-moved_row = refl

none_empty : includes moved_row.previous_daemons [] ≡ false
unfolding includes
none_empty = refl

retire-serving_example :
    (retire_previous_daemons (λ c. true) answer true (some (codes "a")) moved_row daemons).1
      (for_server (some (codes "a")))
    ≡ daemons (for_server (some (codes "a")))
retire-serving_example =
    retire-serving (λ c. true) answer true (some (codes "a")) moved_row daemons none_empty

host_listed : includes moved_row.previous_daemons (codes "host") ≡ true
unfolding includes
host_listed = refl

host_done :
    includes
      (retire_previous_daemons
        (λ c. true)
        answer
        true
        (some (codes "a"))
        moved_row
        daemons).0.previous_daemons
      (codes "host")
    ≡ false
unfolding retire_previous_daemons daemon_key includes
host_done = refl

retire-IsDone_example :
    IsDone
      (λ c. true)
      answer
      (retire_previous_daemons (λ c. true) answer true (some (codes "a")) moved_row daemons).1
      (codes "host")
retire-IsDone_example =
    retire-IsDone (λ c. true) answer true (some (codes "a")) moved_row daemons (codes "host")
      host_listed host_done
