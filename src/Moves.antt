-- ===== src/Moves.antt =====
-- The daemons that a moved application left behind (src/modules/application/previous-daemons.ts). A
-- `Set` is the list of its elements in the order of insertion.
pub mod Chain
pub mod Retire
pub mod Sweep
pub mod Serving
mod Tests
use aoox_api.Prelude.{
  Bool, not, Option, none, some, List, [], ◌∷◌, ◌++◌, keep, includes, Text, text_eq, codes,
  is_empty, if◌then◌else◌,
}

abbrev pub host_daemon : Text
host_daemon = codes "host"

-- `serverId || HOST_DAEMON`
unfoldable pub daemon_key : Option Text → Text
daemon_key none = host_daemon
daemon_key (some id) = if is_empty id then host_daemon else id

unfoldable pub server_id_of : Text → Option Text
server_id_of key = if text_eq key host_daemon then none else some key

unfoldable pub set_add : List Text → Text → List Text
set_add keys key = if includes keys key then keys else keys ++ (key ∷ [])

unfoldable pub set_delete : List Text → Text → List Text
set_delete keys key = keep (λ k. not (text_eq k key)) keys

-- `new Set(list)`, from the set `keys` on.
unfoldable pub set_of : List Text → List Text → List Text
unfolding set_add
set_of keys [] = keys
set_of keys (k ∷ ks) = set_of (set_add keys k) ks

unfoldable pub record_move : List Text → Option Text → Option Text → List Text
unfolding set_of set_add set_delete
record_move pending from to =
    set_delete (set_add (set_of [] pending) (daemon_key from)) (daemon_key to)

unfoldable pub pending_daemons : List Text → Option Text → List Text
unfolding set_delete
pending_daemons pending current = keep (λ k. not (text_eq k (daemon_key current))) pending
