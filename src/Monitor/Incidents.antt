-- ===== src/Monitor/Incidents.antt =====
-- The incidents of a monitor against its status, over every sequence of the service's operations
-- (src/modules/http-monitor/http-monitor.service.ts).
use aoox_api.Prelude.{
  ℕ, ◌≡◌, refl, Bool, true, false, not, ◌&&◌, some, ltb, Text, inl, inr, Bool-cases,
}
use aoox_api.Monitor.{unknown, is_down}
use aoox_api.Monitor.Rows.{Row, Store}
use aoox_api.Monitor.Config.{Input, save_config}
use aoox_api.Monitor.Check.{
  Target, ProbeResult, check, visit, record_problem, same_status, url, unreachable,
}
use aoox_api.Monitor.Invariant.{
  all_failed, all_failed, all_failed, IsConsistentRow, IsConsistent, reset_state-IsConsistent,
  IsConsistent-row,
}
use aoox_api.Monitor.Checking.{record_probe-IsConsistent}
use aoox_api.Monitor.Settings.{save_config-IsConsistent}

-- One operation: a monitor is visited and checked only while it is enabled.
pub data Step : Store → Store → Type 0 where
  save : (now : ℕ) (input : Input) (s : Store) → Step s (save_config now input s)
  visited :
      (now : ℕ) (running deploying in_flight : Bool) (r : Row) (s : Store)
      → s.row ≡ some r
      → r.config.enabled ≡ true
      → Step s (visit now running deploying in_flight r s).0
  checked :
      (now : ℕ) (in_flight : Bool) (target : Target) (result : ProbeResult) (r : Row) (s : Store)
      → s.row ≡ some r
      → r.config.enabled ≡ true
      → Step s (check now in_flight target result r s).0

pub data Reach (s : Store) : Store → Type 0 where
  here : Reach s s
  next : {t u : Store} → Reach s t → Step t u → Reach s u

drop-IsConsistent :
    (r : Row) (s : Store)
    → not (is_down r.state.status) && ltb 0 r.state.consecutive_failures ≡ true
    → IsConsistentRow r s.checks s.incidents
    → IsConsistent
        (record s { row = some (record r { state = record r.state { consecutive_failures = 0 } }) })
unfolding IsConsistent all_failed
drop-IsConsistent r s drops inv = record {
  counted = inv.counted;
  alive = inv.alive;
  announced = inv.announced;
  failed = refl;
}

visit-IsConsistent :
    (now : ℕ) (running deploying in_flight : Bool) (r : Row) (s : Store)
    → s.row ≡ some r
    → IsConsistent s
    → IsConsistent (visit now running deploying in_flight r s).0
unfolding visit
visit-IsConsistent now false deploying in_flight r s held inv =
    elim (Bool-cases (same_status r.state.status unknown)) [
      | inl calm ↦ rw calm inv
      | inr other ↦ rw other (reset_state-IsConsistent now r s)
    ]
visit-IsConsistent now true false in_flight r s held inv = inv
visit-IsConsistent now true true in_flight r s held inv =
    elim (Bool-cases (not (is_down r.state.status) && ltb 0 r.state.consecutive_failures)) [
      | inr keeps ↦ rw keeps inv
      | inl drops ↦ rw drops (drop-IsConsistent r s drops (IsConsistent-row r s held inv))
    ]

problem-IsConsistent :
    (now : ℕ) (problem : Text) (r : Row) (s : Store)
    → IsConsistentRow r s.checks s.incidents
    → IsConsistent (record_problem now problem r s).0
unfolding record_problem IsConsistent
problem-IsConsistent now problem r s inv = record {
  counted = inv.counted;
  alive = inv.alive;
  announced = inv.announced;
  failed = inv.failed;
}

check-IsConsistent :
    (now : ℕ) (in_flight : Bool) (target : Target) (result : ProbeResult) (r : Row) (s : Store)
    → s.row ≡ some r
    → r.config.enabled ≡ true
    → IsConsistent s
    → IsConsistent (check now in_flight target result r s).0
unfolding check
check-IsConsistent now true target result r s held on inv = inv
check-IsConsistent now false (unreachable problem) result r s held on inv =
    problem-IsConsistent now problem r s (IsConsistent-row r s held inv)
check-IsConsistent now false (url address) result r s held on inv =
    record_probe-IsConsistent now address result r s on (IsConsistent-row r s held inv)

Step-IsConsistent : {s t : Store} → Step s t → IsConsistent s → IsConsistent t
Step-IsConsistent (save now input s) inv = save_config-IsConsistent now input s inv
Step-IsConsistent (visited now running deploying in_flight r s held on) inv =
    visit-IsConsistent now running deploying in_flight r s held inv
Step-IsConsistent (checked now in_flight target result r s held on) inv =
    check-IsConsistent now in_flight target result r s held on inv

-- Over every sequence of settings, visits and checks in which only an enabled monitor is checked: a
-- monitor that is down is enabled, was announced and has exactly one open incident, any other
-- monitor has none, and its failures in a row are its newest checks.
pub Reach-IsConsistent : {s t : Store} → IsConsistent s → Reach s t → IsConsistent t
Reach-IsConsistent inv here = inv
Reach-IsConsistent inv (next r st) = Step-IsConsistent st (Reach-IsConsistent inv r)
