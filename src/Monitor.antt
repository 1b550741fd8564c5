-- ===== src/Monitor.antt =====
-- The alerting rule of HTTP monitors (src/modules/http-monitor/monitor-state.ts). A `Date` is its
-- number of milliseconds.
pub mod Streak
pub mod Rows
pub mod Probe
pub mod Config
pub mod Check
pub mod Invariant
pub mod Checking
pub mod Settings
pub mod Incidents
pub mod Dating
pub mod Imports
mod Tests
mod ServiceTests
use aoox_api.Prelude.{ℕ, ◌+◌, ◌*◌, Bool, true, false, not, Option, none, some, leb, if◌then◌else◌}

pub data Status : Type 0 where
  unknown up down : Status

pub record MonitorState : Type 0 where
  pub status : Status
  pub consecutive_failures : ℕ

-- `'down' | 'recovered'`
pub data Event : Type 0 where
  went_down recovered : Event

pub record Transition : Type 0 where
  pub state : MonitorState
  pub event : Option Event

abbrev pub realert_ms : ℕ
realert_ms = 21600000

abbrev pub is_down : Status → Bool
is_down down = true
is_down _ = false

unfoldable pub next_state : MonitorState → Bool → ℕ → Transition
next_state prev true threshold = record {
  state = record { status = up; consecutive_failures = 0 };
  event = if is_down prev.status then some recovered else none;
}
next_state prev false threshold =
    let failures = prev.consecutive_failures + 1 in
    if leb threshold failures
    then record {
      state = record { status = down; consecutive_failures = failures };
      event = if is_down prev.status then none else some went_down;
    }
    else record {
      state = record { status = prev.status; consecutive_failures = failures };
      event = none;
    }

-- `now - last >= interval * 60_000 - 10_000`, with the subtractions moved across.
unfoldable pub is_due : Option ℕ → ℕ → ℕ → Bool
is_due none interval_minutes now = true
is_due (some last) interval_minutes now = leb (last + interval_minutes * 60000) (now + 10000)

unfoldable pub should_realert : Option ℕ → ℕ → Bool
should_realert none now = true
should_realert (some last) now = leb (last + realert_ms) now
