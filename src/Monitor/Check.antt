-- ===== src/Monitor/Check.antt =====
-- One check, and the visit of a monitor by the scheduler (`check`, `transition` and the loop of
-- `runDue` of src/modules/http-monitor/http-monitor.service.ts).
use aoox_api.Prelude.{
  ℕ, Bool, true, false, not, ◌&&◌, ◌||◌, Option, none, some, List, [], ◌∷◌, ◌++◌, ltb, take, last,
  given, Text, codes, decimal, if◌then◌else◌,
}
use aoox_api.Monitor.{
  Status, unknown, Event, went_down, recovered, is_down, next_state, is_due, should_realert,
}
use aoox_api.Monitor.Rows.{Row, HttpCheck, Incident, Kind, Message, Store, is_open, close_incident}
use aoox_api.Monitor.Probe.{status_is_healthy}
use aoox_api.Monitor.Config.{reset_state}

-- What `resolveTarget` gives.
pub data Target : Type 0 where
  unreachable : Text → Target
  url : Text → Target

pub record ProbeResult : Type 0 where
  pub status_code : Option ℕ
  pub latency_ms : ℕ
  pub error : Option Text

pub record Outcome : Type 0 where
  pub ok : Bool
  pub result : Option ProbeResult
  pub error : Option Text

abbrev pub show_code : Option ℕ → Text
show_code none = codes "null"
show_code (some n) = decimal n

abbrev pub is_ok : ProbeResult → Text → Bool
is_ok result spec = elim result.status_code [ none ↦ false | some c ↦ status_is_healthy c spec ]

unfoldable pub error_of : Bool → ProbeResult → Option Text
error_of true result = none
error_of false result =
    some (take 200 (given result.error (codes "HTTP " ++ show_code result.status_code)))

-- The newest open incident ends.
unfoldable pub close_newest : ℕ → List Incident → List Incident
close_newest now [] = []
close_newest now (i ∷ is_) =
    if is_open i then close_incident now i ∷ is_ else i ∷ close_newest now is_

unfoldable pub newest_open : List Incident → Option Incident
newest_open [] = none
newest_open (i ∷ is_) = if is_open i then some i else newest_open is_

abbrev pub starts_at : ℕ → Row → Store → ℕ
starts_at now r s = elim (last (take r.state.consecutive_failures s.checks)) [
  | none ↦ now
  | some c ↦ c.at
]

-- `transition`: the row and the incidents after it, and the message to send.
unfoldable pub transition :
    ℕ → Option Event → Option Text → Row → Store → Row × Store × Option Message
unfolding close_newest newest_open
transition now (some went_down) error r s =
    let started = starts_at now r s in
    (
      record r { status_since = some started; last_alert_at = some now },
      record s {
        incidents =
            record {
              started_at = started;
              ended_at = none;
              reason = error;
              failed_checks = r.state.consecutive_failures;
            }
            ∷ s.incidents;
      },
      some (record { kind = Kind.down; error = error; since = some started }),
    )
transition now (some recovered) error r s = (
  record r { status_since = some now; last_alert_at = none },
  record s { incidents = close_newest now s.incidents },
  some (record {
    kind = Kind.recovered;
    error = none;
    since = elim (newest_open s.incidents) [ none ↦ none | some i ↦ some i.started_at ];
  }),
)
transition now none error r s =
    if is_down r.state.status && should_realert r.last_alert_at now
    then (
      record r { last_alert_at = some now },
      s,
      some (record { kind = Kind.still_down; error = error; since = r.status_since }),
    )
    else (r, s, none)

abbrev pub same_status : Status → Status → Bool
same_status Status.unknown Status.unknown = true
same_status Status.up Status.up = true
same_status Status.down Status.down = true
same_status _ _ = false

-- The row after a probe, before `transition`.
unfoldable pub probed : ℕ → Bool → Option Text → Text → ProbeResult → Row → Row
probed now ok error address result r =
    let t = next_state r.state ok r.config.failure_threshold in
    record r {
      state = t.state;
      status_since = if same_status t.state.status r.state.status then r.status_since else some now;
      last_checked_at = some now;
      last_status_code = result.status_code;
      last_latency_ms = some result.latency_ms;
      last_error = error;
      last_target = some (take 300 address);
    }

-- The row that `transition` gives is stored, and its message goes out.
abbrev pub commit : Row × Store × Option Message → Store
commit (r, s, m) = record s {
  row = some r;
  sent = elim m [ none ↦ s.sent | some msg ↦ msg ∷ s.sent ];
}

unfoldable pub record_probe : ℕ → Text → ProbeResult → Row → Store → Store × Outcome
unfolding probed transition error_of
record_probe now address result r s =
    let ok = is_ok result r.config.expected_codes in
    let error = error_of ok result in
    let row : HttpCheck = record {
      at = now;
      ok = ok;
      status_code = result.status_code;
      latency_ms = result.latency_ms;
      error = error;
    } in
    (
      commit (
          transition now (next_state r.state ok r.config.failure_threshold).event error
            (probed now ok error address result r) (record s { checks = row ∷ s.checks })),
      record { ok = ok; result = some result; error = error },
    )

-- A configuration problem is shown, and is no outage.
unfoldable pub record_problem : ℕ → Text → Row → Store → Store × Outcome
record_problem now problem r s = (
  record s {
    row = some (record r {
      last_checked_at = some now;
      last_error = some problem;
      last_target = none;
      last_status_code = none;
      last_latency_ms = none;
    });
  },
  record { ok = false; result = none; error = some problem },
)

unfoldable pub check : ℕ → Bool → Target → ProbeResult → Row → Store → Store × Outcome
unfolding record_probe record_problem
check now in_flight target result r s =
    if in_flight
    then (s, record { ok = true; result = none; error = some (codes "already running") })
    else (elim target [
      | unreachable problem ↦ record_problem now problem r s
      | url u ↦ record_probe now u result r s
    ])

-- One row in the loop of `runDue`: the store after it, and whether the monitor is to be checked.
unfoldable pub visit : ℕ → Bool → Bool → Bool → Row → Store → Store × Bool
unfolding reset_state
visit now running deploying in_flight r s =
    if not running
    then (if same_status r.state.status unknown then s else reset_state now r s, false)
    else if deploying
    then (
      if not (is_down r.state.status) && ltb 0 r.state.consecutive_failures
          then record s {
            row = some (record r { state = record r.state { consecutive_failures = 0 } });
          }
          else s,
      false,
    )
    else (s, not (in_flight || not (is_due r.last_checked_at r.config.interval_minutes now)))
