-- ===== src/Alert.antt =====
-- The rules of resource alerts (src/modules/resource-alert/alert-evaluation.ts). A `Date` is its
-- number of milliseconds; a percentage is an exact fraction where the program has a float.
pub mod Sorting
pub mod Breach
pub mod Machine
pub mod Service
pub mod Transfer
pub mod Lifecycle
pub mod Exchange
pub mod Visits
mod ServiceTests
mod Tests
use aoox_api.Prelude.{
  ℕ, zero, suc, ◌+◌, ◌-◌, ◌*◌, max, Bool, true, false, not, Option, none, some, List, [], ◌∷◌, ltb,
  leb, length, every, keep, last, map, if◌then◌else◌,
}

pub data AlertMetric : Type 0 where
  cpu memory : AlertMetric

pub record Value : Type 0 where
  pub num : ℕ
  pub den : ℕ

pub record MinuteReading : Type 0 where
  pub at : ℕ
  pub cpu_percent : Option Value
  pub memory_bytes : ℕ
  pub memory_limit_bytes : ℕ

abbrev pub max_staleness_ms : ℕ
max_staleness_ms = 180000

abbrev pub reminder_ms : ℕ
reminder_ms = 21600000

unfoldable pub metric_value : AlertMetric → MinuteReading → Option Value
metric_value cpu r = r.cpu_percent
metric_value memory r =
    if ltb 0 r.memory_limit_bytes
    then some (record { num = r.memory_bytes * 100; den = r.memory_limit_bytes })
    else none

-- `v !== null && v > threshold`
unfoldable pub is_above : ℕ → Option Value → Bool
is_above threshold none = false
is_above threshold (some v) = ltb (threshold * v.den) v.num

-- The stable sort by time.
unfoldable pub insert_by_time : MinuteReading → List MinuteReading → List MinuteReading
insert_by_time r [] = r ∷ []
insert_by_time r (x ∷ xs) = if leb r.at x.at then r ∷ x ∷ xs else x ∷ insert_by_time r xs

unfoldable pub sort_by_time : List MinuteReading → List MinuteReading
sort_by_time [] = []
sort_by_time (r ∷ rs) = insert_by_time r (sort_by_time rs)

abbrev pub or_zero : Option ℕ → ℕ
or_zero none = 0
or_zero (some n) = n

-- Where the window begins; a start before 1970 is the same as 0.
abbrev pub window_floor : ℕ → ℕ → Option ℕ → ℕ
window_floor duration_minutes now not_before =
    max (now - (duration_minutes * 60000 + 15000)) (or_zero not_before)

abbrev pub in_window : List MinuteReading → ℕ → ℕ → Option ℕ → List MinuteReading
in_window rows duration_minutes now not_before =
    keep (λ r. ltb (window_floor duration_minutes now not_before) r.at) rows

abbrev pub required_of : ℕ → ℕ
required_of duration_minutes =
    if leb 3 duration_minutes then duration_minutes - 1 else duration_minutes

pub record Evaluation : Type 0 where
  pub breaching : Bool
  pub latest_value : Option Value

abbrev pub latest_of : AlertMetric → List MinuteReading → Option Value
latest_of metric rows = elim (last rows) [ none ↦ none | some r ↦ metric_value metric r ]

-- What follows the count: `none` is the exception of a newest reading that is not there.
unfoldable pub judge_window : AlertMetric → List MinuteReading → ℕ → ℕ → Option Evaluation
judge_window metric rows threshold now = elim (last rows) [
  | none ↦ none
  | some newest ↦ some (record {
    breaching =
        if ltb (newest.at + max_staleness_ms) now
        then false
        else every (λ r. is_above threshold (metric_value metric r)) rows;
    latest_value = latest_of metric rows;
  })
]

unfoldable pub evaluate_breach :
    AlertMetric → List MinuteReading → ℕ → ℕ → ℕ → Option ℕ → Option Evaluation
unfolding sort_by_time judge_window
evaluate_breach metric rows threshold duration_minutes now not_before =
    let sorted = sort_by_time (in_window rows duration_minutes now not_before) in
    if ltb (length sorted) (required_of duration_minutes)
    then some (record { breaching = false; latest_value = latest_of metric sorted })
    else judge_window metric sorted threshold now

pub data AlertStatus : Type 0 where
  calm pending alerting : AlertStatus

pub record AlertState : Type 0 where
  pub status : AlertStatus
  pub status_since : Option ℕ
  pub last_alert_at : Option ℕ

pub data AlertAction : Type 0 where
  alert reminder recovered : AlertAction

abbrev pub back_to_calm : ℕ → AlertState
back_to_calm now = record { status = calm; status_since = some now; last_alert_at = none }

abbrev pub since : Option ℕ → ℕ → ℕ
since none now = now
since (some t) now = t

unfoldable pub next_alert_state : AlertState → Bool → ℕ → ℕ → AlertState × Option AlertAction
next_alert_state prev false now every_ms = elim prev.status [
  | alerting ↦ (back_to_calm now, some recovered)
  | pending ↦ (back_to_calm now, none)
  | calm ↦ (prev, none)
]
next_alert_state prev true now every_ms = elim prev.status [
  | calm ↦ (record { status = pending; status_since = some now; last_alert_at = none }, none)
  | pending ↦ (
    record {
      status = alerting;
      status_since = some (since prev.status_since now);
      last_alert_at = some now;
    },
    some alert,
  )
  | alerting ↦
      if leb (or_zero prev.last_alert_at + every_ms) now
      then (record prev { last_alert_at = some now }, some reminder)
      else (prev, none)
]
