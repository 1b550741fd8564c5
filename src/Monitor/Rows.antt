-- ===== src/Monitor/Rows.antt =====
-- The stored state of one application's monitor (http-monitor.entity.ts, http-check.entity.ts and
-- http-incident.entity.ts of src/modules/http-monitor): its row, its checks and its incidents, both
-- lists with the newest first, and the messages that were sent.
use aoox_api.Prelude.{ℕ, suc, Bool, true, false, Option, none, some, List, [], ◌∷◌, Text}
use aoox_api.Monitor.{MonitorState, unknown}

pub record Config : Type 0 where
  pub enabled : Bool
  pub path : Text
  pub interval_minutes : ℕ
  pub timeout_seconds : ℕ
  pub expected_codes : Text
  pub failure_threshold : ℕ
  pub use_internal : Bool

pub record Row : Type 0 where
  pub config : Config
  pub state : MonitorState
  pub status_since : Option ℕ
  pub last_checked_at : Option ℕ
  pub last_status_code : Option ℕ
  pub last_latency_ms : Option ℕ
  pub last_error : Option Text
  pub last_target : Option Text
  pub last_alert_at : Option ℕ

pub record HttpCheck : Type 0 where
  pub at : ℕ
  pub ok : Bool
  pub status_code : Option ℕ
  pub latency_ms : ℕ
  pub error : Option Text

pub record Incident : Type 0 where
  pub started_at : ℕ
  pub ended_at : Option ℕ
  pub reason : Option Text
  pub failed_checks : ℕ

pub data Kind : Type 0 where
  down recovered still_down : Kind

-- What `message` puts into a notification.
pub record Message : Type 0 where
  pub kind : Kind
  pub error : Option Text
  pub since : Option ℕ

pub record Store : Type 0 where
  pub row : Option Row
  pub checks : List HttpCheck
  pub incidents : List Incident
  pub sent : List Message

-- A row that is created and not saved yet.
abbrev pub new_row : Config → Row
new_row config = record {
  config = config;
  state = record { status = unknown; consecutive_failures = 0 };
  status_since = none;
  last_checked_at = none;
  last_status_code = none;
  last_latency_ms = none;
  last_error = none;
  last_target = none;
  last_alert_at = none;
}

abbrev pub is_open : Incident → Bool
is_open i = elim i.ended_at [ none ↦ true | some t ↦ false ]

-- How many incidents are open.
abbrev pub open_count : List Incident → ℕ
open_count [] = 0
open_count (i ∷ is_) = elim i.ended_at [ none ↦ suc (open_count is_) | some t ↦ open_count is_ ]

abbrev pub close_incident : ℕ → Incident → Incident
close_incident now i = record i { ended_at = some now }
