-- ===== src/Monitor/Config.antt =====
-- Saving and importing the settings of a monitor (`saveConfig`, `resetState` and `importConfig` of
-- src/modules/http-monitor/http-monitor.service.ts).
use aoox_api.Prelude.{
  ℕ, Bool, false, not, ◌&&◌, ◌||◌, Option, none, some, map, leb, is_some, given, Text, codes,
  if◌then◌else◌,
}
use aoox_api.Monitor.{unknown}
use aoox_api.Monitor.Rows.{Config, Row, Store, new_row, close_incident, is_open}
use aoox_api.Monitor.Probe.{validate_monitor_path, parse_expected_codes}

abbrev pub default_config : Config
default_config = record {
  enabled = false;
  path = codes "/";
  interval_minutes = 5;
  timeout_seconds = 10;
  expected_codes = codes "200-399";
  failure_threshold = 2;
  use_internal = false;
}

-- `Partial<MonitorView['config']>`
pub record Input : Type 0 where
  pub enabled : Option Bool
  pub path : Option Text
  pub interval_minutes : Option ℕ
  pub timeout_seconds : Option ℕ
  pub expected_codes : Option Text
  pub failure_threshold : Option ℕ
  pub use_internal : Option Bool

-- `Object.assign(monitor, input)`; no key of the input is there with the value undefined.
unfoldable pub assign : Config → Input → Config
assign c i = record {
  enabled = given i.enabled c.enabled;
  path = given i.path c.path;
  interval_minutes = given i.interval_minutes c.interval_minutes;
  timeout_seconds = given i.timeout_seconds c.timeout_seconds;
  expected_codes = given i.expected_codes c.expected_codes;
  failure_threshold = given i.failure_threshold c.failure_threshold;
  use_internal = given i.use_internal c.use_internal;
}

-- `resetState` of a row with an id, and the save that follows it.
unfoldable pub reset_state : ℕ → Row → Store → Store
reset_state now r s = record s {
  row = some (record r {
    state = record { status = unknown; consecutive_failures = 0 };
    status_since = none;
  });
  incidents = map (λ i. if is_open i then close_incident now i else i) s.incidents;
}

unfoldable pub save_row : ℕ → Bool → Bool → Row → Store → Store
unfolding reset_state
save_row now was_enabled exists r s =
    if not r.config.enabled && (was_enabled || exists)
    then reset_state now r s
    else (if r.config.enabled && not was_enabled
        then record s {
          row = some (record r {
            state = record { status = unknown; consecutive_failures = 0 };
            status_since = none;
            last_checked_at = none;
          });
        }
        else record s { row = some r })

unfoldable pub save_config : ℕ → Input → Store → Store
unfolding save_row assign
save_config now input s =
    let r = given s.row (new_row default_config) in
    save_row now r.config.enabled (is_some s.row) (record r { config = assign r.config input }) s

-- A file's numbers: `none` is a value that is absent or no natural number.
abbrev pub clamp : Option ℕ → ℕ → ℕ → ℕ → ℕ
clamp none lo hi dflt = dflt
clamp (some v) lo hi dflt = if leb lo v && leb v hi then v else dflt

pub record RawConfig : Type 0 where
  pub enabled : Bool
  pub path : Option Text
  pub interval_minutes : Option ℕ
  pub timeout_seconds : Option ℕ
  pub expected_codes : Option Text
  pub failure_threshold : Option ℕ
  pub use_internal : Bool

unfoldable pub import_path : (Text → Option Text) → Option Text → Text
import_path decode none = default_config.path
import_path decode (some p) = elim (validate_monitor_path decode p) [
  | none ↦ p
  | some e ↦ default_config.path
]

unfoldable pub import_codes : Option Text → Text
import_codes none = default_config.expected_codes
import_codes (some spec) = elim (parse_expected_codes spec) [
  | none ↦ default_config.expected_codes
  | some r ↦ spec
]

-- The settings that `importConfig` hands to `saveConfig`. The warnings are left out.
unfoldable pub imported : (Text → Option Text) → RawConfig → Input
unfolding import_path import_codes
imported decode raw = record {
  enabled = some raw.enabled;
  path = some (import_path decode raw.path);
  interval_minutes = some (clamp raw.interval_minutes 1 60 default_config.interval_minutes);
  timeout_seconds = some (clamp raw.timeout_seconds 1 30 default_config.timeout_seconds);
  expected_codes = some (import_codes raw.expected_codes);
  failure_threshold = some (clamp raw.failure_threshold 1 10 default_config.failure_threshold);
  use_internal = some raw.use_internal;
}

unfoldable pub import_config : (Text → Option Text) → ℕ → RawConfig → Store → Store
unfolding imported save_config
import_config decode now raw s = save_config now (imported decode raw) s
