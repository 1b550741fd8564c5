-- ===== src/Monitor/ServiceTests.antt =====
-- The monitor service at concrete rows, and its theorems there.
use aoox_api.Prelude.{
  ℕ, ◌≡◌, refl, subst, true, false, none, some, List, [], ◌∷◌, split_on, trim, is_space, codes,
}
use aoox_api.Monitor.{went_down, next_state}
use aoox_api.Monitor.Rows.{Row, Store, new_row, open_count}
use aoox_api.Monitor.Probe.{parse_expected_codes}
use aoox_api.Monitor.Config.{Input, RawConfig, save_config, assign, imported, default_config}
use aoox_api.Monitor.Check.{ProbeResult, url, check, is_ok}
use aoox_api.Monitor.Invariant.{IsConsistent, all_failed}
use aoox_api.Monitor.Incidents.{Reach, here, next, save, checked, Reach-IsConsistent}
use aoox_api.Monitor.Imports.{IsSane, imported-IsSane}

abbrev nothing : Store
nothing = record { row = none; checks = []; incidents = []; sent = [] }

abbrev leave_alone : Input
leave_alone = record {
  enabled = none;
  path = none;
  interval_minutes = none;
  timeout_seconds = none;
  expected_codes = none;
  failure_threshold = none;
  use_internal = none;
}

abbrev turn_on : Input
turn_on = record leave_alone { enabled = some true; failure_threshold = some 1 }

abbrev refused : ProbeResult
refused = record { status_code = none; latency_ms = 12; error = some (codes "ECONNREFUSED") }

abbrev on_row : Row
on_row = new_row (record default_config { enabled = true; failure_threshold = 1 })

abbrev on_store : Store
on_store = record nothing { row = some on_row }

-- The status of a store's monitor is down after a failed check, with one incident.
abbrev down_store : Store
down_store = (check 60000 false (url (codes "http://shop/")) refused on_row on_store).0

nothing-IsConsistent : IsConsistent nothing
unfolding IsConsistent
nothing-IsConsistent = refl

turned_on : save_config 0 turn_on nothing ≡ on_store
unfolding save_config
turned_on = refl

Reach-down : Reach nothing down_store
Reach-down =
    next (subst (Reach nothing) turned_on (next here (save 0 turn_on nothing)))
      (checked 60000 false (url (codes "http://shop/")) refused on_row on_store refl refl)

Reach-IsConsistent_example : IsConsistent down_store
Reach-IsConsistent_example = Reach-IsConsistent nothing-IsConsistent Reach-down

open_count-down : open_count down_store.incidents ≡ 1
unfolding check next_state
open_count-down = refl

event-refused :
    (next_state on_row.state
      (is_ok refused on_row.config.expected_codes)
      on_row.config.failure_threshold).event
    ≡ some went_down
unfolding next_state
event-refused = refl

all_failed-on_store : all_failed 0 on_store.checks ≡ true
unfolding all_failed
all_failed-on_store = refl

abbrev wild : RawConfig
wild = record {
  enabled = true;
  path = some (codes "//elsewhere");
  interval_minutes = some 0;
  timeout_seconds = none;
  expected_codes = some (codes "ok");
  failure_threshold = some 99;
  use_internal = false;
}

imported-IsSane_example : IsSane some (assign default_config (imported some wild))
imported-IsSane_example = imported-IsSane some wild default_config refl

abbrev sample : List (ℕ × ℕ)
sample = (200, 200) ∷ (301, 302) ∷ []

parse_expected_codes-sample : parse_expected_codes (codes "200, 301-302") ≡ some sample
unfolding parse_expected_codes split_on trim is_space
parse_expected_codes-sample = refl
