-- ===== src/Monitor/Invariant.antt =====
-- What the rows of a monitor keep, whatever the service does
-- (src/modules/http-monitor/http-monitor.service.ts).
use aoox_api.Prelude.{
  ℕ, zero, suc, ◌+◌, ◌-◌, ◌≡◌, refl, Bool, true, false, not, ◌&&◌, none, some, List, [], ◌∷◌, arith,
  map, is_some, if◌then◌else◌,
}
use aoox_api.Monitor.{is_down}
use aoox_api.Monitor.Rows.{Row, HttpCheck, Incident, Store, open_count, is_open, close_incident}
use aoox_api.Monitor.Config.{reset_state}
use aoox_api.Monitor.Check.{close_newest}

-- The newest `n` checks are there and failed.
unfoldable pub all_failed : ℕ → List HttpCheck → Bool
all_failed zero checks = true
all_failed (suc n) [] = false
all_failed (suc n) (c ∷ checks) = not c.ok && all_failed n checks

-- A monitor that is down is enabled, has been announced and has one open incident; any other has none.
-- Its failures in a row are its newest checks.
pub record IsConsistentRow (r : Row) (checks : List HttpCheck) (incidents : List Incident)
    : Type 0 where
  pub counted : open_count incidents ≡ (if is_down r.state.status then 1 else 0)
  pub alive : is_down r.state.status ≡ true → r.config.enabled ≡ true
  pub announced : is_down r.state.status ≡ true → is_some r.last_alert_at ≡ true
  pub failed : all_failed r.state.consecutive_failures checks ≡ true

unfoldable pub IsConsistent : Store → Type 0
IsConsistent s = elim s.row [
  | none ↦ open_count s.incidents ≡ 0
  | some r ↦ IsConsistentRow r s.checks s.incidents
]

pub open_count-map_close :
    (now : ℕ) (is_ : List Incident)
    → open_count (map (λ i. if is_open i then close_incident now i else i) is_) ≡ 0
open_count-map_close now [] = refl
open_count-map_close now (i ∷ is_) = ground (arith, open_count-map_close now is_)

pub open_count-close_newest :
    (now : ℕ) (is_ : List Incident) → open_count (close_newest now is_) ≡ open_count is_ - 1
unfolding close_newest
open_count-close_newest now [] = omega arith
open_count-close_newest now (i ∷ is_) = ground (arith, open_count-close_newest now is_)

pub all_failed-suc :
    (n : ℕ) (c : HttpCheck) (checks : List HttpCheck)
    → all_failed (n + 1) (c ∷ checks) ≡ not c.ok && all_failed n checks
unfolding all_failed
all_failed-suc n c checks = let e : n + 1 ≡ suc n = omega arith in rw e

pub reset_state-IsConsistent : (now : ℕ) (r : Row) (s : Store) → IsConsistent (reset_state now r s)
unfolding reset_state IsConsistent all_failed
reset_state-IsConsistent now r s = record {
  counted = open_count-map_close now s.incidents;
  alive = λ h. absurd (cc);
  announced = λ h. absurd (cc);
  failed = refl;
}

pub IsConsistent-row :
    (r : Row) (s : Store) → s.row ≡ some r → IsConsistent s → IsConsistentRow r s.checks s.incidents
unfolding IsConsistent
IsConsistent-row r s held inv = rw held at inv

pub IsConsistent-none : (s : Store) → s.row ≡ none → IsConsistent s → open_count s.incidents ≡ 0
unfolding IsConsistent
IsConsistent-none s held inv = rw held at inv
