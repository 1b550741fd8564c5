-- ===== src/Monitor/Settings.antt =====
-- Saving the settings against the incidents (`saveConfig` of
-- src/modules/http-monitor/http-monitor.service.ts).
use aoox_api.Prelude.{
  ℕ, ◌≡◌, refl, true, false, none, some, List, arith, inl, inr, Bool-cases, Option-cases,
}
use aoox_api.Monitor.{unknown, is_down}
use aoox_api.Monitor.Rows.{Config, Row, HttpCheck, Incident, Store, new_row, open_count}
use aoox_api.Monitor.Config.{Input, save_row, save_config, assign, default_config}
use aoox_api.Monitor.Invariant.{
  all_failed, all_failed, all_failed, IsConsistentRow, IsConsistent, reset_state-IsConsistent,
  IsConsistent-row, IsConsistent-none,
}

pub fresh-IsConsistentRow :
    (r : Row) (checks : List HttpCheck) (is_ : List Incident)
    → open_count is_ ≡ 0
    → r.state ≡ record { status = unknown; consecutive_failures = 0 }
    → IsConsistentRow r checks is_
unfolding all_failed
fresh-IsConsistentRow r checks is_ closed new = record {
  counted = rw new closed;
  alive = λ h. absurd (cc);
  announced = λ h. absurd (cc);
  failed = rw new;
}

-- A row that starts over in a store with no open incident.
pub start_over-IsConsistent :
    (r : Row) (s : Store)
    → open_count s.incidents ≡ 0
    → r.state ≡ record { status = unknown; consecutive_failures = 0 }
    → IsConsistent (record s { row = some r })
unfolding IsConsistent
start_over-IsConsistent r s closed new = fresh-IsConsistentRow r s.checks s.incidents closed new

-- A change of the settings alone.
pub reconfigure-IsConsistent :
    (r : Row) (config : Config) (s : Store)
    → config.enabled ≡ true
    → IsConsistentRow r s.checks s.incidents
    → IsConsistent (record s { row = some (record r { config = config }) })
unfolding IsConsistent
reconfigure-IsConsistent r config s on inv = record {
  counted = inv.counted;
  alive = λ h. on;
  announced = inv.announced;
  failed = inv.failed;
}

pub disabled-open_count :
    (r : Row) (checks : List HttpCheck) (is_ : List Incident)
    → IsConsistentRow r checks is_
    → r.config.enabled ≡ false
    → open_count is_ ≡ 0
disabled-open_count r checks is_ inv off =
    let counted = inv.counted in
    elim (Bool-cases (is_down r.state.status)) [
      | inl was ↦ absurd (cc (inv.alive was))
      | inr calm ↦ ground (arith, calm)
    ]

pub save_row-IsConsistent :
    (now : ℕ) (r : Row) (config : Config) (s : Store)
    → IsConsistentRow r s.checks s.incidents
    → IsConsistent (save_row now r.config.enabled true (record r { config = config }) s)
unfolding save_row
save_row-IsConsistent now r config s inv = elim (Bool-cases config.enabled) [
  | inr off ↦ elim (Bool-cases r.config.enabled) [
    | inl was ↦ simp (off, was) (reset_state-IsConsistent now (record r { config = config }) s)
    | inr was_off ↦
        simp (off, was_off) (reset_state-IsConsistent now (record r { config = config }) s)
  ]
  | inl on ↦ elim (Bool-cases r.config.enabled) [
    | inl was ↦ simp (on, was) (reconfigure-IsConsistent r config s on inv)
    | inr was_off ↦
        simp (on, was_off)
          (start_over-IsConsistent _ s (disabled-open_count r s.checks s.incidents inv was_off)
            refl)
  ]
]

pub save_new-IsConsistent :
    (now : ℕ) (r : Row) (s : Store)
    → open_count s.incidents ≡ 0
    → r.state ≡ record { status = unknown; consecutive_failures = 0 }
    → IsConsistent (save_row now false false r s)
unfolding save_row
save_new-IsConsistent now r s closed new = elim (Bool-cases r.config.enabled) [
  | inr off ↦ simp off (start_over-IsConsistent r s closed new)
  | inl on ↦ simp on (start_over-IsConsistent _ s closed refl)
]

pub save_config-none :
    (now : ℕ) (input : Input) (s : Store)
    → s.row ≡ none
    → save_config now input s
      ≡ save_row now false false
          (record (new_row default_config) { config = assign default_config input })
          s
unfolding save_config
save_config-none now input s held = rw held

pub save_config-some :
    (now : ℕ) (input : Input) (r : Row) (s : Store)
    → s.row ≡ some r
    → save_config now input s
      ≡ save_row now r.config.enabled true (record r { config = assign r.config input }) s
unfolding save_config
save_config-some now input r s held = rw held

pub save_config-IsConsistent :
    (now : ℕ) (input : Input) (s : Store) → IsConsistent s → IsConsistent (save_config now input s)
save_config-IsConsistent now input s inv = elim (Option-cases s.row) [
  | inr (r, held) ↦
      rw (save_config-some now input r s held)
        (save_row-IsConsistent now r (assign r.config input) s (IsConsistent-row r s held inv))
  | inl held ↦
      rw (save_config-none now input s held)
        (save_new-IsConsistent now _ s (IsConsistent-none s held inv) refl)
]
