-- ===== src/Alert/Tests.antt =====
-- Resource alerts at concrete readings.
use aoox_api.Prelude.{ℕ, ◌+◌, ◌≤◌, ◌≡◌, ◌↔◌, true, false, none, some, List, [], ◌∷◌, arith}
use aoox_api.Alert.{
  MinuteReading, Evaluation, memory, evaluate_breach, in_window, required_of, pending, alerting,
  alert, reminder, recovered, or_zero, reminder_ms,
}
use aoox_api.Alert.Breach.{IsBreach, evaluate_breach_iff}
use aoox_api.Alert.Machine.{
  History, action_at, status_of, last_message, action_at-alert_iff, action_at-reminder_iff,
}

abbrev reading : ℕ → ℕ → MinuteReading
reading at used = record {
  at = at;
  cpu_percent = none;
  memory_bytes = used;
  memory_limit_bytes = 1000;
}

-- Three minutes, the second reading late.
abbrev readings : List MinuteReading
readings = reading 1180000 950 ∷ reading 1060000 990 ∷ reading 1120000 940 ∷ []

evaluate_breach_iff_example :
    (ev : Evaluation) × (evaluate_breach memory readings 90 3 1200000 none ≡ some ev
      × (ev.breaching ≡ true
          ↔ IsBreach memory (in_window readings 3 1200000 none) 90 (required_of 3) 1200000))
evaluate_breach_iff_example = evaluate_breach_iff memory readings 90 3 1200000 none (omega arith)

abbrev history : History
history = (true, 120000) ∷ (true, 60000) ∷ (false, 0) ∷ []

action_at-alert_iff_example :
    ((action_at reminder_ms true 60000 ((true, 0) ∷ []) ≡ some alert)
      ↔ (true ≡ true × status_of ((true, 0) ∷ []) ≡ pending))
    × ((action_at reminder_ms true 60000 ((true, 0) ∷ []) ≡ some recovered)
        ↔ (true ≡ false × status_of ((true, 0) ∷ []) ≡ alerting))
action_at-alert_iff_example = action_at-alert_iff reminder_ms true 60000 ((true, 0) ∷ [])

action_at-reminder_iff_example : (action_at reminder_ms true 21720000 history ≡ some reminder) ↔ (
    true ≡ true
    × status_of history ≡ alerting
    × or_zero (last_message reminder_ms history) + reminder_ms ≤ 21720000)
action_at-reminder_iff_example = action_at-reminder_iff reminder_ms true 21720000 history
