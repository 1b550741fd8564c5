-- ===== src/Monitor/Tests.antt =====
-- Runs of the alerting rule, and its theorems at concrete histories.
use aoox_api.Prelude.{◌≤◌, ◌≡◌, refl, ◌↔◌, Bool, true, false, List, [], ◌∷◌, arith}
use aoox_api.Monitor.{down, went_down, recovered, next_state, is_down}
use aoox_api.Monitor.Streak.{
  run, events, fresh, failing, Alternates, run-down_iff, events-Alternates,
}

abbrev history : List Bool
history = true ∷ false ∷ false ∷ false ∷ true ∷ false ∷ false ∷ []

events-history : events 2 fresh history ≡ went_down ∷ recovered ∷ went_down ∷ []
unfolding events next_state fresh
events-history = refl

run-down_iff_example : ((run 2 fresh history).status ≡ down) ↔ (2 ≤ failing 0 history)
run-down_iff_example = run-down_iff 2 history (omega arith)

events-Alternates_example :
    Alternates
      (is_down down)
      (events 2 (record { status = down; consecutive_failures = 4 }) history)
events-Alternates_example =
    events-Alternates 2 (record { status = down; consecutive_failures = 4 }) history
