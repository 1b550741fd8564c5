-- ===== src/Monitor/Streak.antt =====
-- What the alerting rule does over a whole history of checks, from the oldest to the newest.
use aoox_api.Prelude.{
  ℕ, ◌+◌, ◌≤◌, ◌≡◌, refl, ap, ◌∙◌, ◌↔◌, Bool, true, false, Option, none, some, List, [], ◌∷◌, arith,
}
use aoox_api.Monitor.{unknown, down, MonitorState, Event, went_down, recovered, is_down, next_state}

abbrev note : Option Event → List Event → List Event
note none events = events
note (some e) events = e ∷ events

-- The state after a history, and the alerts on the way.
unfoldable pub run : ℕ → MonitorState → List Bool → MonitorState
run threshold s [] = s
run threshold s (ok ∷ checks) = run threshold (next_state s ok threshold).state checks

unfoldable pub events : ℕ → MonitorState → List Bool → List Event
events threshold s [] = []
events threshold s (ok ∷ checks) =
    let t = next_state s ok threshold in note t.event (events threshold t.state checks)

unfoldable pub fresh : MonitorState
fresh = record { status = unknown; consecutive_failures = 0 }

-- The number of failed checks since the last healthy one, `n` of them before the history.
abbrev pub failing : ℕ → List Bool → ℕ
failing n [] = n
failing n (true ∷ checks) = failing 0 checks
failing n (false ∷ checks) = failing (n + 1) checks

record IsStreak (threshold : ℕ) (s : MonitorState) : Type 0 where
  to : s.status ≡ down → threshold ≤ s.consecutive_failures
  from : threshold ≤ s.consecutive_failures → s.status ≡ down

next_state-IsStreak :
    (threshold : ℕ) (s : MonitorState) (ok : Bool)
    → 1 ≤ threshold
    → IsStreak threshold s
    → IsStreak threshold (next_state s ok threshold).state
unfolding next_state
next_state-IsStreak threshold s true pos inv = ground arith
next_state-IsStreak threshold s false pos inv = ground arith

run-IsStreak :
    (threshold : ℕ) (s : MonitorState) (checks : List Bool)
    → 1 ≤ threshold
    → IsStreak threshold s
    → IsStreak threshold (run threshold s checks)
unfolding run
run-IsStreak threshold s [] pos inv = inv
run-IsStreak threshold s (ok ∷ checks) pos inv =
    run-IsStreak threshold (next_state s ok threshold).state checks pos
      (next_state-IsStreak threshold s ok pos inv)

next_state-failures :
    (threshold : ℕ) (s : MonitorState)
    → (next_state s false threshold).state.consecutive_failures ≡ s.consecutive_failures + 1
unfolding next_state
next_state-failures threshold s = ground arith

next_state-resets :
    (threshold : ℕ) (s : MonitorState)
    → (next_state s true threshold).state.consecutive_failures ≡ 0
unfolding next_state
next_state-resets threshold s = refl

run-failing :
    (threshold : ℕ) (s : MonitorState) (checks : List Bool)
    → (run threshold s checks).consecutive_failures ≡ failing s.consecutive_failures checks
unfolding run
run-failing threshold s [] = refl
run-failing threshold s (true ∷ checks) =
    run-failing threshold (next_state s true threshold).state checks
    ∙ ap (λ n. failing n checks) (next_state-resets threshold s)
run-failing threshold s (false ∷ checks) =
    run-failing threshold (next_state s false threshold).state checks
    ∙ ap (λ n. failing n checks) (next_state-failures threshold s)

-- A monitor that was never checked is down after a history of checks exactly when at least
-- `threshold` checks have failed since the last healthy one, for every positive threshold.
pub run-down_iff :
    (threshold : ℕ) (checks : List Bool)
    → 1 ≤ threshold
    → ((run threshold fresh checks).status ≡ down) ↔ (threshold ≤ failing 0 checks)
unfolding fresh
run-down_iff threshold checks pos =
    let inv = run-IsStreak threshold fresh checks pos (ground arith) in
    let counted = run-failing threshold fresh checks in
    (λ e. omega (arith, inv.to e, counted), λ h. inv.from (omega (arith, counted)))

-- Each alert `went_down` is followed by `recovered` before the next one, and no `recovered` comes
-- without a `went_down` before it.
abbrev pub Alternates : Bool → List Event → Type 0
Alternates d [] = Unit
Alternates false (went_down ∷ es) = Alternates true es
Alternates true (recovered ∷ es) = Alternates false es
Alternates _ _ = ⊥

note-Alternates :
    (threshold : ℕ) (s : MonitorState) (ok : Bool) (es : List Event)
    → Alternates (is_down (next_state s ok threshold).state.status) es
    → Alternates (is_down s.status) (note (next_state s ok threshold).event es)
unfolding next_state
note-Alternates threshold s true es h = ground arith
note-Alternates threshold s false es h = ground arith

-- Whatever the state, the threshold and the history of checks, the alerts alternate: an outage is
-- announced once, and once more when it ends. A monitor that is down starts with `recovered`.
pub events-Alternates :
    (threshold : ℕ) (s : MonitorState) (checks : List Bool)
    → Alternates (is_down s.status) (events threshold s checks)
unfolding events
events-Alternates threshold s [] = tt
events-Alternates threshold s (ok ∷ checks) =
    note-Alternates threshold s ok (events threshold (next_state s ok threshold).state checks)
      (events-Alternates threshold (next_state s ok threshold).state checks)
