-- ===== src/Alert/Machine.antt =====
-- The state machine of a rule, over all the evaluations of its life.
use aoox_api.Prelude.{
  ℕ, ◌+◌, ◌≤◌, ◌≡◌, ◌↔◌, refl, Bool, true, false, Option, none, some, List, [], ◌∷◌, arith,
}
use aoox_api.Alert.{
  AlertStatus, calm, pending, alerting, AlertState, AlertAction, alert, reminder, recovered,
  next_alert_state, or_zero,
}

-- Evaluations, the newest first, each with its time.
abbrev pub History : Type 0
History = List (Bool × ℕ)

abbrev pub fresh : AlertState
fresh = record { status = calm; status_since = none; last_alert_at = none }

unfoldable pub after : ℕ → History → AlertState
after every_ms [] = fresh
after every_ms ((b, now) ∷ h) = (next_alert_state (after every_ms h) b now every_ms).0

pub action_at : ℕ → Bool → ℕ → History → Option AlertAction
action_at every_ms b now h = (next_alert_state (after every_ms h) b now every_ms).1

-- What the status says of the history: whether the newest evaluation, or the newest two, are breaches.
pub status_of : History → AlertStatus
status_of [] = calm
status_of ((false, t) ∷ h) = calm
status_of ((true, t) ∷ []) = pending
status_of ((true, t) ∷ (false, t') ∷ h) = pending
status_of ((true, t) ∷ (true, t') ∷ h) = alerting

-- The time of the newest alert or reminder.
pub last_message : ℕ → History → Option ℕ
last_message every_ms [] = none
last_message every_ms ((b, now) ∷ h) = elim (action_at every_ms b now h) [
  | some alert ↦ some now
  | some reminder ↦ some now
  | _ ↦ last_message every_ms h
]

pub after-status_of : (every_ms : ℕ) (h : History) → (after every_ms h).status ≡ status_of h
unfolding after status_of next_alert_state
after-status_of every_ms [] = refl
after-status_of every_ms ((false, t) ∷ h) = ground (arith, after-status_of every_ms h)
after-status_of every_ms ((true, t) ∷ []) = refl
after-status_of every_ms ((true, t) ∷ (false, t') ∷ h) = ground (arith, after-status_of every_ms h)
after-status_of every_ms ((true, t) ∷ (true, t') ∷ h) =
    let ih = after-status_of every_ms ((true, t') ∷ h) in ground (arith, after-status_of every_ms h)

-- The alert goes out at the second breach in a row, the recovery at the first reading after an alert
-- that is none.
pub action_at-alert_iff :
    (every_ms : ℕ) (b : Bool) (now : ℕ) (h : History)
    → ((action_at every_ms b now h ≡ some alert) ↔ (b ≡ true × status_of h ≡ pending))
      × ((action_at every_ms b now h ≡ some recovered) ↔ (b ≡ false × status_of h ≡ alerting))
unfolding action_at next_alert_state
action_at-alert_iff every_ms true now h =
    let same = after-status_of every_ms h in
    (
      (λ e. ground (arith, same), λ e. ground (arith, same, e.1)),
      (λ e. ground (arith), λ e. absurd (cc)),
    )
action_at-alert_iff every_ms false now h =
    let same = after-status_of every_ms h in
    (
      (λ e. ground (arith), λ e. absurd (cc)),
      (λ e. ground (arith, same), λ e. ground (arith, same, e.1)),
    )

-- While a rule is alerting, the state has the time of the newest message, and else none.
after-last_message :
    (every_ms : ℕ) (h : History)
    → (after every_ms h).last_alert_at
      ≡ (elim (after every_ms h).status [ alerting ↦ last_message every_ms h | _ ↦ none ])
unfolding after last_message action_at next_alert_state
after-last_message every_ms [] = refl
after-last_message every_ms ((false, t) ∷ h) = ground (arith, after-last_message every_ms h)
after-last_message every_ms ((true, t) ∷ h) = ground (arith, after-last_message every_ms h)

-- A reminder goes out with a breach that lasts, `every_ms` or more after the newest message.
pub action_at-reminder_iff :
    (every_ms : ℕ) (b : Bool) (now : ℕ) (h : History)
    → (action_at every_ms b now h ≡ some reminder)
      ↔ (b ≡ true × status_of h ≡ alerting × or_zero (last_message every_ms h) + every_ms ≤ now)
unfolding action_at next_alert_state
action_at-reminder_iff every_ms false now h = (λ e. ground (arith), λ e. absurd (cc))
action_at-reminder_iff every_ms true now h =
    let same = after-status_of every_ms h in
    let at = after-last_message every_ms h in
    (
      λ e. (refl, ground (arith, same, at), ground (arith, same, at)),
      λ e. ground (arith, same, at, e.1, e.2),
    )
