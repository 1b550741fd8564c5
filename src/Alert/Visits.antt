-- ===== src/Alert/Visits.antt =====
-- The messages of a visit (`evaluateAll` of src/modules/resource-alert/resource-alert.service.ts).
use aoox_api.Prelude.{
  ℕ, ◌≤◌, ◌≡◌, ◌↔◌, refl, sym, ◌∙◌, ap, Bool, true, false, not, ◌&&◌, Option, none, some, arith,
}
use aoox_api.Alert.{
  AlertMetric, pending, alerting, AlertAction, alert, recovered, Evaluation, evaluate_breach,
  in_window, required_of, next_alert_state,
}
use aoox_api.Alert.Breach.{IsBreach, evaluate_breach_iff}
use aoox_api.Alert.Service.{
  Rule, Circumstances, Visit, judged, judge_or_leave, visit_rule, not_before,
}

-- The owner is there and runs, no deployment of it is under way, and the row can be saved.
pub is_watched : Circumstances → Bool
is_watched c = c.has_owner && c.is_running && not (c.is_application && c.is_deploying) && c.can_save

evaluation : ℕ → AlertMetric → Circumstances → Rule → Option Evaluation
evaluation now metric c r =
    evaluate_breach metric c.readings r.config.threshold_percent r.config.duration_minutes now
      (not_before c)

-- The newest minutes of the owner are a breach of the rule.
pub Breaches : ℕ → AlertMetric → Circumstances → Rule → Type 0
Breaches now metric c r =
    IsBreach metric (in_window c.readings r.config.duration_minutes now (not_before c))
      r.config.threshold_percent (required_of r.config.duration_minutes) now

abbrev message_if : Bool → Visit → Option AlertAction
message_if true v = v.message
message_if false v = none

visit_rule-message :
    (now : ℕ) (metric : AlertMetric) (c : Circumstances) (r : Rule) (ev : Evaluation)
    → evaluation now metric c r ≡ some ev
    → (visit_rule now metric c r).message ≡ message_if (is_watched c) (judged now r ev)
unfolding visit_rule evaluation is_watched
visit_rule-message now metric c r ev e =
    let there = ap (judge_or_leave now c.can_save r) e in ground (arith, there)

judged-alert_iff :
    (now : ℕ) (r : Rule) (ev : Evaluation)
    → ((judged now r ev).message ≡ some alert) ↔ (ev.breaching ≡ true × r.state.status ≡ pending)
unfolding judged next_alert_state
judged-alert_iff now r ev =
    (λ e. (ground (arith, e), ground (arith, e)), λ h. ground (arith, h.0, h.1))

judged-recovered_iff :
    (now : ℕ) (r : Rule) (ev : Evaluation)
    → ((judged now r ev).message ≡ some recovered)
      ↔ (ev.breaching ≡ false × r.state.status ≡ alerting)
unfolding judged next_alert_state
judged-recovered_iff now r ev =
    (λ e. (ground (arith, e), ground (arith, e)), λ h. ground (arith, h.0, h.1))

message_if_iff :
    (b : Bool) (v : Visit) (a : AlertAction)
    → (message_if b v ≡ some a) ↔ (b ≡ true × v.message ≡ some a)
message_if_iff true v a = (λ e. (refl, e), λ h. h.1)
message_if_iff false v a = (λ e. absurd (cc), λ h. absurd (cc))

unbroken : (b : Bool) → ¬ (b ≡ true) → b ≡ false
unbroken true h = absurd (h refl)
unbroken false h = refl

-- A visit sends an alert exactly if the owner runs without a deployment, the row was saved, the rule is
-- pending and its newest minutes, in any order, are a breach; it says that the rule has recovered
-- exactly if, in such a visit, the rule is alerting and they are none. The duration is a minute or more.
pub visit_rule-message_iff :
    (now : ℕ) (metric : AlertMetric) (c : Circumstances) (r : Rule)
    → 1 ≤ r.config.duration_minutes
    → (((visit_rule now metric c r).message ≡ some alert)
        ↔ (is_watched c ≡ true × r.state.status ≡ pending × Breaches now metric c r))
      × (((visit_rule now metric c r).message ≡ some recovered)
          ↔ (is_watched c ≡ true × r.state.status ≡ alerting × ¬ Breaches now metric c r))
unfolding evaluation Breaches
visit_rule-message_iff now metric c r minute =
    let (ev, (e, breach)) =
      evaluate_breach_iff metric c.readings r.config.threshold_percent r.config.duration_minutes now
        (not_before c) minute in
    let told = visit_rule-message now metric c r ev e in
    let v = judged now r ev in
    let an_alert = judged-alert_iff now r ev in
    let a_recovery = judged-recovered_iff now r ev in
    let sends = message_if_iff (is_watched c) v in
    (
      (
        λ m.
            let (w, x) = (sends alert).0 (sym told ∙ m) in
            let (b, p) = an_alert.0 x in (w, p, breach.0 b),
        λ h. told ∙ (sends alert).1 (h.0, an_alert.1 (breach.1 h.2, h.1)),
      ),
      (
        λ m.
            let (w, x) = (sends recovered).0 (sym told ∙ m) in
            let (b, p) = a_recovery.0 x in (w, p, λ is. (let t = breach.1 is in absurd (cc))),
        λ h.
            told
            ∙ (sends recovered).1
                (h.0, a_recovery.1 (unbroken ev.breaching (λ t. h.2 (breach.0 t)), h.1)),
      ),
    )
