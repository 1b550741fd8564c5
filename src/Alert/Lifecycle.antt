-- ===== src/Alert/Lifecycle.antt =====
-- The rows of rules over their whole life.
use aoox_api.Prelude.{
  ℕ, ◌≡◌, refl, subst, Bool, true, false, Option, none, some, is_some, some-injective, arith,
  Bool-cases, inl, inr, ◌||◌,
}
use aoox_api.Alert.{
  AlertMetric, cpu, memory, AlertStatus, alerting, AlertState, Evaluation, evaluate_breach,
  next_alert_state, reminder_ms,
}
use aoox_api.Alert.Service.{
  Rule, RuleConfig, RuleInput, Rules, Circumstances, Visit, saved, save_existing, save_rule,
  rule_for, is_pending, store, is_changed, assign, default_rule, put_rule, reset_state, new_rule,
  drop_pending, judged, judge_or_leave, visit_rule, is_calm, leave, not_before,
}

is_alerting : AlertStatus → Bool
is_alerting alerting = true
is_alerting _ = false

-- The times that the messages of a state need.
IsSound : AlertState → Type 0
IsSound s =
    is_some s.last_alert_at ≡ is_alerting s.status
    × (is_calm s.status || is_some s.status_since) ≡ true

-- A rule that is not calm is enabled.
pub IsConsistent : Rule → Type 0
IsConsistent r = IsSound r.state × (is_calm r.state.status || r.config.enabled) ≡ true

next_alert_state-IsSound :
    (s : AlertState) (b : Bool) (now every_ms : ℕ)
    → IsSound s
    → IsSound (next_alert_state s b now every_ms).0
unfolding IsSound next_alert_state is_alerting
next_alert_state-IsSound s true now every_ms h = ground (arith, h.0, h.1)
next_alert_state-IsSound s false now every_ms h = ground (arith, h.0, h.1)

-- A state that is dropped is that of a new row.
new_rule-IsConsistent : (c : RuleConfig) → IsConsistent (new_rule c)
unfolding IsConsistent IsSound is_alerting
new_rule-IsConsistent c = ((refl, refl), refl)

drop_pending-IsConsistent :
    (r : Rule) → is_pending r.state.status ≡ true → IsConsistent r → IsConsistent (drop_pending r)
unfolding IsConsistent IsSound is_alerting
drop_pending-IsConsistent r waits h = ((ground (arith, h.0.0, waits), refl), refl)

judged-IsConsistent :
    (now : ℕ) (r : Rule) (ev : Evaluation)
    → r.config.enabled ≡ true
    → IsConsistent r
    → IsConsistent (judged now r ev).rule
unfolding IsConsistent judged
judged-IsConsistent now r ev on h =
    (next_alert_state-IsSound r.state ev.breaching now reminder_ms h.0, ground (arith, on))

store-IsConsistent :
    (can_save : Bool) (r : Rule) (v : Visit)
    → IsConsistent r
    → IsConsistent v.rule
    → IsConsistent (store can_save r v).rule
store-IsConsistent true r v h h' = h'
store-IsConsistent false r v h h' = h

judge_or_leave-IsConsistent :
    (now : ℕ) (can_save : Bool) (r : Rule) (ev : Option Evaluation)
    → r.config.enabled ≡ true
    → IsConsistent r
    → IsConsistent (judge_or_leave now can_save r ev).rule
judge_or_leave-IsConsistent now can_save r none on h = h
judge_or_leave-IsConsistent now can_save r (some ev) on h =
    store-IsConsistent can_save r (judged now r ev) h (judged-IsConsistent now r ev on h)

visit_rule-IsConsistent :
    (now : ℕ) (metric : AlertMetric) (c : Circumstances) (r : Rule)
    → r.config.enabled ≡ true
    → IsConsistent r
    → IsConsistent (visit_rule now metric c r).rule
unfolding visit_rule reset_state
visit_rule-IsConsistent now metric c r on h =
    let ev =
      evaluate_breach metric c.readings r.config.threshold_percent r.config.duration_minutes now
        (not_before c) in
    let judged_well = judge_or_leave-IsConsistent now c.can_save r ev on h in
    let reset_well =
      store-IsConsistent c.can_save r (leave (new_rule r.config)) h
        (new_rule-IsConsistent r.config) in
    elim (Bool-cases (is_pending r.state.status)) [
      | inl waits ↦
          let dropped_well =
            store-IsConsistent c.can_save r (leave (drop_pending r)) h
              (drop_pending-IsConsistent r waits h) in
          ground (arith, judged_well, reset_well, dropped_well)
      | inr other ↦ ground (arith, judged_well, reset_well)
    ]

save_existing-IsConsistent :
    (next : RuleConfig) (r : Rule) → IsConsistent r → IsConsistent (save_existing next r)
unfolding save_existing reset_state IsConsistent
save_existing-IsConsistent next r h =
    let fresh = new_rule-IsConsistent next in
    elim (Bool-cases (is_changed r.config next)) [
      | inl differs ↦ simp differs fresh
      | inr same ↦ simp same (h.0, ground (arith, h.1, same))
    ]

saved-IsConsistent :
    (input : RuleInput) (o : Option Rule)
    → ((r : Rule) → o ≡ some r → IsConsistent r)
    → IsConsistent (saved input o)
saved-IsConsistent input none h = new_rule-IsConsistent (assign default_rule input)
saved-IsConsistent input (some r) h =
    save_existing-IsConsistent (assign r.config input) r (h r refl)

-- The rows of an owner, each consistent.
AllConsistent : Rules → Type 0
AllConsistent rules =
    (metric : AlertMetric) (r : Rule) → rule_for metric rules ≡ some r → IsConsistent r

put_rule-AllConsistent :
    (metric : AlertMetric) (r : Rule) (rules : Rules)
    → IsConsistent r
    → AllConsistent rules
    → AllConsistent (put_rule metric r rules)
unfolding AllConsistent
put_rule-AllConsistent cpu r rules h all cpu r' e = subst IsConsistent (some-injective _ _ e) h
put_rule-AllConsistent cpu r rules h all memory r' e = all memory r' e
put_rule-AllConsistent memory r rules h all cpu r' e = all cpu r' e
put_rule-AllConsistent memory r rules h all memory r' e =
    subst IsConsistent (some-injective _ _ e) h

abbrev pub no_rules : Rules
no_rules = record { cpu_rule = none; memory_rule = none }

-- What happens to the rows of an owner: settings are saved, and enabled rules are visited.
pub data Life : Rules → Type 0 where
  nothing : Life no_rules
  saves :
      {s s' : Rules} (metric : AlertMetric) (input : RuleInput)
      → Life s
      → save_rule metric input s ≡ some s'
      → Life s'
  visits :
      {s : Rules} (now : ℕ) (metric : AlertMetric) (c : Circumstances) (r : Rule)
      → Life s
      → rule_for metric s ≡ some r
      → r.config.enabled ≡ true
      → Life (put_rule metric (visit_rule now metric c r).rule s)

save_rule-AllConsistent :
    (metric : AlertMetric) (input : RuleInput) (s s' : Rules)
    → AllConsistent s
    → save_rule metric input s ≡ some s'
    → AllConsistent s'
unfolding save_rule AllConsistent
save_rule-AllConsistent metric input s s' all e =
    let next = put_rule metric (saved input (rule_for metric s)) s in
    let good : AllConsistent next =
      put_rule-AllConsistent metric (saved input (rule_for metric s)) s
        (saved-IsConsistent input (rule_for metric s) (all metric)) all in
    let same : next ≡ s' = ground arith in subst AllConsistent same good

no_rules-AllConsistent : AllConsistent no_rules
unfolding AllConsistent
no_rules-AllConsistent cpu r e = absurd (cc)
no_rules-AllConsistent memory r e = absurd (cc)

Life-AllConsistent : {s : Rules} → Life s → AllConsistent s
unfolding AllConsistent
Life-AllConsistent nothing = no_rules-AllConsistent
Life-AllConsistent (saves {s = s} {s' = s'} metric input before e) =
    save_rule-AllConsistent metric input s s' (Life-AllConsistent before) e
Life-AllConsistent (visits {s = s} now metric c r before there on) =
    let all = Life-AllConsistent before in
    put_rule-AllConsistent metric (visit_rule now metric c r).rule s
      (visit_rule-IsConsistent now metric c r on (all metric r there)) all

-- Over every sequence of settings that are saved and visits of enabled rules, a rule that is pending
-- or alerting is enabled and has the time since when, and it has the time of a message exactly if it
-- is alerting.
pub Life-IsConsistent :
    {s : Rules} (metric : AlertMetric) (r : Rule)
    → Life s
    → rule_for metric s ≡ some r
    → IsConsistent r
unfolding AllConsistent
Life-IsConsistent metric r path there = Life-AllConsistent path metric r there
