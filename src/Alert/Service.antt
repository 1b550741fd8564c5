-- ===== src/Alert/Service.antt =====
-- The rules of one owner (`saveRule`, `resetState` and `view` of
-- src/modules/resource-alert/resource-alert.service.ts), and the visit of a rule in `evaluateAll`.
use aoox_api.Prelude.{
  ℕ, suc, Bool, true, false, not, ◌&&◌, ◌||◌, Option, none, some, List, [], ◌∷◌, ltb, ◌==◌, given,
  if◌then◌else◌,
}
use aoox_api.Alert.{
  AlertMetric, cpu, memory, Value, MinuteReading, AlertStatus, calm, pending, AlertState,
  AlertAction, Evaluation, evaluate_breach, next_alert_state, reminder_ms,
}

pub record RuleConfig : Type 0 where
  pub enabled : Bool
  pub threshold_percent : ℕ
  pub duration_minutes : ℕ

pub record Rule : Type 0 where
  pub config : RuleConfig
  pub state : AlertState
  pub last_value : Option Value
  pub last_evaluated_at : Option ℕ

-- The rows of one owner, at most one for a metric.
pub record Rules : Type 0 where
  pub cpu_rule : Option Rule
  pub memory_rule : Option Rule

abbrev pub rule_for : AlertMetric → Rules → Option Rule
rule_for cpu rules = rules.cpu_rule
rule_for memory rules = rules.memory_rule

abbrev pub put_rule : AlertMetric → Rule → Rules → Rules
put_rule cpu r rules = record rules { cpu_rule = some r }
put_rule memory r rules = record rules { memory_rule = some r }

abbrev pub default_rule : RuleConfig
default_rule = record { enabled = false; threshold_percent = 90; duration_minutes = 5 }

abbrev pub initial_state : AlertState
initial_state = record { status = calm; status_since = none; last_alert_at = none }

abbrev pub new_rule : RuleConfig → Rule
new_rule c = record {
  config = c;
  state = initial_state;
  last_value = none;
  last_evaluated_at = none;
}

-- `Partial<RuleConfig>`
pub record RuleInput : Type 0 where
  pub enabled : Option Bool
  pub threshold_percent : Option ℕ
  pub duration_minutes : Option ℕ

abbrev pub assign : RuleConfig → RuleInput → RuleConfig
assign c i = record {
  enabled = given i.enabled c.enabled;
  threshold_percent = given i.threshold_percent c.threshold_percent;
  duration_minutes = given i.duration_minutes c.duration_minutes;
}

abbrev pub same_flag : Bool → Bool → Bool
same_flag true b = b
same_flag false b = not b

abbrev pub is_changed : RuleConfig → RuleConfig → Bool
is_changed c d =
    not (same_flag c.enabled d.enabled)
    || not (c.threshold_percent == d.threshold_percent)
    || not (c.duration_minutes == d.duration_minutes)

unfoldable pub reset_state : Rule → Rule
reset_state r = new_rule r.config

unfoldable pub save_existing : RuleConfig → Rule → Rule
unfolding reset_state
save_existing next r =
    let r' = record r { config = next } in if is_changed r.config next then reset_state r' else r'

abbrev pub saved : RuleInput → Option Rule → Rule
saved input none = new_rule (assign default_rule input)
saved input (some r) = save_existing (assign r.config input) r

abbrev pub is_memory : AlertMetric → Bool
is_memory cpu = false
is_memory memory = true

-- `none` is the refusal of a memory threshold above 100.
unfoldable pub save_rule : AlertMetric → RuleInput → Rules → Option Rules
unfolding save_existing
save_rule metric input rules =
    if is_memory metric && ltb 100 (given input.threshold_percent 0)
    then none
    else some (put_rule metric (saved input (rule_for metric rules)) rules)

-- What `view` shows of a metric.
unfoldable pub view_rule : AlertMetric → Rules → Rule
view_rule metric rules = given (rule_for metric rules) (new_rule default_rule)

-- What `evaluateAll` finds out about the owner of a rule, and whether the row can be saved.
pub record Circumstances : Type 0 where
  pub is_application : Bool
  pub has_owner : Bool
  pub is_running : Bool
  pub is_deploying : Bool
  pub readings : List MinuteReading
  pub last_finished : Option ℕ
  pub can_save : Bool

-- The row after a visit, the message that it sent, and whether it counts.
pub record Visit : Type 0 where
  pub rule : Rule
  pub message : Option AlertAction
  pub evaluated : Bool

abbrev pub leave : Rule → Visit
leave r = record { rule = r; message = none; evaluated = false }

-- A save that throws ends the visit and leaves the row as it was.
abbrev pub store : Bool → Rule → Visit → Visit
store true before after = after
store false before after = leave before

abbrev pub is_calm : AlertStatus → Bool
is_calm calm = true
is_calm _ = false

abbrev pub is_pending : AlertStatus → Bool
is_pending pending = true
is_pending _ = false

abbrev pub drop_pending : Rule → Rule
drop_pending r = record r { state = record r.state { status = calm; status_since = none } }

unfoldable pub judged : ℕ → Rule → Evaluation → Visit
judged now r ev =
    let (state, action) = next_alert_state r.state ev.breaching now reminder_ms in
    record {
      rule = record r { state = state; last_value = ev.latest_value; last_evaluated_at = some now };
      message = action;
      evaluated = true;
    }

abbrev pub not_before : Circumstances → Option ℕ
not_before c = if c.is_application then c.last_finished else none

-- An evaluation that throws is logged.
abbrev pub judge_or_leave : ℕ → Bool → Rule → Option Evaluation → Visit
judge_or_leave now can_save r none = leave r
judge_or_leave now can_save r (some ev) = store can_save r (judged now r ev)

abbrev pub evaluate_rule : ℕ → AlertMetric → Circumstances → Rule → Visit
evaluate_rule now metric c r = judge_or_leave now c.can_save r (
    evaluate_breach metric c.readings r.config.threshold_percent r.config.duration_minutes now
      (not_before c))

unfoldable pub visit_rule : ℕ → AlertMetric → Circumstances → Rule → Visit
unfolding judged reset_state
visit_rule now metric c r =
    if not c.has_owner
    then leave r
    else (if not c.is_running
        then (if is_calm r.state.status
            then leave r
            else store c.can_save r (leave (reset_state r)))
        else (if c.is_application && c.is_deploying
            then (if is_pending r.state.status
                then store c.can_save r (leave (drop_pending r))
                else leave r)
            else evaluate_rule now metric c r))

-- Every enabled row with what was found out about its owner: the rows, the messages, the count.
unfoldable pub evaluate_all :
    ℕ → List (AlertMetric × Circumstances × Rule) → List Rule × List AlertAction × ℕ
unfolding visit_rule
evaluate_all now [] = ([], [], 0)
evaluate_all now ((metric, c, r) ∷ rest) =
    let (rules, messages, count) = evaluate_all now rest in
    if r.config.enabled
    then (let v = visit_rule now metric c r in
        (
          v.rule ∷ rules,
          elim v.message [ none ↦ messages | some a ↦ a ∷ messages ],
          if v.evaluated then suc count else count,
        ))
    else (r ∷ rules, messages, count)
