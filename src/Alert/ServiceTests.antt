-- ===== src/Alert/ServiceTests.antt =====
-- The rules of one owner at concrete rows.
use aoox_api.Prelude.{◌≡◌, ◌↔◌, refl, true, false, none, some, List, [], ◌∷◌, arith}
use aoox_api.Alert.{
  cpu, memory, pending, alerting, alert, recovered, insert_by_time, metric_value, evaluate_breach,
  next_alert_state,
}
use aoox_api.Alert.Service.{
  RuleConfig, Rule, Rules, RuleInput, Circumstances, save_rule, visit_rule, new_rule, put_rule,
  evaluate_all, view_rule, default_rule,
}
use aoox_api.Alert.Transfer.{
  natural, other, RawRules, import_config, export_config, written, threshold_ignored,
  duration_ignored, Warning,
}
use aoox_api.Alert.Exchange.{AllSane, IsSane, import_config-AllSane, export_config-import_config}
use aoox_api.Alert.Lifecycle.{
  Life, nothing, saves, visits, no_rules, IsConsistent, Life-IsConsistent,
}
use aoox_api.Alert.Visits.{is_watched, Breaches, visit_rule-message_iff}

abbrev turn_on : RuleInput
turn_on = record { enabled = some true; threshold_percent = some 80; duration_minutes = some 1 }

abbrev on : RuleConfig
on = record { enabled = true; threshold_percent = 80; duration_minutes = 1 }

abbrev busy : Circumstances
busy = record {
  is_application = true;
  has_owner = true;
  is_running = true;
  is_deploying = false;
  readings =
      record { at = 50000; cpu_percent = none; memory_bytes = 90; memory_limit_bytes = 100 } ∷ [];
  last_finished = none;
  can_save = true;
}

abbrev after_save : Rules
after_save = put_rule memory (new_rule on) no_rules

save_rule-refused :
    save_rule memory (record turn_on { threshold_percent = some 101 }) no_rules ≡ none
unfolding save_rule
save_rule-refused = refl

view_rule-default : view_rule cpu no_rules ≡ new_rule default_rule
unfolding view_rule
view_rule-default = refl

evaluate_all-count :
    (evaluate_all 60000 ((memory, busy, new_rule on) ∷ (cpu, busy, new_rule default_rule) ∷ [])).2
    ≡ 1
unfolding evaluate_all metric_value evaluate_breach next_alert_state insert_by_time
evaluate_all-count = refl

turned_on : save_rule memory turn_on no_rules ≡ some after_save
unfolding save_rule
turned_on = refl

Life-pending : Life (put_rule memory (visit_rule 60000 memory busy (new_rule on)).rule after_save)
Life-pending =
    visits 60000 memory busy (new_rule on) (saves memory turn_on nothing turned_on) refl refl

Life-IsConsistent_example : IsConsistent (visit_rule 60000 memory busy (new_rule on)).rule
Life-IsConsistent_example =
    Life-IsConsistent memory (visit_rule 60000 memory busy (new_rule on)).rule Life-pending refl

abbrev waiting : Rule
waiting = record (new_rule on) {
  state = record { status = pending; status_since = some 0; last_alert_at = none };
}

visit_rule-message_iff_example :
    (((visit_rule 60000 memory busy waiting).message ≡ some alert) ↔ (
      is_watched busy ≡ true × waiting.state.status ≡ pending × Breaches 60000 memory busy waiting))
    × (((visit_rule 60000 memory busy waiting).message ≡ some recovered) ↔ (
        is_watched busy ≡ true
        × waiting.state.status ≡ alerting
        × ¬ Breaches 60000 memory busy waiting))
visit_rule-message_iff_example = visit_rule-message_iff 60000 memory busy waiting (omega arith)

abbrev hostile : RawRules
hostile = record {
  cpu_raw =
      some (record { enabled = true; threshold_percent = natural 1001; duration_minutes = other });
  memory_raw = none;
}

import_config-warns :
    import_config hostile no_rules
    ≡ some (
      put_rule cpu (new_rule (record default_rule { enabled = true })) no_rules,
      threshold_ignored cpu ∷ duration_ignored cpu ∷ [],
    )
unfolding import_config
import_config-warns = refl

no_rules-AllSane : AllSane no_rules
unfolding AllSane
no_rules-AllSane cpu r e = absurd (cc)
no_rules-AllSane memory r e = absurd (cc)

import_config-AllSane_example :
    (rules' : Rules) × (warnings : List Warning) × import_config hostile no_rules
      ≡ some (rules', warnings)
    × AllSane rules'
import_config-AllSane_example = import_config-AllSane hostile no_rules no_rules-AllSane

abbrev one_rule : Rules
one_rule = record { cpu_rule = some (new_rule default_rule); memory_rule = none }

one_rule-AllSane : AllSane one_rule
unfolding AllSane IsSane
one_rule-AllSane cpu r e = ground arith
one_rule-AllSane memory r e = absurd (cc)

exported : export_config one_rule ≡ some (default_rule, default_rule)
unfolding export_config
exported = refl

export_config-import_config_example :
    (rules' : Rules) × import_config (written (default_rule, default_rule)) no_rules
      ≡ some (rules', [])
    × export_config rules' ≡ some (default_rule, default_rule)
export_config-import_config_example =
    export_config-import_config one_rule (default_rule, default_rule) one_rule-AllSane exported
