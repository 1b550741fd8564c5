-- ===== src/Alert/Transfer.antt =====
-- Rules that move between panels (`exportConfig` and `importConfig` of
-- src/modules/resource-alert/resource-alert.service.ts). The file is parsed JSON.
use aoox_api.Prelude.{
  ℕ, Bool, ◌&&◌, ◌||◌, Option, none, some, List, [], ◌∷◌, ◌++◌, leb, is_some, if◌then◌else◌,
}
use aoox_api.Alert.{AlertMetric, cpu, memory}
use aoox_api.Alert.Service.{RuleConfig, Rule, Rules, RuleInput, default_rule, save_rule}

abbrev pub max_duration_minutes : ℕ
max_duration_minutes = 120

-- A value of the file: absent, a natural number, or anything else.
pub data RawNumber : Type 0 where
  absent : RawNumber
  natural : ℕ → RawNumber
  other : RawNumber

-- `enabled` is whether the file says `true`.
pub record RawRule : Type 0 where
  pub enabled : Bool
  pub threshold_percent : RawNumber
  pub duration_minutes : RawNumber

-- A metric of the file, `none` where it has no object.
pub record RawRules : Type 0 where
  pub cpu_raw : Option RawRule
  pub memory_raw : Option RawRule

pub data Warning : Type 0 where
  threshold_ignored duration_ignored : AlertMetric → Warning

-- `int` of `importConfig`: the value, and the warning that goes with the default.
unfoldable pub int : RawNumber → ℕ → ℕ → ℕ → Warning → ℕ × List Warning
int absent lo hi dflt label = (dflt, [])
int other lo hi dflt label = (dflt, label ∷ [])
int (natural v) lo hi dflt label = if leb lo v && leb v hi then (v, []) else (dflt, label ∷ [])

abbrev pub highest_threshold : AlertMetric → ℕ
highest_threshold cpu = 1000
highest_threshold memory = 100

abbrev pub threshold_of : AlertMetric → RawRule → ℕ × List Warning
threshold_of metric r =
    int r.threshold_percent 1 (highest_threshold metric) default_rule.threshold_percent
      (threshold_ignored metric)

abbrev pub duration_of : AlertMetric → RawRule → ℕ × List Warning
duration_of metric r =
    int r.duration_minutes 1 max_duration_minutes default_rule.duration_minutes
      (duration_ignored metric)

abbrev pub to_input : AlertMetric → RawRule → RuleInput
to_input metric r = record {
  enabled = some r.enabled;
  threshold_percent = some (threshold_of metric r).0;
  duration_minutes = some (duration_of metric r).0;
}

abbrev pub with_warnings : List Warning → Option Rules → Option (Rules × List Warning)
with_warnings warnings none = none
with_warnings warnings (some rules) = some (rules, warnings)

-- One metric: `none` is the exception of `saveRule`.
unfoldable pub import_rule :
    AlertMetric → Option RawRule → Rules × List Warning → Option (Rules × List Warning)
unfolding save_rule int
import_rule metric none (rules, warnings) = some (rules, warnings)
import_rule metric (some r) (rules, warnings) =
    with_warnings (warnings ++ ((threshold_of metric r).1 ++ (duration_of metric r).1))
      (save_rule metric (to_input metric r) rules)

abbrev pub then_memory : RawRules → Option (Rules × List Warning) → Option (Rules × List Warning)
then_memory raw none = none
then_memory raw (some first) = import_rule memory raw.memory_raw first

unfoldable pub import_config : RawRules → Rules → Option (Rules × List Warning)
unfolding import_rule
import_config raw rules = then_memory raw (import_rule cpu raw.cpu_raw (rules, []))

abbrev pub pick : Option Rule → RuleConfig
pick none = default_rule
pick (some r) = r.config

-- `none` where the owner has no rules; else the two settings.
unfoldable pub export_config : Rules → Option (RuleConfig × RuleConfig)
export_config rules =
    if is_some rules.cpu_rule || is_some rules.memory_rule
    then some (pick rules.cpu_rule, pick rules.memory_rule)
    else none

-- What `JSON` makes of exported settings.
abbrev pub to_raw : RuleConfig → RawRule
to_raw c = record {
  enabled = c.enabled;
  threshold_percent = natural c.threshold_percent;
  duration_minutes = natural c.duration_minutes;
}

abbrev pub written : RuleConfig × RuleConfig → RawRules
written (c, m) = record { cpu_raw = some (to_raw c); memory_raw = some (to_raw m) }
