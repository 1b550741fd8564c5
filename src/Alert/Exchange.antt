-- ===== src/Alert/Exchange.antt =====
-- Rules that move between panels (`exportConfig` and `importConfig` of
-- src/modules/resource-alert/resource-alert.service.ts).
use aoox_api.Prelude.{
  ℕ, ◌≤◌, ◌≡◌, refl, Option, none, some, List, [], ◌++◌, some-injective, subst, sym, ap, ◌∙◌,
  Option-cases, inl, inr, arith,
}
use aoox_api.Alert.{AlertMetric, cpu, memory}
use aoox_api.Alert.Service.{
  save_existing, reset_state, RuleConfig, Rule, Rules, RuleInput, rule_for, put_rule, default_rule,
  saved, save_rule, new_rule, assign,
}
use aoox_api.Alert.Lifecycle.{no_rules}
use aoox_api.Alert.Transfer.{
  RawNumber, absent, natural, other, RawRule, RawRules, Warning, threshold_ignored,
  duration_ignored, int, highest_threshold, max_duration_minutes, threshold_of, duration_of,
  to_input, with_warnings, import_rule, import_config, then_memory, pick, export_config, to_raw,
  written,
}

-- What the API accepts of a rule.
unfoldable pub IsSane : AlertMetric → RuleConfig → Type 0
IsSane metric c =
    1 ≤ c.threshold_percent
    × c.threshold_percent ≤ highest_threshold metric
    × 1 ≤ c.duration_minutes
    × c.duration_minutes ≤ max_duration_minutes

unfoldable pub AllSane : Rules → Type 0
AllSane rules =
    (metric : AlertMetric) (r : Rule) → rule_for metric rules ≡ some r → IsSane metric r.config

int-bounds :
    (raw : RawNumber) (lo hi dflt : ℕ) (label : Warning)
    → lo ≤ dflt
    → dflt ≤ hi
    → lo ≤ (int raw lo hi dflt label).0 × (int raw lo hi dflt label).0 ≤ hi
unfolding int
int-bounds absent lo hi dflt label below above = (below, above)
int-bounds other lo hi dflt label below above = (below, above)
int-bounds (natural v) lo hi dflt label below above = (ground arith, ground arith)

int-natural :
    (v lo hi dflt : ℕ) (label : Warning)
    → lo ≤ v
    → v ≤ hi
    → int (natural v) lo hi dflt label ≡ (v, [])
unfolding int
int-natural v lo hi dflt label below above = ground arith

default-low : (metric : AlertMetric) → 90 ≤ highest_threshold metric
default-low cpu = omega arith
default-low memory = omega arith

saved-config :
    (input : RuleInput) (o : Option Rule) → (saved input o).config ≡ assign (pick o) input
unfolding save_existing reset_state
saved-config input none = refl
saved-config input (some r) = ground arith

to_input-IsSane :
    (metric : AlertMetric) (r : RawRule) (c : RuleConfig)
    → IsSane metric (assign c (to_input metric r))
unfolding IsSane
to_input-IsSane metric r c =
    let t =
      int-bounds r.threshold_percent 1 (highest_threshold metric) 90 (threshold_ignored metric)
        (omega arith) (default-low metric) in
    let d =
      int-bounds r.duration_minutes 1 120 5 (duration_ignored metric) (omega arith) (omega arith) in
    (t.0, t.1, d.0, d.1)

save_rule-some :
    (metric : AlertMetric) (r : RawRule) (rules : Rules)
    → save_rule metric (to_input metric r) rules
      ≡ some (put_rule metric (saved (to_input metric r) (rule_for metric rules)) rules)
unfolding save_rule IsSane
save_rule-some cpu r rules = refl
save_rule-some memory r rules =
    let sane = to_input-IsSane memory r default_rule in ground (arith, sane.1)

put_rule-AllSane :
    (metric : AlertMetric) (r : Rule) (rules : Rules)
    → IsSane metric r.config
    → AllSane rules
    → AllSane (put_rule metric r rules)
unfolding AllSane
put_rule-AllSane cpu r rules h all cpu r' e =
    subst (λ x. IsSane cpu x.config) (some-injective _ _ e) h
put_rule-AllSane cpu r rules h all memory r' e = all memory r' e
put_rule-AllSane memory r rules h all cpu r' e = all cpu r' e
put_rule-AllSane memory r rules h all memory r' e =
    subst (λ x. IsSane memory x.config) (some-injective _ _ e) h

import_rule-AllSane :
    (metric : AlertMetric) (raw : Option RawRule) (rules : Rules) (warnings : List Warning)
    → AllSane rules
    → (rules' : Rules) × (warnings' : List Warning) × import_rule metric raw (rules, warnings)
        ≡ some (rules', warnings')
      × AllSane rules'
unfolding import_rule
import_rule-AllSane metric none rules warnings all = (rules, warnings, refl, all)
import_rule-AllSane metric (some r) rules warnings all =
    let input = to_input metric r in
    let config = saved-config input (rule_for metric rules) in
    (
      put_rule metric (saved input (rule_for metric rules)) rules,
      warnings ++ ((threshold_of metric r).1 ++ (duration_of metric r).1),
      ap (with_warnings (warnings ++ ((threshold_of metric r).1 ++ (duration_of metric r).1)))
          (save_rule-some metric r rules),
      put_rule-AllSane metric (saved input (rule_for metric rules)) rules
          (subst (IsSane metric) (sym config)
            (to_input-IsSane metric r (pick (rule_for metric rules))))
          all,
    )

-- Importing never throws, whatever the file says, and from rules that the API accepts it makes rules
-- that the API accepts.
pub import_config-AllSane :
    (raw : RawRules) (rules : Rules)
    → AllSane rules
    → (rules' : Rules) × (warnings : List Warning) × import_config raw rules
        ≡ some (rules', warnings)
      × AllSane rules'
unfolding import_config
import_config-AllSane raw rules all =
    let (first, some_warnings, e, sane) = import_rule-AllSane cpu raw.cpu_raw rules [] all in
    let (second, more, e', sane') =
      import_rule-AllSane memory raw.memory_raw first some_warnings sane in
    (second, more, simp e e', sane')

threshold_of-to_raw :
    (metric : AlertMetric) (c : RuleConfig)
    → IsSane metric c
    → threshold_of metric (to_raw c) ≡ (c.threshold_percent, [])
unfolding IsSane
threshold_of-to_raw metric c sane =
    int-natural c.threshold_percent 1 (highest_threshold metric) 90 (threshold_ignored metric)
      sane.0 sane.1

duration_of-to_raw :
    (metric : AlertMetric) (c : RuleConfig)
    → IsSane metric c
    → duration_of metric (to_raw c) ≡ (c.duration_minutes, [])
unfolding IsSane
duration_of-to_raw metric c sane =
    int-natural c.duration_minutes 1 120 5 (duration_ignored metric) sane.2 sane.3

warnings_of : AlertMetric → RuleConfig → List Warning
warnings_of metric c = (threshold_of metric (to_raw c)).1 ++ (duration_of metric (to_raw c)).1

-- The row that a sane rule of the file becomes, and its warnings.
saved-to_raw :
    (metric : AlertMetric) (c : RuleConfig)
    → IsSane metric c
    → new_rule (assign default_rule (to_input metric (to_raw c))) ≡ new_rule c
      × warnings_of metric c ≡ []
unfolding warnings_of
saved-to_raw metric c sane =
    let t = threshold_of-to_raw metric c sane in
    let d = duration_of-to_raw metric c sane in (rw (t, d) refl, rw (t, d) refl)

import_rule-to_raw :
    (metric : AlertMetric) (c : RuleConfig) (rules : Rules)
    → IsSane metric c
    → rule_for metric rules ≡ none
    → import_rule metric (some (to_raw c)) (rules, [])
      ≡ some (put_rule metric (new_rule c) rules, [])
unfolding import_rule warnings_of
import_rule-to_raw metric c rules sane bare =
    let (row, quiet) = saved-to_raw metric c sane in
    ap (with_warnings (warnings_of metric c)) (save_rule-some metric (to_raw c) rules)
    ∙ ap
        (λ o.
          some (put_rule metric (saved (to_input metric (to_raw c)) o) rules, warnings_of metric c))
        bare
    ∙ ap (λ r. some (put_rule metric r rules, warnings_of metric c)) row
    ∙ ap (λ ws. some (put_rule metric (new_rule c) rules, ws)) quiet

default-IsSane : (metric : AlertMetric) → IsSane metric default_rule
unfolding IsSane
default-IsSane cpu = (omega arith, omega arith, omega arith, omega arith)
default-IsSane memory = (omega arith, omega arith, omega arith, omega arith)

pick-IsSane :
    (metric : AlertMetric) (rules : Rules)
    → AllSane rules
    → IsSane metric (pick (rule_for metric rules))
unfolding AllSane
pick-IsSane metric rules all = elim (Option-cases (rule_for metric rules)) [
  | inl bare ↦ rw bare (default-IsSane metric)
  | inr (r, there) ↦ rw there (all metric r there)
]

-- Settings that are exported and read again by a panel without rules for the owner come out the same,
-- with no warning, where the API accepted them.
pub export_config-import_config :
    (rules : Rules) (c : RuleConfig × RuleConfig)
    → AllSane rules
    → export_config rules ≡ some c
    → (rules' : Rules) × import_config (written c) no_rules ≡ some (rules', [])
      × export_config rules' ≡ some c
unfolding export_config import_config
export_config-import_config rules (c, m) all e =
    let raw = written (c, m) in
    let same_c : pick rules.cpu_rule ≡ c = ground arith in
    let same_m : pick rules.memory_rule ≡ m = ground arith in
    let sane_c = subst (IsSane cpu) same_c (pick-IsSane cpu rules all) in
    let sane_m = subst (IsSane memory) same_m (pick-IsSane memory rules all) in
    let first = put_rule cpu (new_rule c) no_rules in
    (
      put_rule memory (new_rule m) first,
      ap (then_memory raw) (import_rule-to_raw cpu c no_rules sane_c refl)
          ∙ import_rule-to_raw memory m first sane_m refl,
      refl,
    )
