-- ===== src/Monitor/Imports.antt =====
-- An imported file is not trusted (`importConfig` of src/modules/http-monitor/http-monitor.service.ts,
-- over `validateMonitorPath` and `parseExpectedCodes` of src/modules/http-monitor/http-probe.ts).
use aoox_api.Prelude.{
  ℕ, ◌≤◌, ◌≡◌, refl, true, Option, none, some, List, [], ◌∷◌, arith, ltb, length, is_space, subst,
  includes, is_some, Text, codes, trim, split_on, starts_with, Bool-cases, Option-cases, inl, inr,
  ◌==◌,
}
use aoox_api.Monitor.Rows.{Config}
use aoox_api.Monitor.Probe.{
  validate_monitor_path, parse_expected_codes, parse_part, parse_parts, range_of, three_digits,
}
use aoox_api.Monitor.Config.{RawConfig, assign, imported, import_path, import_codes, default_config}

-- Settings that a check can run with.
pub record IsSane (decode : Text → Option Text) (c : Config) : Type 0 where
  pub interval : 1 ≤ c.interval_minutes × c.interval_minutes ≤ 60
  pub timeout : 1 ≤ c.timeout_seconds × c.timeout_seconds ≤ 30
  pub threshold : 1 ≤ c.failure_threshold × c.failure_threshold ≤ 10
  pub path : validate_monitor_path decode c.path ≡ none
  pub expected : is_some (parse_expected_codes c.expected_codes) ≡ true

default-valid :
    (decode : Text → Option Text)
    → decode (codes "/") ≡ some (codes "/")
    → validate_monitor_path decode default_config.path ≡ none
unfolding validate_monitor_path starts_with split_on includes
default-valid decode known = rw known

default-parses : is_some (parse_expected_codes default_config.expected_codes) ≡ true
unfolding parse_expected_codes split_on trim is_space
default-parses = refl

import_path-valid :
    (decode : Text → Option Text) (raw : Option Text)
    → decode (codes "/") ≡ some (codes "/")
    → validate_monitor_path decode (import_path decode raw) ≡ none
unfolding import_path
import_path-valid decode none known = default-valid decode known
import_path-valid decode (some p) known = elim (Option-cases (validate_monitor_path decode p)) [
  | inl good ↦ rw (good, import_path) good
  | inr (e, bad) ↦ rw (bad, import_path) (default-valid decode known)
]

import_codes-parse : (raw : Option Text) → is_some (parse_expected_codes (import_codes raw)) ≡ true
unfolding import_codes
import_codes-parse none = default-parses
import_codes-parse (some spec) = elim (Option-cases (parse_expected_codes spec)) [
  | inl bad ↦ rw (bad, import_codes) default-parses
  | inr (r, good) ↦ rw (good, import_codes) (rw good)
]

-- Whatever the file says, the settings that are saved have an interval, a timeout and a threshold
-- within the bounds of the API, a path that `validateMonitorPath` accepts and codes that
-- `parseExpectedCodes` can read, where `/` is decoded to itself.
pub imported-IsSane :
    (decode : Text → Option Text) (raw : RawConfig) (c : Config)
    → decode (codes "/") ≡ some (codes "/")
    → IsSane decode (assign c (imported decode raw))
unfolding assign imported
imported-IsSane decode raw c known = record {
  interval = (ground arith, ground arith);
  timeout = (ground arith, ground arith);
  threshold = (ground arith, ground arith);
  path = import_path-valid decode raw.path known;
  expected = import_codes-parse raw.expected_codes;
}

-- Every range that is parsed is within the three digits of a status.
pub AreStatuses : List (ℕ × ℕ) → Type 0
AreStatuses [] = Unit
AreStatuses ((lo, hi) ∷ ranges) = 100 ≤ lo × lo ≤ hi × hi ≤ 599 × AreStatuses ranges

range_of-bounds :
    (x y : Option ℕ) (lo hi : ℕ) → range_of x y ≡ some (lo, hi) → 100 ≤ lo × lo ≤ hi × hi ≤ 599
range_of-bounds none y lo hi h = absurd cc
range_of-bounds (some a) none lo hi h = absurd cc
range_of-bounds (some a) (some b) lo hi h = (ground arith, ground arith, ground arith)

parse_part-bounds :
    (part : Text) (lo hi : ℕ) → parse_part part ≡ some (lo, hi) → 100 ≤ lo × lo ≤ hi × hi ≤ 599
unfolding parse_part
parse_part-bounds (a ∷ b ∷ c ∷ []) lo hi h =
    range_of-bounds (three_digits a b c) (three_digits a b c) lo hi h
parse_part-bounds (a ∷ b ∷ c ∷ d ∷ x ∷ y ∷ z ∷ []) lo hi h = elim (Bool-cases (d == 45)) [
  | inl dash ↦ range_of-bounds (three_digits a b c) (three_digits x y z) lo hi (rw dash at h)
  | inr other ↦ absurd (cc (rw other at h))
]
parse_part-bounds _ lo hi h = absurd (cc)

parse_parts-AreStatuses :
    (parts : List Text) (ranges : List (ℕ × ℕ))
    → parse_parts parts ≡ some ranges
    → AreStatuses ranges × length ranges ≡ length parts
unfolding parse_parts AreStatuses
parse_parts-AreStatuses [] [] h = (tt, refl)
parse_parts-AreStatuses [] (r ∷ ranges) h = absurd (cc)
parse_parts-AreStatuses (p ∷ ps) ranges h = elim (Option-cases (parse_part (trim p))) [
  | inl bad ↦ absurd (cc (rw (bad, parse_parts) at h))
  | inr ((lo, hi), good) ↦ elim (Option-cases (parse_parts ps)) [
    | inl bad ↦ absurd (cc (rw (good, bad, parse_parts) at h))
    | inr (rs, rest) ↦
        let is_cons : (lo, hi) ∷ rs ≡ ranges = cc (rw (good, rest, parse_parts) at h) in
        let (valid, same) = parse_parts-AreStatuses ps rs rest in
        let (a, b, c) = parse_part-bounds (trim p) lo hi good in
        subst (λ l. AreStatuses l × length l ≡ length (p ∷ ps)) is_cons
          ((a, b, c, valid), omega (arith, same))
  ]
]

-- Codes that are accepted are at most ten ranges of statuses from 100 to 599, none of them empty.
pub parse_expected_codes-AreStatuses :
    (spec : Text) (ranges : List (ℕ × ℕ))
    → parse_expected_codes spec ≡ some ranges
    → AreStatuses ranges × length ranges ≤ 10
unfolding parse_expected_codes
parse_expected_codes-AreStatuses spec ranges h = elim (Bool-cases (ltb 80 (length spec))) [
  | inl long ↦ absurd (cc (rw long at h))
  | inr short ↦ elim (Bool-cases (ltb 10 (length (split_on 44 spec)))) [
    | inl many ↦ absurd (cc (rw (short, many) at h))
    | inr few ↦
        let (valid, same) =
          parse_parts-AreStatuses (split_on 44 spec) ranges (rw (short, few) at h) in
        (valid, ground (arith, same, few))
  ]
]
