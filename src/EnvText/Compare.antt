-- ===== src/EnvText/Compare.antt =====
-- Changes and comparisons by the names of variables (src/modules/variable-set/env-text.ts).
use aoox_api.Prelude.{
  ◌+◌, Bool, false, not, ◌&&◌, Option, none, some, List, map, keep, length, ◌==◌, Text, text_eq,
  is_some, map_get,
}
use aoox_api.EnvText.{EnvMap, env_map}
use aoox_api.EnvText.Objects.{LiveFlags, flag_of, flag_eq}

pub record ChangeSummary : Type 0 where
  pub added : List Text
  pub changed : List Text
  pub removed : List Text
  pub flags : List Text

abbrev pub has : EnvMap → Text → Bool
has m key = is_some (map_get key m)

-- `m.get(key) === value`
unfoldable pub same_value : Option Text → Text → Bool
same_value none value = false
same_value (some v) value = text_eq v value

unfoldable pub holds : EnvMap → Text × Text → Bool
unfolding same_value
holds m (key, value) = same_value (map_get key m) value

-- The names of the entries with the test, in order.
abbrev pub names_with : (Text × Text → Bool) → EnvMap → List Text
names_with p m = map (λ e. e.0) (keep p m)

unfoldable pub summarize_change : Text → Text → LiveFlags → LiveFlags → ChangeSummary
unfolding holds
summarize_change old_text new_text old_flags new_flags =
    let before = env_map old_text in
    let after = env_map new_text in
    record {
      added = names_with (λ e. not (has before e.0)) after;
      changed = names_with (λ e. has before e.0 && not (holds before e)) after;
      removed = names_with (λ e. not (has after e.0)) before;
      flags =
          names_with
            (λ e. has before e.0 && not (flag_eq (flag_of old_flags e.0) (flag_of new_flags e.0)))
            after;
    }

unfoldable pub is_empty_summary : ChangeSummary → Bool
is_empty_summary s = length s.added + length s.changed + length s.removed + length s.flags == 0

pub record EnvComparison : Type 0 where
  pub only_in_from : List Text
  pub only_in_to : List Text
  pub different : List Text
  pub same : List Text

unfoldable pub compare_env_texts : Text → Text → EnvComparison
unfolding holds
compare_env_texts from_text to_text =
    let from = env_map from_text in
    let to = env_map to_text in
    record {
      only_in_from = names_with (λ e. not (has to e.0)) from;
      same = names_with (λ e. has to e.0 && holds to e) from;
      different = names_with (λ e. has to e.0 && not (holds to e)) from;
      only_in_to = names_with (λ e. not (has from e.0)) to;
    }
