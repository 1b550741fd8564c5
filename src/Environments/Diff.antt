-- ===== src/Environments/Diff.antt =====
-- `diff` of src/modules/variable-set/variable-set-environment.service.ts: the comparison of two
-- environments by the names of their variables.
use aoox_api.Prelude.{
  ℕ, Bool, true, false, not, ◌&&◌, Option, none, some, List, ◌++◌, keep, if◌then◌else◌, Text,
  includes,
}
use aoox_api.Access.{RequestContext}
use aoox_api.SetAccess.{SetAccess, may_use_values}
use aoox_api.EnvText.Compare.{compare_env_texts}
use aoox_api.Environments.{
  text_of, Row, Store, set_not_found, Result, done, ◌>>=◌, require_some, find_by_name,
}
use aoox_api.Environments.Service.{environment_of}

pub record EnvironmentDiff : Type 0 where
  pub comparable : Bool
  pub only_in_from : List Text
  pub only_in_to : List Text
  pub in_both : List Text
  pub different : Option (List Text)
  pub same : Option (List Text)

-- The two sides of a comparison, by keys only.
abbrev pub key_diff : List Text → List Text → EnvironmentDiff
key_diff from_keys to_keys = record {
  comparable = false;
  only_in_from = keep (λ k. not (includes to_keys k)) from_keys;
  only_in_to = keep (λ k. not (includes from_keys k)) to_keys;
  in_both = keep (λ k. includes to_keys k) from_keys;
  different = none;
  same = none;
}

unfoldable pub text_diff : Text → Text → EnvironmentDiff
text_diff from_text to_text =
    let c = compare_env_texts from_text to_text in
    record {
      comparable = true;
      only_in_from = c.only_in_from;
      only_in_to = c.only_in_to;
      in_both = c.same ++ c.different;
      different = some c.different;
      same = some c.same;
    }

unfoldable pub diff_rows : Bool → Row → Row → EnvironmentDiff
unfolding text_diff
diff_rows may_compare from to =
    if may_compare
    then text_diff (text_of from.content) (text_of to.content)
    else key_diff from.keys to.keys

module _ (ctx : Option RequestContext) (load : Option SetAccess) where
  unfoldable pub diff : ℕ → Text → Text → Store → Result EnvironmentDiff
  unfolding diff_rows
  diff set_id from_name to_name store = do
    access ← require_some load set_not_found
    from ← find_by_name set_id from_name store
    to ← find_by_name set_id to_name store
    done (
        diff_rows
          (may_use_values ctx access (environment_of from)
            && may_use_values ctx access (environment_of to))
          from to)
