-- ===== src/Environments/HistoryTests.antt =====
-- The history of an environment that is created, filled and changed.
use aoox_api.Prelude.{
  ℕ, ◌≡◌, refl, false, Option, none, some, List, [], ◌∷◌, arith, codes, trim, trim_end, is_space,
  starts_with, index_of, includes, All,
}
use aoox_api.SetAccess.{SetAccess, platform, assert_values, token_may_use, variable_scope_allows}
use aoox_api.EnvText.{is_env_name, split_lines}
use aoox_api.EnvText.Validate.{
  validate_environment_text, check_content, check_lines, check_trimmed, check_key, check_values,
  check_value, check_references, check_reference,
}
use aoox_api.EnvText.References.{
  references, references_from, match_at, group, run_of, after_run, count_opens,
}
use aoox_api.Environments.{
  Row, Version, session, edit, no_detail, done, find_in_set, find_row, put_row, seal,
}
use aoox_api.Environments.Commit.{
  Stamps, Authorship, any_state, commit, transact, is_change, normalize_text, without_returns,
  assert_flag_patch, recorded, with_baseline, baseline_version, insert_version, new_version,
}
use aoox_api.Environments.Service
use aoox_api.Environments.Service.{guard_values, saved_only, update, load_for_manage}
use aoox_api.Environments.Manage.{create, written, empty_row}
use aoox_api.Environments.Runs.{Step, Runs, here, next}
use aoox_api.Environments.Commits.{IsCommit}
use aoox_api.Environments.History.{Mirrors}
use aoox_api.Environments.Recorded.{IsRecorded}
use aoox_api.Environments.Reachable.{IsLater, Runs-IsRecorded, committed-previous}

abbrev access : Option SetAccess
access = some (record { slug = codes "api"; role = platform })

abbrev authorship : Authorship
authorship = record {
  actor = record { user_id = 7; email = none; via = session };
  action = edit;
  detail = no_detail;
}

abbrev stamps_at : ℕ → Stamps
stamps_at t = record { baseline_id = t; version_id = t; inserted_at = t; saved_at = t }

abbrev first : Row
first = empty_row 10 1 (codes "staging") false 1

abbrev second : Row
second = commit (stamps_at 2) authorship first [] (codes "A=1") []

abbrev third : Row
third = commit (stamps_at 3) authorship second (codes "A=1") (codes "A=2") []

create-first :
    create none access 10 1 written 1 (codes "staging") false [] ≡ done (first ∷ [], first)
unfolding create load_for_manage token_may_use variable_scope_allows
create-first = refl

update-second :
    update none access
      (stamps_at 2)
      authorship.actor
      edit
      []
      1
      10
      (codes "A=1")
      any_state
      (first ∷ [])
    ≡ done (second ∷ [], saved_only second)
unfolding update guard_values transact find_in_set find_row assert_values token_may_use put_row
    commit variable_scope_allows validate_environment_text check_content check_lines check_trimmed
    check_key check_values check_value check_references check_reference references references_from
    match_at group run_of after_run count_opens is_env_name split_lines trim is_space starts_with
    index_of includes assert_flag_patch Service.edit
update-second = refl

runs : Runs IsLater [] (second ∷ [])
runs =
    next (first ∷ []) (second ∷ [])
      (next [] (first ∷ []) here (
        Step.created none access (stamps_at 1) 10 written 1 (codes "staging") false [] (first ∷ [])
          first tt create-first))
      (Step.updated none access (stamps_at 2) authorship.actor edit [] 1 10 (codes "A=1") any_state
        (first ∷ []) (second ∷ []) (saved_only second) ((omega arith, tt), tt) update-second)

Runs-IsRecorded_example : All IsRecorded (second ∷ [])
Runs-IsRecorded_example = Runs-IsRecorded (second ∷ []) runs

later : IsLater (stamps_at 3) (second ∷ [])
unfolding commit is_change normalize_text without_returns trim_end is_space recorded with_baseline
    baseline_version insert_version new_version trim
later = ((omega arith, (omega arith, tt)), tt)

third-IsCommit : IsCommit (stamps_at 3) 1 10 any_state (second ∷ []) (third ∷ []) (saved_only third)
unfolding find_in_set find_row commit put_row validate_environment_text check_content check_lines
    check_trimmed check_key check_values check_value check_references check_reference references
    references_from match_at group run_of after_run count_opens is_env_name split_lines trim
    is_space starts_with index_of includes
third-IsCommit = record {
  row = second;
  found = refl;
  unchanged = refl;
  text = codes "A=2";
  valid = refl;
  patch = [];
  authorship = authorship;
  wrote = refl;
  table = refl;
}

committed-previous_example :
    (v : Version) × (w : Version) × (vs : List Version) × (third.versions ≡ v ∷ w ∷ vs)
    × Mirrors v third
    × Mirrors w second
unfolding commit is_change normalize_text without_returns trim_end is_space trim third-IsCommit seal
committed-previous_example =
    committed-previous (stamps_at 3) 1 10 any_state (second ∷ []) (third ∷ []) (saved_only third)
      third-IsCommit runs later refl refl
