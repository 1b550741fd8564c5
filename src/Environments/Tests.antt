-- ===== src/Environments/Tests.antt =====
-- Environments in use: three small tables, and the theorems at them.
use aoox_api.Prelude.{
  ◌≡◌, refl, All, true, false, Option, none, some, List, [], ◌∷◌, arith, Text, codes, trim,
  is_space, starts_with, index_of, includes, split_on, map_get, map_set, map_delete, map_from,
}
use aoox_api.Access.{ProjectRole}
use aoox_api.SetAccess.{
  in_project, may_use_values, SetAccess, platform, assert_values, token_may_use,
  variable_scope_allows,
}
use aoox_api.EnvText.{
  env_map, is_env_name, split_lines, join_lines, parse_env_lines, parse_lines, parse_line,
  parse_trimmed, defines_key,
}
use aoox_api.EnvText.Write.{set_values, set_value, note_of, note_block, note_lines}
use aoox_api.EnvText.Objects.{as_live}
use aoox_api.EnvText.Notes.{extract_notes}
use aoox_api.EnvText.Validate.{
  unique, validate_environment_text, check_content, check_lines, check_trimmed, check_key,
  check_values, check_value, check_references, check_reference,
}
use aoox_api.EnvText.References.{
  references, references_from, match_at, group, run_of, after_run, count_opens,
}
use aoox_api.EnvText.Compare.{summarize_change}
use aoox_api.Environments
use aoox_api.Environments.{
  Row, Store, Actor, session, edit, no_detail, from_environment, text_of, done, find_in_set,
  find_row, put_row,
}
use aoox_api.Environments.Commit.{
  Stamps, any_state, changed_at, Saved, commit, commit_flags, transact, assert_flag_patch,
}
use aoox_api.Environments.Service.{patch_from, guard_values, saved_only, reveal, Reveal, update}
use aoox_api.Environments.Diff.{diff}
use aoox_api.Environments.Secrecy.{SameButValues, NotBoth, named, diff-hides}
use aoox_api.Environments.Promote.{promote, promoted_row}
use aoox_api.Environments.Rows.{at, values}
use aoox_api.Environments.Runs.{Step, Runs, here, next}
use aoox_api.Environments.Locking.{Avoids, update-sees}
use aoox_api.Environments.Service
use aoox_api.Environments.Refinement.{copied, promote-copied}

abbrev access : Option SetAccess
access = some (record { slug = codes "api"; role = platform })

abbrev ann : Actor
ann = record { user_id = 7; email = none; via = session }

abbrev staging : Row
staging = record {
  id = 10;
  set_id = 1;
  name = codes "staging";
  is_protected = false;
  content = some (codes "# where\nURL=a\nB=2");
  keys = codes "URL" ∷ codes "B" ∷ [];
  flags = (codes "B", true) ∷ [];
  notes = (codes "URL", codes "where") ∷ [];
  updated_at = 5;
  versions = [];
}

abbrev live : Row
live = record {
  id = 11;
  set_id = 1;
  name = codes "production";
  is_protected = true;
  content = some (codes "B=1\n# end");
  keys = codes "B" ∷ [];
  flags = [];
  notes = [];
  updated_at = 6;
  versions = [];
}

abbrev table : Store
table = staging ∷ live ∷ []

abbrev stamps : Stamps
stamps = record { baseline_id = 100; version_id = 101; inserted_at = 9; saved_at = 8 }

abbrev both : List Text
both = codes "URL" ∷ codes "B" ∷ codes "URL" ∷ []

abbrev promoted_text : Text
promoted_text = codes "B=2\n# end\n\n# where\nURL=a"

abbrev promoted : Saved
promoted =
    let patch = patch_from (as_live staging.flags) [] (codes "URL" ∷ codes "B" ∷ []) in
    record {
      row =
          commit stamps
            (record {
              actor = ann;
              action = Environments.promote;
              detail = from_environment (codes "staging");
            })
            live (text_of live.content) promoted_text patch;
      summary = some (
          summarize_change (text_of live.content) promoted_text (as_live live.flags)
            (commit_flags live promoted_text patch));
    }

promote-table :
    promote none access stamps ann 1 11 10 both any_state table
    ≡ done (put_row promoted.row table, promoted)
unfolding promote promoted_row guard_values transact find_in_set find_row assert_values unique
    includes set_values set_value split_lines defines_key trim is_space starts_with index_of
    note_block note_of join_lines note_lines env_map map_from map_get map_set parse_env_lines
    parse_lines parse_line parse_trimmed extract_notes token_may_use variable_scope_allows
    validate_environment_text check_content check_lines check_trimmed check_key check_values
    check_value check_references check_reference references references_from match_at group run_of
    after_run count_opens is_env_name map_delete split_on
promote-table = refl

names-both : All (λ j. is_env_name j ≡ true) (unique both)
unfolding is_env_name unique includes
names-both = (refl, (refl, tt))

promote-copied_example :
    values (put_row promoted.row table) 1 11 (codes "URL")
    ≡ copied (unique both) 10 11 (values table 1) 11 (codes "URL")
promote-copied_example =
    promote-copied none access stamps ann 1 11 10 both any_state table (put_row promoted.row table)
      promoted promote-table names-both 11 (codes "URL")

-- Another caller promotes into production, and then the one who saw staging updates it.
abbrev seen : Reveal
seen = record {
  variables = codes "# where\nURL=a\nB=2";
  keys = codes "URL" ∷ codes "B" ∷ [];
  secret_keys = codes "B" ∷ [];
  plain_keys = [];
  notes = (codes "URL", codes "where") ∷ [];
  updated_at = 5;
}

reveal-staging : reveal none access 1 10 table ≡ done seen
unfolding reveal guard_values find_in_set find_row assert_values token_may_use variable_scope_allows
reveal-staging = refl

avoids : Avoids 5 stamps table
avoids = omega arith

promotion : Runs (Avoids 5) table (put_row promoted.row table)
promotion = next table (put_row promoted.row table) here (
    Step.promoted none access stamps ann 1 11 10 both any_state table (put_row promoted.row table)
      promoted avoids promote-table)

abbrev updated : Saved
updated = saved_only (
    commit stamps (record { actor = ann; action = edit; detail = no_detail }) staging
      (text_of staging.content) (codes "C=1") [])

update-table :
    update none access stamps ann edit [] 1 10
      (codes "C=1")
      (changed_at 5)
      (put_row promoted.row table)
    ≡ done (put_row updated.row (put_row promoted.row table), updated)
unfolding update guard_values transact find_in_set find_row assert_values token_may_use put_row
    commit variable_scope_allows validate_environment_text check_content check_lines check_trimmed
    check_key check_values check_value check_references check_reference references references_from
    match_at group run_of after_run count_opens is_env_name split_lines trim is_space starts_with
    index_of includes assert_flag_patch Service.edit
update-table = refl

update-sees_example :
    (row : Row) × (find_row (at 10 1) table ≡ some row)
    × (find_row (at 10 1) (put_row promoted.row table) ≡ some row)
    × (text_of row.content ≡ seen.variables)
update-sees_example =
    update-sees none none access access 1 10 table (put_row promoted.row table)
      (put_row updated.row (put_row promoted.row table)) seen stamps ann edit [] (codes "C=1")
      updated reveal-staging promotion update-table

-- A developer, who may not use the values of production, compares it with staging.
abbrev developer : SetAccess
developer = record { slug = codes "api"; role = in_project ProjectRole.developer }

abbrev other_live : Row
other_live = record {
  id = 11;
  set_id = 1;
  name = codes "production";
  is_protected = true;
  content = some (codes "B=9");
  keys = codes "B" ∷ [];
  flags = (codes "B", true) ∷ [];
  notes = [];
  updated_at = 7;
  versions = [];
}

same-staging : SameButValues staging staging
same-staging = record { set_id = refl; environment = refl; keys = refl }

same-live : SameButValues live other_live
same-live = record { set_id = refl; environment = refl; keys = refl }

refused :
    NotBoth none developer
      (find_row (named 1 (codes "staging")) table)
      (find_row (named 1 (codes "production")) table)
unfolding find_row may_use_values token_may_use variable_scope_allows
refused = refl

diff-hides_example :
    diff none (some developer) 1 (codes "staging") (codes "production") table
    ≡ diff none
        (some developer)
        1
        (codes "staging")
        (codes "production")
        (staging ∷ other_live ∷ [])
diff-hides_example =
    diff-hides none developer 1 (codes "staging") (codes "production") table
      (staging ∷ other_live ∷ []) (same-staging, (same-live, tt)) refused
