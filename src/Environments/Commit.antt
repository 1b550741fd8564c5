-- ===== src/Environments/Commit.antt =====
-- `transact` and `commit` of src/modules/variable-set/variable-set-environment.service.ts: the locked,
-- optimistic write that every change of variables goes through, and the history that it keeps.
use aoox_api.Prelude.{
  ℕ, Bool, true, false, not, ◌&&◌, ◌||◌, Option, none, some, List, [], ◌∷◌, map, keep, any, take,
  length, ltb, ◌==◌, if◌then◌else◌, Text, text_eq, is_empty, trim, trim_end, includes,
}
use aoox_api.EnvText.{is_env_name, starts_line_feed}
use aoox_api.EnvText.Objects.{as_live, LiveFlags, stored_flags, same_flags}
use aoox_api.EnvText.Notes.{extract_notes}
use aoox_api.EnvText.Flags.{Patch, other, FlagPatch, next_flags}
use aoox_api.EnvText.Validate.{keys_of}
use aoox_api.EnvText.Compare.{ChangeSummary, summarize_change}
use aoox_api.Environments.{
  system, Action, baseline, Detail, before_recording, Actor, seal, text_of, Version, Row, Store,
  invalid_date, changed_in_between, invalid_flags, unknown_flags, Result, done, ◌>>=◌, ◌>>◌,
  require, find_in_set, put_row,
}

-- `ENV_VERSION_KEEP`
abbrev pub env_version_keep : ℕ
env_version_keep = 50

unfoldable pub without_returns : Text → Text
without_returns [] = []
without_returns (c ∷ s) =
    let rest = without_returns s in if c == 13 && starts_line_feed s then rest else c ∷ rest

unfoldable pub normalize_text : Text → Text
unfolding without_returns
normalize_text t = trim_end (without_returns t)

-- What the database gives to a write: the names of the versions that it may insert, the time of the
-- insertion and the time of the save.
pub record Stamps : Type 0 where
  pub baseline_id : ℕ
  pub version_id : ℕ
  pub inserted_at : ℕ
  pub saved_at : ℕ

-- Who writes, and how.
pub record Authorship : Type 0 where
  pub actor : Actor
  pub action : Action
  pub detail : Detail

-- `ORDER BY created_at DESC, id DESC`
abbrev pub is_before : Version → Version → Bool
is_before v w = ltb w.created_at v.created_at || (w.created_at == v.created_at && ltb w.id v.id)

unfoldable pub insert_version : Version → List Version → List Version
insert_version v [] = v ∷ []
insert_version v (w ∷ ws) = if is_before v w then v ∷ w ∷ ws else w ∷ insert_version v ws

unfoldable pub baseline_version : Stamps → Row → Text → Version
baseline_version stamps row old_text = record {
  id = stamps.baseline_id;
  content = some old_text;
  flags = row.flags;
  notes = extract_notes old_text;
  author_id = none;
  author_email = none;
  via = system;
  action = baseline;
  detail = before_recording;
  summary = record { added = keys_of old_text; changed = []; removed = []; flags = [] };
  created_at = row.updated_at;
}

-- The versions, with the old content before the first recorded change.
unfoldable pub with_baseline : Stamps → Row → Text → List Version
unfolding baseline_version insert_version
with_baseline stamps row old_text =
    if length row.versions == 0 && not (is_empty (trim old_text))
    then insert_version (baseline_version stamps row old_text) row.versions
    else row.versions

-- The flags that the row object has after the write.
unfoldable pub commit_flags : Row → Text → FlagPatch → LiveFlags
commit_flags row text patch = next_flags (as_live row.flags) row.keys (keys_of text) patch

unfoldable pub is_change : Row → Text → Text → FlagPatch → Bool
is_change row old_text text patch =
    not (text_eq (normalize_text old_text) (normalize_text text))
    || not (same_flags (as_live row.flags) (commit_flags row text patch))

module _ (stamps : Stamps) (authorship : Authorship) where
  unfoldable pub new_version : Row → Text → Text → FlagPatch → Version
  unfolding seal
  new_version row old_text text patch =
      let flags = commit_flags row text patch in
      record {
        id = stamps.version_id;
        content = seal text;
        flags = stored_flags flags;
        notes = extract_notes text;
        author_id = some authorship.actor.user_id;
        author_email = authorship.actor.email;
        via = authorship.actor.via;
        action = authorship.action;
        detail = authorship.detail;
        summary = summarize_change old_text text (as_live row.flags) flags;
        created_at = stamps.inserted_at;
      }

  -- The inserts, and the `DELETE` of all but the newest.
  unfoldable pub recorded : Row → Text → Text → FlagPatch → List Version
  unfolding with_baseline insert_version new_version
  recorded row old_text text patch =
      take env_version_keep
        (insert_version (new_version row old_text text patch) (with_baseline stamps row old_text))

  unfoldable pub commit : Row → Text → Text → FlagPatch → Row
  unfolding recorded is_change seal
  commit row old_text text patch = record {
    id = row.id;
    set_id = row.set_id;
    name = row.name;
    is_protected = row.is_protected;
    content = seal text;
    keys = keys_of text;
    flags = stored_flags (commit_flags row text patch);
    notes = extract_notes text;
    updated_at = stamps.saved_at;
    versions =
        if is_change row old_text text patch
        then recorded row old_text text patch
        else row.versions;
  }

-- `expectedUpdatedAt`: omitted, no date, or a time.
pub data Expected : Type 0 where
  any_state not_a_date : Expected
  changed_at : ℕ → Expected

abbrev pub is_date : Expected → Bool
is_date not_a_date = false
is_date _ = true

abbrev pub matches : Expected → Row → Bool
matches (changed_at t) row = row.updated_at == t
matches _ row = true

-- What a transaction leaves: the saved row and, for `promote`, the summary that it sets.
pub record Saved : Type 0 where
  pub row : Row
  pub summary : Option ChangeSummary

-- The table and what was saved; `fn` gets the locked row and its text.
unfoldable pub transact :
    Store → ℕ → ℕ → Expected → (Row → Text → Result Saved) → Result (Store × Saved)
unfolding find_in_set put_row
transact store set_id env_id expected fn = do
  require (is_date expected) invalid_date
  row ← find_in_set env_id set_id store
  require (matches expected row) changed_in_between
  saved ← fn row (text_of row.content)
  done (put_row saved.row store, saved)

abbrev pub is_other : Patch → Bool
is_other other = true
is_other _ = false

-- A flag patch may only name variables of the new text.
unfoldable pub assert_flag_patch : FlagPatch → List Text → Result Unit
unfolding includes
assert_flag_patch patch keys =
    let unknown = keep (λ k. not (includes keys k)) (map (λ e. e.0) patch) in
    require (not (any (λ e. not (is_env_name e.0) || is_other e.1) patch)) invalid_flags
    >> require (length unknown == 0) (unknown_flags (take 5 unknown))
