-- ===== src/Environments/Recorded.antt =====
-- Environments keep their history: the invariant over all operations
-- (src/modules/variable-set/variable-set-environment.service.ts).
use aoox_api.Prelude.{
  ℕ, ◌≤◌, ◌<◌, ◌≡◌, refl, sym, ap, ◌∙◌, subst, inl, inr, true, false, List, [], ◌∷◌, length, take,
  arith, Text, text_eq_iff, is_empty, trim, Bool-cases,
}
use aoox_api.EnvText.Objects.{as_live, same_flags}
use aoox_api.EnvText.Flags.{FlagPatch}
use aoox_api.Environments.{text_of, Version, Row}
use aoox_api.Environments.Commit.{
  env_version_keep, normalize_text, Stamps, Authorship, insert_version, baseline_version,
  with_baseline, commit_flags, is_change, new_version, recorded, commit,
}
use aoox_api.Environments.Baseline.{with_baseline-cases, first_version}
use aoox_api.Environments.Steps.{normalize_text-seal}
use aoox_api.Environments.History.{
  Mirrors, NewestMirrors, AreBefore, length-take, insert_version-newest, same_flags-map_get,
  same_flags-length,
}
use aoox_api.EnvText.Notes.{extract_notes}
use aoox_api.EnvText.Validate.{keys_of}
use aoox_api.Environments.Steps.{keys_of-seal, extract_notes-seal}

-- The columns that are computed from the text are up to date, and the versions are few and begin with
-- the content.
pub record IsRecorded (row : Row) : Type 0 where
  pub keys : row.keys ≡ keys_of (text_of row.content)
  pub notes : row.notes ≡ extract_notes (text_of row.content)
  pub few : length row.versions ≤ env_version_keep
  pub newest : NewestMirrors row.versions row

-- The time is later than all that the row was written with.
abbrev pub IsAfter : ℕ → Row → Type 0
IsAfter now row = (row.updated_at < now) × AreBefore now row.versions

module _ (stamps : Stamps) (authorship : Authorship) (row : Row) (text : Text)
    (patch : FlagPatch) where
  abbrev old_text : Text
  old_text = text_of row.content

  abbrev after : Row
  after = commit stamps authorship row old_text text patch

  unchanged-parts :
      is_change row old_text text patch ≡ false
      → (normalize_text old_text ≡ normalize_text text)
        × (same_flags (as_live row.flags) (commit_flags row text patch) ≡ true)
  unfolding is_change
  unchanged-parts h =
      ((text_eq_iff (normalize_text old_text) (normalize_text text)).0 (ground arith), ground arith)

  unchanged-Mirrors :
      (v : Version) → is_change row old_text text patch ≡ false → Mirrors v row → Mirrors v after
  unfolding commit
  unchanged-Mirrors v h m =
      let (same, flags) = unchanged-parts h in
      let next = commit_flags row text patch in
      record {
        text = m.text ∙ same ∙ sym (normalize_text-seal text);
        flags = λ k b e. same_flags-map_get row.flags next k b flags (m.flags k b e);
        no_more = omega (arith, m.no_more, same_flags-length row.flags next flags);
      }

  unchanged-NewestMirrors :
      (vs : List Version)
      → is_change row old_text text patch ≡ false
      → NewestMirrors vs row
      → NewestMirrors vs after
  unchanged-NewestMirrors [] h m = tt
  unchanged-NewestMirrors (v ∷ vs) h m = unchanged-Mirrors v h m

  commit-versions-unchanged :
      is_change row old_text text patch ≡ false → after.versions ≡ row.versions
  unfolding commit
  commit-versions-unchanged h = rw h

  commit-versions-changed :
      is_change row old_text text patch ≡ true
      → after.versions
        ≡ take env_version_keep (
            insert_version
              (new_version stamps authorship row old_text text patch)
              (with_baseline stamps row old_text))
  unfolding commit recorded
  commit-versions-changed h = rw h

  baseline-AreBefore :
      IsAfter stamps.inserted_at row
      → AreBefore stamps.inserted_at (with_baseline stamps row old_text)
  unfolding baseline_version
  baseline-AreBefore h = elim (with_baseline-cases stamps row old_text) [
    | inl same ↦ subst (AreBefore stamps.inserted_at) (sym same) h.1
    | inr (_, one) ↦ subst (AreBefore stamps.inserted_at) (sym one) (h.0, tt)
  ]

  -- After a change, the new version is the first.
  versions-changed :
      IsAfter stamps.inserted_at row
      → is_change row old_text text patch ≡ true
      → after.versions
        ≡ new_version stamps authorship row old_text text patch
          ∷ take 49 (with_baseline stamps row old_text)
  unfolding new_version
  versions-changed later h =
      commit-versions-changed h
      ∙ ap (take env_version_keep) (
          insert_version-newest (new_version stamps authorship row old_text text patch)
            (with_baseline stamps row old_text) (baseline-AreBefore later))

  new_version-Mirrors : Mirrors (new_version stamps authorship row old_text text patch) after
  unfolding new_version commit
  new_version-Mirrors = record { text = refl; flags = λ k b e. e; no_more = omega arith }

  commit-few :
      IsAfter stamps.inserted_at row
      → length row.versions ≤ env_version_keep
      → length after.versions ≤ env_version_keep
  commit-few later h = elim (Bool-cases (is_change row old_text text patch)) [
    | inr e ↦ subst (λ vs. length vs ≤ env_version_keep) (sym (commit-versions-unchanged e)) h
    | inl e ↦
        subst (λ vs. length vs ≤ env_version_keep) (sym (commit-versions-changed e))
          (length-take env_version_keep _)
  ]

  commit-newest :
      IsAfter stamps.inserted_at row
      → NewestMirrors row.versions row
      → NewestMirrors after.versions after
  commit-newest later h = elim (Bool-cases (is_change row old_text text patch)) [
    | inr e ↦
        subst (λ vs. NewestMirrors vs after) (sym (commit-versions-unchanged e))
          (unchanged-NewestMirrors row.versions e h)
    | inl e ↦
        subst (λ vs. NewestMirrors vs after) (sym (versions-changed later e)) new_version-Mirrors
  ]

  pub commit-IsRecorded : IsAfter stamps.inserted_at row → IsRecorded row → IsRecorded after
  unfolding commit
  commit-IsRecorded later r = record {
    keys = sym (keys_of-seal text);
    notes = sym (extract_notes-seal text);
    few = commit-few later r.few;
    newest = commit-newest later r.newest;
  }

  -- The second version is then the content before the change.
  pub commit-previous :
      IsAfter stamps.inserted_at row
      → IsRecorded row
      → is_empty (trim old_text) ≡ false
      → is_change row old_text text patch ≡ true
      → (v : Version) × (w : Version) × (vs : List Version) × (after.versions ≡ v ∷ w ∷ vs)
        × Mirrors v after
        × Mirrors w row
  commit-previous later r full h =
      let (w, ws, e, m) = first_version stamps row full r.newest in
      (
        new_version stamps authorship row old_text text patch,
        w,
        take 48 ws,
        versions-changed later h
            ∙ ap (λ vs. new_version stamps authorship row old_text text patch ∷ take 49 vs) e,
        new_version-Mirrors,
        m,
      )
