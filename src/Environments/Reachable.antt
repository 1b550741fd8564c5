-- ===== src/Environments/Reachable.antt =====
-- What holds of the environments after any operations
-- (src/modules/variable-set/variable-set-environment.service.ts).
use aoox_api.Prelude.{
  ℕ, ◌≡◌, ◌≤◌, length, sym, ap, ◌∙◌, subst, true, false, Bool, some, List, [], ◌∷◌, ◌++◌, keep,
  arith, ◌==◌, is_empty, trim, All, some-injective, Bool-cases, inl, inr,
}
use aoox_api.Environments.{Row, Store, Version, text_of, find_row, put_row}
use aoox_api.Environments.Commit.{Stamps, Expected, Saved, is_change, env_version_keep}
use aoox_api.Environments.Rows.{at, find_in_set-find_row}
use aoox_api.Environments.Commits.{IsCommit}
use aoox_api.Environments.History.{Mirrors, NewestMirrors}
use aoox_api.Environments.Recorded.{IsRecorded, IsAfter, commit-IsRecorded, commit-previous}
use aoox_api.Environments.Runs.{
  Runs, here, next, IsFresh, Effect, committed, inserted, deleted, Step-Effect,
}

-- The versions are inserted later than all that is stored.
abbrev pub IsLater : Stamps → Store → Type 0
IsLater stamps = All (IsAfter stamps.inserted_at)

module _ (P : Row → Type 0) where
  All-put_row : (row : Row) (s : Store) → P row → All P s → All P (put_row row s)
  unfolding put_row
  All-put_row row [] p h = tt
  All-put_row row (r ∷ rs) p (h, hs) = elim (Bool-cases (r.id == row.id)) [
    | inl e ↦ rw e (p, All-put_row row rs p hs)
    | inr e ↦ rw e (h, All-put_row row rs p hs)
  ]

  All-append : (row : Row) (s : Store) → P row → All P s → All P (s ++ (row ∷ []))
  All-append row [] p h = (p, tt)
  All-append row (r ∷ rs) p (h, hs) = (h, All-append row rs p hs)

  All-keep : (q : Row → Bool) (s : Store) → All P s → All P (keep q s)
  All-keep q [] h = tt
  All-keep q (r ∷ rs) (h, hs) = elim (Bool-cases (q r)) [
    | inl e ↦ rw e (h, All-keep q rs hs)
    | inr e ↦ rw e (All-keep q rs hs)
  ]

  All-find_row : (q : Row → Bool) (s : Store) (r : Row) → find_row q s ≡ some r → All P s → P r
  unfolding find_row
  All-find_row q [] r e h = cc
  All-find_row q (x ∷ xs) r e (h, hs) = elim (Bool-cases (q x)) [
    | inl f ↦ subst P (some-injective _ _ (sym (rw (f, find_row)) ∙ e)) h
    | inr f ↦ All-find_row q xs r (sym (rw (f, find_row)) ∙ e) hs
  ]

IsFresh-IsRecorded : (now : ℕ) (row : Row) → IsFresh now row → IsRecorded row
IsFresh-IsRecorded now row f = record {
  keys = f.keys;
  notes = f.notes;
  few = subst (λ vs. length vs ≤ env_version_keep) (sym f.versions) (omega arith);
  newest = subst (λ vs. NewestMirrors vs row) (sym f.versions) tt;
}

module _ (stamps : Stamps) (set_id env_id : ℕ) (expected : Expected) (s s' : Store) (saved : Saved)
    (c : IsCommit stamps set_id env_id expected s s' saved) where
  found_row : (P : Row → Type 0) → All P s → P c.row
  found_row P h =
      All-find_row P (at env_id set_id) s c.row (find_in_set-find_row env_id set_id s c.row c.found)
        h

  committed-IsRecorded : IsLater stamps s → All IsRecorded s → All IsRecorded s'
  committed-IsRecorded later h =
      let row =
        commit-IsRecorded stamps c.authorship c.row c.text c.patch
          (found_row (IsAfter stamps.inserted_at) later) (found_row IsRecorded h) in
      subst (All IsRecorded) (sym c.table)
        (All-put_row IsRecorded saved.row s (subst IsRecorded (sym c.wrote) row) h)

step-IsRecorded : (s s' : Store) → Effect IsLater s s' → All IsRecorded s → All IsRecorded s'
step-IsRecorded s s' (committed stamps set_id env_id expected saved later c) h =
    committed-IsRecorded stamps set_id env_id expected s s' saved c later h
step-IsRecorded s s' (inserted stamps row later fresh table) h =
    subst (All IsRecorded) (sym table)
      (All-append IsRecorded row s (IsFresh-IsRecorded stamps.saved_at row fresh) h)
step-IsRecorded s s' (deleted env_id set_id table) h =
    subst (All IsRecorded) (sym table) (All-keep IsRecorded _ s h)

-- From a table without environments, after any accepted updates, restores, promotes, creations and
-- removals and any imports of whatever texts, where each of them but a removal inserts its versions later
-- than all that is stored then: the keys and notes of every environment are those of its text, it has
-- at most 50 versions, and if it has any then the newest has its text, but for line endings and white
-- space at the end, and exactly its flags.
pub Runs-IsRecorded : (s : Store) → Runs IsLater [] s → All IsRecorded s
Runs-IsRecorded _ here = tt
Runs-IsRecorded _ (next s s' runs step) =
    step-IsRecorded s s' (Step-Effect IsLater s s' step) (Runs-IsRecorded s runs)

-- In a table that such operations have made from one without environments, a write that is accepted later than all that is stored, whoever makes it and
-- however, and that changes the text or the flags of an environment that is not blank, leaves the
-- content it replaces as the second of the versions, behind its own.
pub committed-previous :
    (stamps : Stamps) (set_id env_id : ℕ) (expected : Expected) (s s' : Store) (saved : Saved)
    (c : IsCommit stamps set_id env_id expected s s' saved)
    → Runs IsLater [] s
    → IsLater stamps s
    → is_empty (trim (text_of c.row.content)) ≡ false
    → is_change c.row (text_of c.row.content) c.text c.patch ≡ true
    → (v : Version) × (w : Version) × (vs : List Version) × (saved.row.versions ≡ v ∷ w ∷ vs)
      × Mirrors v saved.row
      × Mirrors w c.row
committed-previous stamps set_id env_id expected s s' saved c runs later full change =
    let found = found_row stamps set_id env_id expected s s' saved c in
    let (v, w, vs, e, m, n) =
      commit-previous stamps c.authorship c.row c.text c.patch
        (found (IsAfter stamps.inserted_at) later) (found IsRecorded (Runs-IsRecorded s runs)) full
        change in
    (v, w, vs, ap (λ r. r.versions) c.wrote ∙ e, subst (Mirrors v) (sym c.wrote) m, n)
