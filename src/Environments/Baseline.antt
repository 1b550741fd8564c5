-- ===== src/Environments/Baseline.antt =====
-- The baseline version that `commit` stores before the first change
-- (src/modules/variable-set/variable-set-environment.service.ts).
use aoox_api.Prelude.{
  ◌≡◌, refl, ap, ◌⊎◌, inl, inr, true, false, not, ◌&&◌, List, [], ◌∷◌, length, arith, ◌==◌, Text,
  is_empty, trim, Bool-cases,
}
use aoox_api.Environments.{text_of, Version, Row}
use aoox_api.Environments.Commit.{Stamps, insert_version, baseline_version, with_baseline}
use aoox_api.Environments.History.{Mirrors, NewestMirrors}

no_versions : (vs : List Version) → (length vs == 0) ≡ true → vs ≡ []
no_versions [] h = refl
no_versions (v ∷ vs) h = ground arith

pub with_baseline-cases :
    (stamps : Stamps) (row : Row) (old : Text)
    → (with_baseline stamps row old ≡ row.versions)
      ⊎ ((row.versions ≡ [])
          × (with_baseline stamps row old ≡ baseline_version stamps row old ∷ []))
unfolding with_baseline insert_version
with_baseline-cases stamps row old =
    elim (Bool-cases (length row.versions == 0 && not (is_empty (trim old)))) [
      | inr e ↦ inl (rw e)
      | inl e ↦
          let none_yet = no_versions row.versions (ground arith) in
          inr (none_yet, rw e (ap (insert_version (baseline_version stamps row old)) none_yet))
    ]

-- A row that is not blank has its own content as the first version before a change.
abbrev pub FirstMirrors : List Version → Row → Type 0
FirstMirrors versions row =
    (w : Version) × (ws : List Version) × (versions ≡ w ∷ ws) × Mirrors w row

newest_version :
    (vs : List Version) (row : Row)
    → (length vs == 0) ≡ false
    → NewestMirrors vs row
    → FirstMirrors vs row
newest_version [] row h m = cc
newest_version (v ∷ vs) row h m = (v, vs, refl, m)

pub baseline_version-Mirrors :
    (stamps : Stamps) (row : Row) → Mirrors (baseline_version stamps row (text_of row.content)) row
unfolding baseline_version
baseline_version-Mirrors stamps row = record {
  text = refl;
  flags = λ k b e. e;
  no_more = omega arith;
}

pub first_version :
    (stamps : Stamps) (row : Row)
    → is_empty (trim (text_of row.content)) ≡ false
    → NewestMirrors row.versions row
    → FirstMirrors (with_baseline stamps row (text_of row.content)) row
unfolding with_baseline insert_version
first_version stamps row full m = elim (Bool-cases (length row.versions == 0)) [
  | inr e ↦ let (w, ws, f, k) = newest_version row.versions row e m in (w, ws, rw (e) f, k)
  | inl e ↦ (
    baseline_version stamps row (text_of row.content),
    [],
    rw (e, full)
        (ap (insert_version (baseline_version stamps row (text_of row.content)))
          (no_versions row.versions e)),
    baseline_version-Mirrors stamps row,
  )
]
