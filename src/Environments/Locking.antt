-- ===== src/Environments/Locking.antt =====
-- Optimistic writes of environments (src/modules/variable-set/variable-set-environment.service.ts):
-- what was written in between is never overwritten unseen.
use aoox_api.Prelude.{
  ℕ, ◌≡◌, ◌≢◌, refl, sym, ap, ◌∙◌, ◌⊎◌, inl, inr, Bool, true, false, ◌&&◌, Option, none, some, [],
  ◌∷◌, ◌++◌, arith, ◌==◌, ==_iff, Text, some-injective, Bool-cases,
}
use aoox_api.Access.{RequestContext}
use aoox_api.SetAccess.{SetAccess}
use aoox_api.EnvText.Flags.{FlagPatch}
use aoox_api.Environments.{Row, Store, Actor, Action, text_of, done, find_row, put_row}
use aoox_api.Environments.Commit.{Stamps, Expected, changed_at, Saved, commit}
use aoox_api.Environments.Service.{Reveal, reveal, update, guard_values}
use aoox_api.Environments.Manage.{without_row}
use aoox_api.Environments.Steps.{bind-done, done-injective}
use aoox_api.Environments.Rows.{
  at, find_in_set-find_row, find_row-put_row-other, find_row-put_row-id,
}
use aoox_api.Environments.Commits.{IsCommit, update-IsCommit}
use aoox_api.Environments.Promotion.{guard_values-done}
use aoox_api.Environments.Runs.{Runs, here, next, Effect, committed, inserted, deleted, Step-Effect}

-- No save has the stamp.
abbrev pub Avoids : ℕ → Stamps → Store → Type 0
Avoids t stamps store = stamps.saved_at ≢ t

find_row-append :
    (p : Row → Bool) (s : Store) (x r : Row)
    → find_row p (s ++ (x ∷ [])) ≡ some r
    → (find_row p s ≡ some r) ⊎ (x ≡ r)
unfolding find_row
find_row-append p [] x r h = ground arith
find_row-append p (y ∷ ys) x r h = ground (arith, find_row-append p ys x r)

find_row-without-other :
    (e set e' set' : ℕ) (s : Store)
    → (e == e' && set == set') ≡ false
    → find_row (at e set) (without_row e' set' s) ≡ find_row (at e set) s
unfolding find_row
find_row-without-other e set e' set' [] h = refl
find_row-without-other e set e' set' (x ∷ xs) h =
    ground (arith, find_row-without-other e set e' set' xs)

find_row-without : (e set : ℕ) (s : Store) → find_row (at e set) (without_row e set s) ≡ none
unfolding find_row
find_row-without e set [] = refl
find_row-without e set (x ∷ xs) = ground (arith, find_row-without e set xs)

find_row-without-same :
    (e set e' set' : ℕ) (s : Store)
    → (e == e' && set == set') ≡ true
    → find_row (at e set) (without_row e' set' s) ≡ none
find_row-without-same e set e' set' s h =
    let i : e' ≡ e = ground arith in
    let j : set' ≡ set = ground arith in
    ap (λ a. find_row (at e set) (without_row a set' s)) i
    ∙ ap (λ b. find_row (at e set) (without_row e b s)) j
    ∙ find_row-without e set s

none≢some : (r : Row) → none ≢ some r
none≢some r e = cc

-- Backwards: a row with the stamp was there before.
module _ (t e set : ℕ) (r : Row) where
  committed-before :
      (stamps : Stamps) (set' e' : ℕ) (expected : Expected) (s s' : Store) (saved : Saved)
      → stamps.saved_at ≢ t
      → IsCommit stamps set' e' expected s s' saved
      → find_row (at e set) s' ≡ some r
      → r.updated_at ≡ t
      → find_row (at e set) s ≡ some r
  unfolding commit
  committed-before stamps set' e' expected s s' saved avoids c found stamp =
      let found' = ap (find_row (at e set)) (sym c.table) ∙ found in
      elim (Bool-cases (saved.row.id == e)) [
        | inr other ↦ sym (find_row-put_row-other saved.row set e s other) ∙ found'
        | inl same ↦
            let id = (==_iff saved.row.id e).0 same in
            let row =
              find_row-put_row-id saved.row set r s
                (ap (λ a. find_row (at a set) (put_row saved.row s)) id ∙ found') in
            absurd
              (avoids (sym (ap (λ q. q.updated_at) c.wrote) ∙ ap (λ q. q.updated_at) row ∙ stamp))
      ]

  deleted-before :
      (e' set' : ℕ) (s : Store)
      → find_row (at e set) (without_row e' set' s) ≡ some r
      → find_row (at e set) s ≡ some r
  deleted-before e' set' s found = elim (Bool-cases (e == e' && set == set')) [
    | inr other ↦ sym (find_row-without-other e set e' set' s other) ∙ found
    | inl same ↦ absurd (none≢some r (sym (find_row-without-same e set e' set' s same) ∙ found))
  ]

  Effect-before :
      (s s' : Store)
      → Effect (Avoids t) s s'
      → find_row (at e set) s' ≡ some r
      → r.updated_at ≡ t
      → find_row (at e set) s ≡ some r
  Effect-before s s' (committed stamps set' e' expected saved avoids c) found stamp =
      committed-before stamps set' e' expected s s' saved avoids c found stamp
  Effect-before s s' (inserted stamps row avoids fresh table) found stamp =
      elim (find_row-append (at e set) s _ r (ap (find_row (at e set)) (sym table) ∙ found)) [
        | inl before ↦ before
        | inr new ↦ absurd (avoids (sym fresh.saved ∙ ap (λ q. q.updated_at) new ∙ stamp))
      ]
  Effect-before s s' (deleted e' set' table) found stamp =
      deleted-before e' set' s (ap (find_row (at e set)) (sym table) ∙ found)

  Runs-before :
      (s s' : Store)
      → Runs (Avoids t) s s'
      → find_row (at e set) s' ≡ some r
      → r.updated_at ≡ t
      → find_row (at e set) s ≡ some r
  Runs-before s _ here found stamp = found
  Runs-before s _ (next s' s'' runs step) found stamp =
      Runs-before s s' runs (Effect-before s' s'' (Step-Effect (Avoids t) s' s'' step) found stamp)
        stamp

-- What `reveal` shows of a row.
reveal-row :
    (ctx : Option RequestContext) (load : Option SetAccess) (set_id env_id : ℕ) (s : Store)
    (seen : Reveal)
    → reveal ctx load set_id env_id s ≡ done seen
    → (row : Row) × (find_row (at env_id set_id) s ≡ some row)
      × (seen.variables ≡ text_of row.content)
      × (seen.updated_at ≡ row.updated_at)
unfolding reveal
reveal-row ctx load set_id env_id s seen h =
    let (row, g, h1) = bind-done (guard_values ctx load set_id env_id s) _ seen h in
    let same = done-injective _ _ h1 in
    (
      row,
      find_in_set-find_row env_id set_id s row (guard_values-done ctx load set_id env_id s row g),
      sym (ap (λ v. v.variables) same),
      sym (ap (λ v. v.updated_at) same),
    )

-- A caller reveals an environment. Then any accepted operations follow, by anyone, whose saves all
-- have other stamps than the revealed one. If an update that expects the revealed stamp is accepted
-- after them, the row that it replaces is the row that was revealed, with the text that was shown.
pub update-sees :
    (ctx ctx' : Option RequestContext) (load load' : Option SetAccess) (set_id env_id : ℕ)
    (s s' s'' : Store) (seen : Reveal) (stamps : Stamps) (actor : Actor) (action : Action)
    (patch : FlagPatch) (variables : Text) (saved : Saved)
    → reveal ctx load set_id env_id s ≡ done seen
    → Runs (Avoids seen.updated_at) s s'
    → update ctx' load' stamps actor action patch set_id env_id variables
        (changed_at seen.updated_at)
        s'
      ≡ done (s'', saved)
    → (row : Row) × (find_row (at env_id set_id) s ≡ some row)
      × (find_row (at env_id set_id) s' ≡ some row)
      × (text_of row.content ≡ seen.variables)
update-sees ctx ctx' load load' set_id env_id s s' s'' seen stamps actor action patch variables
      saved revealed runs accepted =
    let c =
      update-IsCommit ctx' load' stamps actor set_id env_id (changed_at seen.updated_at) s' s''
        saved action patch variables accepted in
    let found' = find_in_set-find_row env_id set_id s' c.row c.found in
    let stamp : c.row.updated_at ≡ seen.updated_at = (==_iff _ _).0 c.unchanged in
    let before = Runs-before seen.updated_at env_id set_id c.row s s' runs found' stamp in
    let (row, found, text, _) = reveal-row ctx load set_id env_id s seen revealed in
    let same = some-injective _ _ (sym found ∙ before) in
    (c.row, before, found', sym (ap (λ r. text_of r.content) same) ∙ sym text)
