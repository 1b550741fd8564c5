-- ===== src/Environments/Rows.antt =====
-- Finding rows after a write (src/modules/variable-set/variable-set-environment.service.ts).
use aoox_api.Prelude.{
  ℕ, ◌≡◌, refl, sym, ap, ◌∙◌, inl, inr, Bool, true, false, ◌&&◌, Option, none, some, [], ◌∷◌, arith,
  ◌==◌, Text, map_get, some-injective, Bool-cases,
}
use aoox_api.EnvText.{env_map}
use aoox_api.Environments.{
  Result, text_of, Row, Store, Failure, done, require_some, find_row, find_in_set, put_row,
}
use aoox_api.Environments.Commit.{Expected, Saved}
use aoox_api.Environments.Steps.{IsWrite}

-- The test of `findOne` by the two ids.
abbrev pub at : ℕ → ℕ → Row → Bool
at env_id set_id r = r.id == env_id && r.set_id == set_id

pub find_row-true :
    (p : Row → Bool) (store : Store) (r : Row) → find_row p store ≡ some r → p r ≡ true
unfolding find_row
find_row-true p [] r h = cc
find_row-true p (x ∷ xs) r h = elim (Bool-cases (p x)) [
  | inl e ↦ ap p (sym (some-injective _ _ (sym (rw (e, find_row)) ∙ h))) ∙ e
  | inr e ↦ find_row-true p xs r (sym (rw (e, find_row)) ∙ h)
]

require_some-some :
    (o : Option Row) (e : Failure) (r : Row) → require_some o e ≡ done r → o ≡ some r
require_some-some none e r h = cc
require_some-some (some x) e r h = cc

pub find_in_set-find_row :
    (env_id set_id : ℕ) (store : Store) (r : Row)
    → find_in_set env_id set_id store ≡ done r
    → find_row (at env_id set_id) store ≡ some r
unfolding find_in_set
find_in_set-find_row env_id set_id store r h = require_some-some _ _ r h

module _ (row : Row) (set_id : ℕ) where
  -- A row with another id is found as before.
  pub find_row-put_row-other :
      (env_id : ℕ) (store : Store)
      → (row.id == env_id) ≡ false
      → find_row (at env_id set_id) (put_row row store) ≡ find_row (at env_id set_id) store
  unfolding find_row put_row
  find_row-put_row-other env_id [] h = refl
  find_row-put_row-other env_id (x ∷ xs) h = ground (arith, find_row-put_row-other env_id xs)

  -- With the row's own id, only the row can be found.
  pub find_row-put_row-id :
      (r : Row) (store : Store) → find_row (at row.id set_id) (put_row row store) ≡ some r → row ≡ r
  unfolding find_row put_row
  find_row-put_row-id r [] h = cc
  find_row-put_row-id r (x ∷ xs) h = ground (arith, find_row-put_row-id r xs)

pub find_row-put_row :
    (row : Row) (store : Store) (r : Row)
    → find_row (at row.id row.set_id) store ≡ some r
    → find_row (at row.id row.set_id) (put_row row store) ≡ some row
unfolding find_row put_row
find_row-put_row row [] r h = cc
find_row-put_row row (x ∷ xs) r h = ground (arith, find_row-put_row row xs r)

-- The value of a name in an environment of a set: what the table means.
abbrev pub value_in : Option Row → Text → Option Text
value_in none k = none
value_in (some r) k = map_get k (env_map (text_of r.content))

unfoldable pub values : Store → ℕ → ℕ → Text → Option Text
values store set_id env_id = value_in (find_row (at env_id set_id) store)

-- After a write that keeps the ids of its row.
pub record IsKept (store store' : Store) (set_id env_id : ℕ) (row : Row) : Type 0 where
  pub saved : find_row (at env_id set_id) store' ≡ some row
  pub others :
      (e : ℕ) → (e == env_id) ≡ false → find_row (at e set_id) store' ≡ find_row (at e set_id) store

at-ids :
    (env_id set_id : ℕ) (r : Row)
    → at env_id set_id r ≡ true
    → (r.id ≡ env_id) × (r.set_id ≡ set_id)
at-ids env_id set_id r h = (ground arith, ground arith)

eq_comm : (a b : ℕ) → (a == b) ≡ false → (b == a) ≡ false
eq_comm a b h = ground arith

pub IsWrite-IsKept :
    (store store' : Store) (set_id env_id : ℕ) (expected : Expected)
    (fn : Row → Text → Result Saved) (saved : Saved)
    (w : IsWrite store set_id env_id expected fn store' saved)
    → saved.row.id ≡ w.row.id
    → saved.row.set_id ≡ w.row.set_id
    → IsKept store store' set_id env_id saved.row
IsWrite-IsKept store store' set_id env_id expected fn saved w i j =
    let found = find_in_set-find_row env_id set_id store w.row w.found in
    let ids = at-ids env_id set_id w.row (find_row-true (at env_id set_id) store w.row found) in
    let id = i ∙ ids.0 in
    let set = j ∙ ids.1 in
    let found' : find_row (at saved.row.id saved.row.set_id) store ≡ some w.row =
      ap (λ a. find_row (at a saved.row.set_id) store) id
      ∙ ap (λ b. find_row (at env_id b) store) set
      ∙ found in
    record {
      saved =
          ap (find_row (at env_id set_id)) w.table
          ∙ ap (λ a. find_row (at a set_id) (put_row saved.row store)) (sym id)
          ∙ ap (λ b. find_row (at saved.row.id b) (put_row saved.row store)) (sym set)
          ∙ find_row-put_row saved.row store w.row found';
      others = λ e h.
          ap (find_row (at e set_id)) w.table
          ∙ find_row-put_row-other saved.row set_id e store
              (ap (λ a. a == e) id ∙ eq_comm e env_id h);
    }
