-- ===== src/Environments/Refinement.antt =====
-- `promote` implements the copying of values between environments
-- (src/modules/variable-set/variable-set-environment.service.ts).
use aoox_api.Prelude.{
  sym, ap, ◌∙◌, inl, inr, some, Bool-cases, ==_iff, ℕ, ◌≡◌, true, not, ◌&&◌, Option, List, length,
  if◌then◌else◌, ◌==◌, Text, map_get, All, includes, is_some,
}
use aoox_api.Access.{RequestContext}
use aoox_api.SetAccess.{SetAccess}
use aoox_api.EnvText.{env_map, is_env_name}
use aoox_api.EnvText.Validate.{unique}
use aoox_api.Environments.{
  Row, Store, text_of, Actor, done, same_environment, no_keys, not_set, find_in_set, find_row,
}
use aoox_api.Environments.Commit.{Stamps, Expected, Saved}
use aoox_api.Environments.Service.{guard_values}
use aoox_api.Environments.Promote.{promoted_row, missing_keys, promote}
use aoox_api.Environments.Steps.{bind-done, require-done, IsWrite, transact-IsWrite}
use aoox_api.Environments.Rows.{at, find_in_set-find_row, IsKept, IsWrite-IsKept, value_in, values}
use aoox_api.Environments.Promotion.{
  keep-present, guard_values-done, promoted_row-done, promoted_row-values,
}

-- The abstract operation, on the values of all environments of a set.
abbrev pub copied : List Text → ℕ → ℕ → (ℕ → Text → Option Text) → ℕ → Text → Option Text
copied keys source target before env k =
    if env == target && includes keys k then before source k else before env k

-- What an accepted `promote` did.
record IsPromotion (stamps : Stamps) (actor : Actor) (set_id target_id source_id : ℕ)
    (keys : List Text) (expected : Expected) (store store' : Store) (saved : Saved) : Type 0 where
  source : Row
  found : find_in_set source_id set_id store ≡ done source
  present : All (λ j. is_some (map_get j (env_map (text_of source.content))) ≡ true) keys
  write :
      IsWrite store set_id target_id expected (promoted_row stamps actor source keys) store' saved

module _ (ctx : Option RequestContext) (load : Option SetAccess) (stamps : Stamps) (actor : Actor)
    (set_id target_id source_id : ℕ) (keys : List Text) (expected : Expected) (store store' : Store)
    (saved : Saved) where
  promote-IsPromotion :
      promote ctx load stamps actor set_id target_id source_id keys expected store
        ≡ done (store', saved)
      → IsPromotion stamps actor set_id target_id source_id
          (unique keys)
          expected
          store
          store'
          saved
  unfolding promote
  promote-IsPromotion h =
      let out : Store × Saved = (store', saved) in
      let (_, h1) = require-done (not (source_id == target_id)) same_environment _ out h in
      let (_, h2) = require-done (not (length (unique keys) == 0)) no_keys _ out h1 in
      let (source, g, h3) = bind-done (guard_values ctx load set_id source_id store) _ out h2 in
      let (target, _, h4) = bind-done (guard_values ctx load set_id target_id store) _ out h3 in
      let missing = missing_keys (env_map (text_of source.content)) (unique keys) in
      let (all, h5) = require-done (length missing == 0) (not_set missing) _ out h4 in
      record {
        source = source;
        found = guard_values-done ctx load set_id source_id store source g;
        present = keep-present (env_map (text_of source.content)) (unique keys) all;
        write =
            transact-IsWrite store set_id target_id expected
              (promoted_row stamps actor source (unique keys)) store' saved h5;
      }

module _ (set_id target_id source_id : ℕ) (keys : List Text) (store store' : Store)
    (source env row : Row) where
  copied_values :
      find_row (at source_id set_id) store ≡ some source
      → find_row (at target_id set_id) store ≡ some env
      → IsKept store store' set_id target_id row
      → ((k : Text)
          → value_in (some row) k
            ≡ (if includes keys k then value_in (some source) k else value_in (some env) k))
      → (e : ℕ) (k : Text)
      → values store' set_id e k ≡ copied keys source_id target_id (values store set_id) e k
  unfolding values
  copied_values s t kept v e k = elim (Bool-cases (e == target_id)) [
    | inr other ↦
        ap (λ o. value_in o k) (kept.others e other)
        ∙ ap
            (λ b.
              if b && includes keys k
              then value_in (find_row (at source_id set_id) store) k
              else value_in (find_row (at e set_id) store) k)
            (sym other)
    | inl same ↦
        let eq : e ≡ target_id = (==_iff e target_id).0 same in
        ap (λ a. value_in (find_row (at a set_id) store') k) eq
        ∙ ap (λ o. value_in o k) kept.saved
        ∙ v k
        ∙ ap (λ o. if includes keys k then value_in o k else value_in (some env) k) (sym s)
        ∙ ap (λ o. if includes keys k then values store set_id source_id k else value_in o k)
            (sym t)
        ∙ ap
            (λ a.
              if includes keys k then values store set_id source_id k else values store set_id a k)
            (sym eq)
        ∙ ap
            (λ b.
              if b && includes keys k
              then values store set_id source_id k
              else values store set_id e k)
            (sym same)
  ]

-- After an accepted `promote` of names that `ENV_NAME` matches, each chosen name has in the target the
-- value that it has in the source, and every other name of the target, and every name of every other
-- environment of the set, has the value it had, whatever else the texts have, and whatever the rows,
-- the stamps and the caller are.
pub promote-copied :
    (ctx : Option RequestContext) (load : Option SetAccess) (stamps : Stamps) (actor : Actor)
    (set_id target_id source_id : ℕ) (keys : List Text) (expected : Expected) (store store' : Store)
    (saved : Saved)
    → promote ctx load stamps actor set_id target_id source_id keys expected store
      ≡ done (store', saved)
    → All (λ j. is_env_name j ≡ true) (unique keys)
    → (e : ℕ) (k : Text)
    → values store' set_id e k ≡ copied (unique keys) source_id target_id (values store set_id) e k
promote-copied ctx load stamps actor set_id target_id source_id keys expected store store' saved h
      names e k =
    let p =
      promote-IsPromotion ctx load stamps actor set_id target_id source_id keys expected store
        store' saved h in
    let w = p.write in
    let (text, _, _, id, set) =
      promoted_row-done stamps actor p.source (unique keys) w.row (text_of w.row.content) saved
        w.wrote in
    copied_values set_id target_id source_id (unique keys) store store' p.source w.row saved.row
      (find_in_set-find_row source_id set_id store p.source p.found)
      (find_in_set-find_row target_id set_id store w.row w.found)
      (IsWrite-IsKept store store' set_id target_id expected
        (promoted_row stamps actor p.source (unique keys)) saved w id set)
      (promoted_row-values stamps actor p.source (unique keys) w.row saved w.wrote names p.present)
      e k
