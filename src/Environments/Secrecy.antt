-- ===== src/Environments/Secrecy.antt =====
-- What a comparison of environments shows to those who may not read their values (`diff` of
-- src/modules/variable-set/variable-set-environment.service.ts).
use aoox_api.Prelude.{
  ℕ, ◌≡◌, refl, sym, ap, ◌∙◌, Bool, false, ◌&&◌, Option, none, some, [], ◌∷◌, ◌==◌, Text, text_eq,
  Bool-cases, inl, inr,
}
use aoox_api.Access.{RequestContext}
use aoox_api.SetAccess.{SetAccess, may_use_values}
use aoox_api.Environments.{
  Row, Store, environment_not_found, Result, done, ◌>>=◌, require_some, find_row, find_by_name,
}
use aoox_api.Environments.Service.{environment_of}
use aoox_api.Environments.Diff.{EnvironmentDiff, key_diff, diff_rows, diff}

-- The rows are the same for everyone who sees the set, but may have different values.
pub record SameButValues (r q : Row) : Type 0 where
  pub set_id : r.set_id ≡ q.set_id
  pub environment : environment_of r ≡ environment_of q
  pub keys : r.keys ≡ q.keys

abbrev pub AllSameButValues : Store → Store → Type 0
AllSameButValues [] [] = Unit
AllSameButValues (r ∷ rs) (q ∷ qs) = SameButValues r q × AllSameButValues rs qs
AllSameButValues _ _ = ⊥

abbrev pub FoundSame : Option Row → Option Row → Type 0
FoundSame none none = Unit
FoundSame (some r) (some q) = SameButValues r q
FoundSame _ _ = ⊥

-- The test of `findByName`.
abbrev pub named : ℕ → Text → Row → Bool
named set_id name r = r.set_id == set_id && text_eq r.name name

named-same :
    (set_id : ℕ) (name : Text) (r q : Row)
    → SameButValues r q
    → named set_id name r ≡ named set_id name q
named-same set_id name r q h =
    ap (λ i. i == set_id && text_eq r.name name) h.set_id
    ∙ ap (λ e. q.set_id == set_id && text_eq e.name name) h.environment

find_row-FoundSame :
    (set_id : ℕ) (name : Text) (s s' : Store)
    → AllSameButValues s s'
    → FoundSame (find_row (named set_id name) s) (find_row (named set_id name) s')
unfolding find_row
find_row-FoundSame set_id name [] [] h = tt
find_row-FoundSame set_id name [] (q ∷ qs) h = absurd h
find_row-FoundSame set_id name (r ∷ rs) [] h = absurd h
find_row-FoundSame set_id name (r ∷ rs) (q ∷ qs) (h, hs) = elim (Bool-cases (named set_id name q)) [
  | inl e ↦ rw (named-same set_id name r q h ∙ e, e) h
  | inr e ↦ rw (named-same set_id name r q h ∙ e, e) (find_row-FoundSame set_id name rs qs hs)
]

-- The caller may not use the values of both rows.
abbrev pub NotBoth : Option RequestContext → SetAccess → Option Row → Option Row → Type 0
NotBoth ctx access (some r) (some q) =
    (may_use_values ctx access (environment_of r) && may_use_values ctx access (environment_of q))
    ≡ false
NotBoth ctx access _ _ = Unit

-- The end of `diff`, from what the two queries find.
compared : Option RequestContext → SetAccess → Option Row → Option Row → Result EnvironmentDiff
compared ctx access o p = require_some o environment_not_found >>= λ from.
    require_some p environment_not_found >>= λ to. done (
      diff_rows
        (may_use_values ctx access (environment_of from)
          && may_use_values ctx access (environment_of to))
        from to)

diff_rows-same :
    (ctx : Option RequestContext) (access : SetAccess) (r q r' q' : Row)
    → SameButValues r r'
    → SameButValues q q'
    → (may_use_values ctx access (environment_of r) && may_use_values ctx access (environment_of q))
      ≡ false
    → diff_rows
        (may_use_values ctx access (environment_of r)
          && may_use_values ctx access (environment_of q))
        r
        q
      ≡ diff_rows
          (may_use_values ctx access (environment_of r')
            && may_use_values ctx access (environment_of q'))
          r'
          q'
unfolding diff_rows
diff_rows-same ctx access r q r' q' h k refused =
    let refused' =
      ap (λ e. may_use_values ctx access e && may_use_values ctx access (environment_of q'))
        (sym h.environment)
      ∙ ap (λ e. may_use_values ctx access (environment_of r) && may_use_values ctx access e)
          (sym k.environment)
      ∙ refused in
    ap (λ b. diff_rows b r q) refused
    ∙ ap (λ ks. key_diff ks q.keys) h.keys
    ∙ ap (λ ks. key_diff r'.keys ks) k.keys
    ∙ ap (λ b. diff_rows b r' q') (sym refused')

compared-same :
    (ctx : Option RequestContext) (access : SetAccess) (o p o' p' : Option Row)
    → FoundSame o o'
    → FoundSame p p'
    → NotBoth ctx access o p
    → compared ctx access o p ≡ compared ctx access o' p'
unfolding compared
compared-same ctx access none p none p' h k n = refl
compared-same ctx access none p (some q) p' h k n = absurd h
compared-same ctx access (some r) p none p' h k n = absurd h
compared-same ctx access (some r) none (some r') none h k n = refl
compared-same ctx access (some r) none (some r') (some q') h k n = absurd k
compared-same ctx access (some r) (some q) (some r') none h k n = absurd k
compared-same ctx access (some r) (some q) (some r') (some q') h k n =
    ap done (diff_rows-same ctx access r q r' q' h k n)

-- For a caller who may not use the values of both environments, `diff` answers the same on any two
-- tables that differ in the values, flags, notes and histories of environments only, so that it shows
-- nothing of the values.
pub diff-hides :
    (ctx : Option RequestContext) (access : SetAccess) (set_id : ℕ) (from_name to_name : Text)
    (s s' : Store)
    → AllSameButValues s s'
    → NotBoth ctx access (find_row (named set_id from_name) s) (find_row (named set_id to_name) s)
    → diff ctx (some access) set_id from_name to_name s
      ≡ diff ctx (some access) set_id from_name to_name s'
unfolding diff find_by_name compared
diff-hides ctx access set_id from_name to_name s s' h n =
    compared-same ctx access (find_row (named set_id from_name) s)
      (find_row (named set_id to_name) s) (find_row (named set_id from_name) s')
      (find_row (named set_id to_name) s') (find_row-FoundSame set_id from_name s s' h)
      (find_row-FoundSame set_id to_name s s' h) n
