-- ===== src/Environments/Steps.antt =====
-- What follows from the result of an operation, and what `seal` keeps of a text
-- (src/modules/variable-set/variable-set-environment.service.ts).
use aoox_api.Prelude.{
  ℕ, ◌≡◌, refl, sym, ap, ◌∙◌, ◌⊎◌, inl, inr, Bool, true, false, Option, none, some, [], ◌∷◌, arith,
  Text, is_empty, trim, Bool-cases, map_from, map,
}
use aoox_api.EnvText.{parse_env_lines, env_map}
use aoox_api.EnvText.Notes.{extract_notes}
use aoox_api.EnvText.Validate.{keys_of, unique}
use aoox_api.EnvText.Blank.{
  IsBlank, trim-IsBlank, IsBlank-trim_end, parse_env_lines-IsBlank, extract_notes-IsBlank,
}
use aoox_api.Environments.{
  seal, text_of, Row, Store, Failure, Result, done, failed, ◌>>=◌, ◌>>◌, require, require_some,
  require_none, find_in_set, put_row,
}
use aoox_api.Environments.Commit.{
  without_returns, normalize_text, Expected, matches, is_date, Saved, transact,
}

pub bind-done :
    {A B : Type 0} (m : Result A) (f : A → Result B) (b : B)
    → (m >>= f) ≡ done b
    → (a : A) × (m ≡ done a) × (f a ≡ done b)
bind-done (done a) f b h = (a, refl, h)
bind-done (failed e) f b h = cc

pub require-done :
    {B : Type 0} (ok : Bool) (e : Failure) (k : Result B) (b : B)
    → (require ok e >> k) ≡ done b
    → (ok ≡ true) × (k ≡ done b)
require-done true e k b h = (refl, h)
require-done false e k b h = cc

pub require_none-done :
    {A B : Type 0} (o : Option A) (e : A → Failure) (k : Result B) (b : B)
    → (require_none o e >> k) ≡ done b
    → (o ≡ none) × (k ≡ done b)
require_none-done none e k b h = (refl, h)
require_none-done (some a) e k b h = cc

pub require_some-done :
    {A B : Type 0} (o : Option A) (e : Failure) (f : A → Result B) (b : B)
    → (require_some o e >>= f) ≡ done b
    → (a : A) × (o ≡ some a) × (f a ≡ done b)
require_some-done none e f b h = cc
require_some-done (some a) e f b h = (a, refl, h)

pub done-injective : {A : Type 0} (a b : A) → done a ≡ done b → a ≡ b
done-injective a b h = cc

-- What an accepted write found and saved.
pub record IsWrite (store : Store) (set_id env_id : ℕ) (expected : Expected)
    (fn : Row → Text → Result Saved) (store' : Store) (saved : Saved) : Type 0 where
  pub row : Row
  pub found : find_in_set env_id set_id store ≡ done row
  pub unchanged : matches expected row ≡ true
  pub wrote : fn row (text_of row.content) ≡ done saved
  pub table : store' ≡ put_row saved.row store

pub transact-IsWrite :
    (store : Store) (set_id env_id : ℕ) (expected : Expected) (fn : Row → Text → Result Saved)
    (store' : Store) (saved : Saved)
    → transact store set_id env_id expected fn ≡ done (store', saved)
    → IsWrite store set_id env_id expected fn store' saved
unfolding transact
transact-IsWrite store set_id env_id expected fn store' saved h =
    let (dated, h1) = require-done (is_date expected) _ _ (store', saved) h in
    let (row, found, h2) = bind-done (find_in_set env_id set_id store) _ (store', saved) h1 in
    let (unchanged, h3) = require-done (matches expected row) _ _ (store', saved) h2 in
    let (out, wrote, h4) = bind-done (fn row (text_of row.content)) _ (store', saved) h3 in
    let same : (put_row out.row store, out) ≡ (store', saved) = done-injective _ _ h4 in
    record {
      row = row;
      found = found;
      unchanged = unchanged;
      wrote = wrote ∙ ap (λ p. done p.1) same;
      table = sym (ap (λ p. p.0) same) ∙ ap (λ p. put_row p.1.row store) same;
    }

without_returns-IsBlank : (s : Text) → IsBlank s → IsBlank (without_returns s)
unfolding without_returns
without_returns-IsBlank [] h = refl
without_returns-IsBlank (c ∷ s) h = ground (arith, without_returns-IsBlank s)

module _ (text : Text) where
  seal-cases : (seal text ≡ some text) ⊎ (IsBlank text × (seal text ≡ none))
  unfolding seal
  seal-cases = elim (Bool-cases (is_empty (trim text))) [
    | inl e ↦ inr (trim-IsBlank text e, rw e)
    | inr e ↦ inl (rw e)
  ]

  -- A column reads back as the text, up to white space that means nothing.
  pub parse_env_lines-seal : parse_env_lines (text_of (seal text)) ≡ parse_env_lines text
  parse_env_lines-seal = elim seal-cases [
    | inl e ↦ ap (λ c. parse_env_lines (text_of c)) e
    | inr (h, e) ↦
        ap (λ c. parse_env_lines (text_of c)) e
        ∙ parse_env_lines-IsBlank [] refl
        ∙ sym (parse_env_lines-IsBlank text h)
  ]

  pub extract_notes-seal : extract_notes (text_of (seal text)) ≡ extract_notes text
  extract_notes-seal = elim seal-cases [
    | inl e ↦ ap (λ c. extract_notes (text_of c)) e
    | inr (h, e) ↦
        ap (λ c. extract_notes (text_of c)) e
        ∙ extract_notes-IsBlank [] refl
        ∙ sym (extract_notes-IsBlank text h)
  ]

  pub normalize_text-seal : normalize_text (text_of (seal text)) ≡ normalize_text text
  unfolding normalize_text
  normalize_text-seal = elim seal-cases [
    | inl e ↦ ap (λ c. normalize_text (text_of c)) e
    | inr (h, e) ↦
        ap (λ c. normalize_text (text_of c)) e
        ∙ IsBlank-trim_end (without_returns []) (without_returns-IsBlank [] refl)
        ∙ sym (IsBlank-trim_end (without_returns text) (without_returns-IsBlank text h))
  ]

  pub env_map-seal : env_map (text_of (seal text)) ≡ env_map text
  unfolding env_map
  env_map-seal = ap (map_from []) parse_env_lines-seal

  pub keys_of-seal : keys_of (text_of (seal text)) ≡ keys_of text
  unfolding keys_of
  keys_of-seal = ap (λ es. unique (map (λ e. e.0) es)) parse_env_lines-seal
