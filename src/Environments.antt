-- ===== src/Environments.antt =====
-- Environments of a variable set (src/modules/variable-set/variable-set-environment.service.ts, and
-- the two entities beside it): the rows, and how they are found and replaced.
pub mod Commit
pub mod Service
pub mod Promote
pub mod Diff
pub mod Manage
pub mod Steps
pub mod Rows
pub mod Promotion
pub mod Refinement
pub mod Commits
pub mod Runs
pub mod Locking
pub mod History
pub mod Recorded
pub mod Baseline
pub mod Reachable
pub mod Secrecy
mod Tests
mod HistoryTests
use aoox_api.Prelude.{
  ℕ, zero, suc, ◌+◌, Bool, true, false, not, ◌&&◌, Option, none, some, List, [], ◌∷◌, map, keep,
  ltb, leb, ◌==◌, if◌then◌else◌, Text, codes, text_eq, is_empty, trim,
}
use aoox_api.EnvText.Write.{Notes}
use aoox_api.EnvText.Objects.{Flags}
use aoox_api.EnvText.Validate.{TextProblem}
use aoox_api.EnvText.Compare.{ChangeSummary}
use aoox_api.SetAccess.{Refusal, Environment}

pub data Via : Type 0 where
  session token system : Via

pub data Action : Type 0 where
  edit set_values unset push restore promote baseline : Action

-- The note of a version: none, a version's time, the name of an environment, or the fixed one.
pub data Detail : Type 0 where
  no_detail before_recording : Detail
  restored_version : ℕ → Detail
  from_environment : Text → Detail

pub record Actor : Type 0 where
  pub user_id : ℕ
  pub email : Option Text
  pub via : Via

-- A text as a column holds it, null for `none`; encryption is left out.
abbrev pub Column : Type 0
Column = Option Text

-- `text.trim() ? encryptSecret(text, key) : null`
unfoldable pub seal : Text → Column
seal text = if is_empty (trim text) then none else some text

abbrev pub text_of : Column → Text
text_of none = []
text_of (some text) = text

pub record Version : Type 0 where
  pub id : ℕ
  pub content : Column
  pub flags : Flags
  pub notes : Notes
  pub author_id : Option ℕ
  pub author_email : Option Text
  pub via : Via
  pub action : Action
  pub detail : Detail
  pub summary : ChangeSummary
  pub created_at : ℕ

-- A row of the environments, with the versions that refer to it, the newest first.
pub record Row : Type 0 where
  pub id : ℕ
  pub set_id : ℕ
  pub name : Text
  pub is_protected : Bool
  pub content : Column
  pub keys : List Text
  pub flags : Flags
  pub notes : Notes
  pub updated_at : ℕ
  pub versions : List Version

-- All rows, in the order of `createdAt` and then of the name.
abbrev pub Store : Type 0
Store = List Row

-- What an operation answers: a result, or the exception.
pub data Failure : Type 0 where
  set_not_found environment_not_found version_not_found : Failure
  forbidden : Refusal → Failure
  invalid_date changed_in_between : Failure
  invalid_text : TextProblem → Failure
  invalid_flags : Failure
  unknown_flags : List Text → Failure
  already_current same_environment no_keys : Failure
  not_set : List Text → Failure
  type_error too_many already_exists still_used database_error : Failure

pub data Result (A : Type 0) : Type 0 where
  done : A → Result A
  failed : Failure → Result A

infixl 5 ◌>>=◌ ◌>>◌
abbrev pub ◌>>=◌ : {A B : Type 0} → Result A → (A → Result B) → Result B
done a >>= f = f a
failed e >>= f = failed e

abbrev pub ◌>>◌ : {A B : Type 0} → Result A → Result B → Result B
m >> k = m >>= λ _. k

-- `if (!ok) throw e`
abbrev pub require : Bool → Failure → Result Unit
require true e = done tt
require false e = failed e

-- `if (!value) throw e`
abbrev pub require_some : {A : Type 0} → Option A → Failure → Result A
require_some none e = failed e
require_some (some a) e = done a

abbrev pub require_none : {A : Type 0} → Option A → (A → Failure) → Result Unit
require_none none e = done tt
require_none (some a) e = failed (e a)

-- `findOne`: the first row with the test.
unfoldable pub find_row : (Row → Bool) → Store → Option Row
find_row p [] = none
find_row p (row ∷ rows) = if p row then some row else find_row p rows

unfoldable pub find_in_set : ℕ → ℕ → Store → Result Row
unfolding find_row
find_in_set env_id set_id store =
    require_some (find_row (λ r. r.id == env_id && r.set_id == set_id) store) environment_not_found

unfoldable pub find_by_name : ℕ → Text → Store → Result Row
unfolding find_row
find_by_name set_id name store =
    require_some (find_row (λ r. r.set_id == set_id && text_eq r.name name) store)
      environment_not_found

unfoldable pub find_version : ℕ → List Version → Option Version
find_version version_id [] = none
find_version version_id (v ∷ vs) = if v.id == version_id then some v else find_version version_id vs

-- `save` of a row that is there.
unfoldable pub put_row : Row → Store → Store
put_row row [] = []
put_row row (r ∷ rows) = if r.id == row.id then row ∷ put_row row rows else r ∷ put_row row rows

-- `flagLists`
abbrev pub secret_keys : Flags → List Text
secret_keys flags = map (λ e. e.0) (keep (λ e. e.1) flags)

abbrev pub plain_keys : Flags → List Text
plain_keys flags = map (λ e. e.0) (keep (λ e. not e.1) flags)

abbrev pub default_environments : List Environment
default_environments =
    record { name = codes "development"; is_protected = false }
    ∷ record { name = codes "staging"; is_protected = false }
    ∷ record { name = codes "production"; is_protected = true }
    ∷ []

unfoldable pub rank_in : List Environment → Text → ℕ
rank_in [] name = 0
rank_in (e ∷ es) name = if text_eq e.name name then 0 else suc (rank_in es name)

abbrev rank_of : Row → ℕ
rank_of row = rank_in default_environments row.name

unfoldable pub insert_row : Row → Store → Store
unfolding rank_in
insert_row row [] = row ∷ []
insert_row row (r ∷ rows) =
    if leb (rank_of row) (rank_of r) then row ∷ r ∷ rows else r ∷ insert_row row rows

unfoldable pub sort_rows : Store → Store
unfolding insert_row
sort_rows [] = []
sort_rows (row ∷ rows) = insert_row row (sort_rows rows)

-- `listOf`: the defaults first, then by age; the sort is stable.
unfoldable pub list_of : ℕ → Store → Store
unfolding sort_rows
list_of set_id store = sort_rows (keep (λ r. r.set_id == set_id) store)
