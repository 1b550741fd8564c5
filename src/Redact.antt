-- ===== src/Redact.antt =====
-- Masking secrets in logs (src/modules/application/log-redaction.ts): `Redactor` and
-- `StreamRedactor`. `encodeURIComponent` is an argument.
pub mod Search
pub mod Release
pub mod Stream
pub mod Sorted
pub mod Forms
mod Tests
use aoox_api.Prelude.{
  ℕ, zero, suc, ◌+◌, ◌-◌, min, Bool, true, false, not, ◌&&◌, ◌||◌, Option, none, some, List, [],
  ◌∷◌, ◌++◌, leb, ltb, ◌==◌, length, keep, take, drop, includes, is_empty, starts_with, Text, codes,
  if◌then◌else◌,
}

-- The masked forms, longest first, and the secrets that were added.
pub record Redactor : Type 0 where
  pub forms : List Text
  pub known : List Text

abbrev pub new_redactor : Redactor
new_redactor = record { forms = []; known = [] }

-- `new Set([...forms, secret, encoded])`: a value that is there already keeps its place.
unfoldable pub add_form : List Text → Text → List Text
add_form forms f = if includes forms f then forms else forms ++ (f ∷ [])

-- The stable sort by length, longest first.
unfoldable pub insert_by_length : Text → List Text → List Text
insert_by_length f [] = f ∷ []
insert_by_length f (g ∷ gs) =
    let rest = insert_by_length f gs in if leb (length g) (length f) then f ∷ g ∷ gs else g ∷ rest

unfoldable pub sort_by_length : List Text → List Text
unfolding insert_by_length
sort_by_length [] = []
sort_by_length (f ∷ fs) = insert_by_length f (sort_by_length fs)

-- The empty text stands for a secret that is absent.
unfoldable pub add : (Text → Text) → Text → Redactor → Redactor
unfolding add_form sort_by_length
add encode secret r = if is_empty secret || includes r.known secret then r else record {
  forms =
      sort_by_length
        (keep (λ f. not (is_empty f)) (add_form (add_form r.forms secret) (encode secret)));
  known = r.known ++ (secret ∷ []);
}

unfoldable pub add_all : (Text → Text) → List Text → Redactor → Redactor
unfolding add
add_all encode [] r = r
add_all encode (s ∷ ss) r = add_all encode ss (add encode s r)

-- `out.split(f).join('***')`; `skip` counts what is left of a match.
unfoldable pub mask_form : Text → ℕ → Text → Text
mask_form f skip [] = []
mask_form f (suc skip) (c ∷ s) = mask_form f skip s
mask_form f zero (c ∷ s) =
    let masked = mask_form f (length f - 1) s in
    let rest = mask_form f 0 s in if starts_with (c ∷ s) f then codes "***" ++ masked else c ∷ rest

unfoldable pub mask : List Text → Text → Text
unfolding mask_form
mask [] text = text
mask (f ∷ fs) text = mask fs (mask_form f 0 text)

-- A loop over the positions from `i` on that stops at the first one that passes the test.
unfoldable pub first_from : (ℕ → Bool) → ℕ → ℕ → Option ℕ
first_from test zero i = none
first_from test (suc n) i = let rest = first_from test n (i + 1) in if test i then some i else rest

-- Whether the text from `i` on could still become the form.
unfoldable pub is_begun : Text → Text → ℕ → Bool
is_begun text f i = starts_with f (drop i text) && ltb (length text - i) (length f)

unfoldable pub begun_at : Text → Text → Option ℕ
unfolding is_begun first_from
begun_at text f =
    let start = (length text + 1) - length f in
    first_from (is_begun text f) (length text - start) start

abbrev pub earlier : Option ℕ → ℕ → ℕ
earlier none cut = cut
earlier (some i) cut = min cut i

-- The first loop of `safeLength`.
unfoldable pub hold_back : Text → List Text → ℕ → ℕ
unfolding begun_at
hold_back text [] cut = cut
hold_back text (f ∷ fs) cut = hold_back text fs (earlier (begun_at text f) cut)

-- Whether the form stands at `s` and reaches over the cut.
unfoldable pub is_cut_through : Text → Text → ℕ → ℕ → Bool
is_cut_through text f cut s = starts_with (drop s text) f && ltb cut (s + length f)

unfoldable pub cut_through_at : Text → Text → ℕ → Option ℕ
unfolding is_cut_through first_from
cut_through_at text f cut =
    let start = cut - length f in first_from (is_cut_through text f cut) (cut - start) start

-- One round over the forms: the cut, and `moved`.
unfoldable pub pull_back : Text → List Text → ℕ × Bool → ℕ × Bool
unfolding cut_through_at
pull_back text [] c = c
pull_back text (f ∷ fs) (cut, moved) =
    pull_back text fs
      (elim (cut_through_at text f cut) [ none ↦ (cut, moved) | some s ↦ (s, true) ])

-- The loop until nothing moves.
unfoldable pub settle_cut : Text → List Text → ℕ → ℕ → ℕ
unfolding pull_back
settle_cut text forms zero cut = cut
settle_cut text forms (suc fuel) cut =
    let (cut', moved) = pull_back text forms (cut, false) in
    let rest = settle_cut text forms fuel cut' in if moved then rest else cut'

unfoldable pub safe_length : Text → List Text → ℕ
unfolding hold_back settle_cut
safe_length text forms =
    settle_cut text forms (length text + 1) (hold_back text forms (length text))

-- What is released, and what is pending.
unfoldable pub push : Redactor → Text → Text → Text × Text
unfolding safe_length mask
push r raw pending =
    let text = pending ++ raw in
    let cut = safe_length text r.forms in
    if length r.known == 0 then (text, []) else (mask r.forms (take cut text), drop cut text)

unfoldable pub flush : Redactor → Text → Text × Text
unfolding mask
flush r pending = (if is_empty pending then [] else mask r.forms pending, [])
