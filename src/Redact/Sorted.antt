-- ===== src/Redact/Sorted.antt =====
-- Adding a form and sorting the forms (src/modules/application/log-redaction.ts).
use aoox_api.Prelude.{
  ℕ, ◌≤◌, ◌≡◌, refl, ◌∙◌, ap, true, false, not, ◌||◌, List, [], ◌∷◌, ◌++◌, arith, length, leb, keep,
  All, includes, is_empty, text_eq, text_eq_iff, Text, Bool-cases, inl, inr,
}
use aoox_api.Redact.{add_form, insert_by_length, sort_by_length}

includes-insert :
    (f : Text) (gs : List Text) (x : Text)
    → includes (insert_by_length f gs) x ≡ text_eq f x || includes gs x
unfolding includes insert_by_length
includes-insert f [] x = refl
includes-insert f (g ∷ gs) x = let ih = includes-insert f gs x in ground (arith, ih)

pub includes-sort : (fs : List Text) (x : Text) → includes (sort_by_length fs) x ≡ includes fs x
unfolding includes sort_by_length
includes-sort [] x = refl
includes-sort (f ∷ fs) x =
    includes-insert f (sort_by_length fs) x ∙ ap (λ b. text_eq f x || b) (includes-sort fs x)

pub includes-append :
    (fs gs : List Text) (x : Text) → includes (fs ++ gs) x ≡ includes fs x || includes gs x
unfolding includes
includes-append [] gs x = refl
includes-append (f ∷ fs) gs x = let ih = includes-append fs gs x in ground (arith, ih)

-- A form that is added is there, and so is every other.
pub add_form-keeps :
    (forms : List Text) (f x : Text)
    → includes forms x ≡ true
    → includes (add_form forms f) x ≡ true
unfolding add_form
add_form-keeps forms f x there = let both = includes-append forms (f ∷ []) x in ground (arith, both)

pub add_form-adds : (forms : List Text) (f : Text) → includes (add_form forms f) f ≡ true
unfolding add_form includes
add_form-adds forms f =
    let both = includes-append forms (f ∷ []) f in
    let same = (text_eq_iff f f).1 refl in ground (arith, both, same)

pub includes-keep :
    (fs : List Text) (x : Text)
    → is_empty x ≡ false
    → includes fs x ≡ true
    → includes (keep (λ f. not (is_empty f)) fs) x ≡ true
unfolding includes
includes-keep [] x some_text there = absurd (cc)
includes-keep (f ∷ fs) x some_text there = elim (Bool-cases (text_eq f x)) [
  | inl same ↦
      let e = (text_eq_iff f x).0 same in
      let full : is_empty f ≡ false = ap is_empty e ∙ some_text in simp full (simp same refl)
  | inr other ↦
      let ih = includes-keep fs x some_text (ground (arith, there, other)) in
      ground (arith, ih, other)
]

-- Longest first.
unfoldable pub IsDescending : List Text → Type 0
IsDescending [] = Unit
IsDescending (f ∷ fs) = All (λ g. length g ≤ length f) fs × IsDescending fs

All-longer :
    (fs : List Text) (low high : ℕ)
    → low ≤ high
    → All (λ g. length g ≤ low) fs
    → All (λ g. length g ≤ high) fs
All-longer [] low high h all = tt
All-longer (f ∷ fs) low high h (first, all) =
    (omega (arith, first, h), All-longer fs low high h all)

All-insert :
    (f : Text) (gs : List Text) (high : ℕ)
    → length f ≤ high
    → All (λ g. length g ≤ high) gs
    → All (λ g. length g ≤ high) (insert_by_length f gs)
unfolding insert_by_length
All-insert f [] high short all = (short, tt)
All-insert f (g ∷ gs) high short (first, all) = elim (Bool-cases (leb (length g) (length f))) [
  | inl before ↦ rw (before, insert_by_length) (short, (first, all))
  | inr behind ↦ rw (behind, insert_by_length) (first, All-insert f gs high short all)
]

insert-IsDescending :
    (f : Text) (gs : List Text) → IsDescending gs → IsDescending (insert_by_length f gs)
unfolding insert_by_length IsDescending
insert-IsDescending f [] h = (tt, tt)
insert-IsDescending f (g ∷ gs) (first, rest) = elim (Bool-cases (leb (length g) (length f))) [
  | inl before ↦
      let short : length g ≤ length f = ground (arith, before) in
      rw (before, insert_by_length)
        ((short, All-longer gs (length g) (length f) short first), (first, rest))
  | inr behind ↦
      let short : length f ≤ length g = ground (arith, behind) in
      rw (behind, insert_by_length)
        (All-insert f gs (length g) short first, insert-IsDescending f gs rest)
]

pub sort-IsDescending : (fs : List Text) → IsDescending (sort_by_length fs)
unfolding sort_by_length IsDescending
sort-IsDescending [] = tt
sort-IsDescending (f ∷ fs) = insert-IsDescending f (sort_by_length fs) (sort-IsDescending fs)
