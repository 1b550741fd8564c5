-- ===== src/Redact/Forms.antt =====
-- The forms that a `Redactor` masks (src/modules/application/log-redaction.ts).
use aoox_api.Prelude.{
  ◌≡◌, refl, sym, ◌∙◌, ap, subst, ◌⊎◌, true, false, not, ◌||◌, List, [], ◌∷◌, ◌++◌, arith, keep,
  includes, is_empty, text_eq, text_eq_iff, Text, Bool-cases, inl, inr,
}
use aoox_api.Redact.{Redactor, new_redactor, add, add_all, add_form, sort_by_length}
use aoox_api.Redact.Sorted.{
  includes-sort, add_form-keeps, add_form-adds, includes-keep, includes-append, IsDescending,
  sort-IsDescending,
}

-- Every secret that was added is masked, the longest forms first.
IsComplete : Redactor → Type 0
IsComplete r =
    ((x : Text) → includes r.known x ≡ true → is_empty x ≡ false → includes r.forms x ≡ true)
    × IsDescending r.forms

-- The forms of a redactor that takes a new secret.
forms_with : (Text → Text) → Text → List Text → List Text
forms_with encode secret forms =
    sort_by_length (keep (λ f. not (is_empty f)) (add_form (add_form forms secret) (encode secret)))

forms_with-keeps :
    (encode : Text → Text) (secret : Text) (forms : List Text) (x : Text)
    → is_empty x ≡ false
    → includes (add_form forms secret) x ≡ true
    → includes (forms_with encode secret forms) x ≡ true
unfolding forms_with
forms_with-keeps encode secret forms x some_text there =
    let all = add_form (add_form forms secret) (encode secret) in
    let still =
      includes-keep all x some_text
        (add_form-keeps (add_form forms secret) (encode secret) x there) in
    includes-sort (keep (λ f. not (is_empty f)) all) x ∙ still

forms_with-adds :
    (encode : Text → Text) (secret : Text) (forms : List Text)
    → is_empty secret ≡ false
    → includes (forms_with encode secret forms) secret ≡ true
forms_with-adds encode secret forms some_text =
    forms_with-keeps encode secret forms secret some_text (add_form-adds forms secret)

with_secret : (Text → Text) → Text → Redactor → Redactor
with_secret encode secret r = record {
  forms = forms_with encode secret r.forms;
  known = r.known ++ (secret ∷ []);
}

-- A secret that is absent or known changes nothing.
add-cases :
    (encode : Text → Text) (secret : Text) (r : Redactor)
    → (add encode secret r ≡ r × (is_empty secret || includes r.known secret) ≡ true)
      ⊎ (add encode secret r ≡ with_secret encode secret r)
unfolding add with_secret forms_with
add-cases encode secret r = elim (Bool-cases (is_empty secret || includes r.known secret)) [
  | inl skipped ↦ inl (simp skipped refl, skipped)
  | inr fresh ↦ inr (simp fresh refl)
]

with_secret-covers :
    (encode : Text → Text) (secret : Text) (r : Redactor)
    → IsComplete r
    → IsComplete (with_secret encode secret r)
unfolding IsComplete with_secret forms_with includes
with_secret-covers encode secret r (covers, sorted) = (
  λ x there some_text. elim (Bool-cases (text_eq secret x)) [
    | inl same ↦
        let e = (text_eq_iff secret x).0 same in
        subst (λ y. includes (with_secret encode secret r).forms y ≡ true) e
          (forms_with-adds encode secret r.forms (ap is_empty e ∙ some_text))
    | inr other ↦
        let both = includes-append r.known (secret ∷ []) x in
        let before = covers x (ground (arith, there, both, other)) some_text in
        forms_with-keeps encode secret r.forms x some_text (add_form-keeps r.forms secret x before)
  ],
  sort-IsDescending
      (keep (λ f. not (is_empty f)) (add_form (add_form r.forms secret) (encode secret))),
)

add-IsComplete :
    (encode : Text → Text) (secret : Text) (r : Redactor)
    → IsComplete r
    → IsComplete (add encode secret r)
add-IsComplete encode secret r h = elim (add-cases encode secret r) [
  | inl (same, _) ↦ subst IsComplete (sym same) h
  | inr taken ↦ subst IsComplete (sym taken) (with_secret-covers encode secret r h)
]

add-keeps :
    (encode : Text → Text) (secret : Text) (r : Redactor) (x : Text)
    → is_empty x ≡ false
    → includes r.forms x ≡ true
    → includes (add encode secret r).forms x ≡ true
unfolding with_secret
add-keeps encode secret r x some_text there = elim (add-cases encode secret r) [
  | inl (same, _) ↦ ap (λ q. includes q.forms x) same ∙ there
  | inr taken ↦
      ap (λ q. includes q.forms x) taken
      ∙ forms_with-keeps encode secret r.forms x some_text (add_form-keeps r.forms secret x there)
]

add-masks :
    (encode : Text → Text) (secret : Text) (r : Redactor)
    → IsComplete r
    → is_empty secret ≡ false
    → includes (add encode secret r).forms secret ≡ true
unfolding IsComplete with_secret
add-masks encode secret r (covers, sorted) some_text = elim (add-cases encode secret r) [
  | inl (same, known) ↦
      ap (λ q. includes q.forms secret) same
      ∙ covers secret (ground (arith, known, some_text)) some_text
  | inr taken ↦
      ap (λ q. includes q.forms secret) taken ∙ forms_with-adds encode secret r.forms some_text
]

add_all-keeps :
    (encode : Text → Text) (secrets : List Text) (r : Redactor) (x : Text)
    → is_empty x ≡ false
    → includes r.forms x ≡ true
    → includes (add_all encode secrets r).forms x ≡ true
unfolding add_all
add_all-keeps encode [] r x some_text there = there
add_all-keeps encode (s ∷ ss) r x some_text there =
    add_all-keeps encode ss (add encode s r) x some_text (add-keeps encode s r x some_text there)

add_all-IsComplete :
    (encode : Text → Text) (secrets : List Text) (r : Redactor)
    → IsComplete r
    → IsDescending (add_all encode secrets r).forms
      × ((x : Text)
          → is_empty x ≡ false
          → includes secrets x ≡ true
          → includes (add_all encode secrets r).forms x ≡ true)
unfolding add_all IsComplete includes
add_all-IsComplete encode [] r h = (h.1, λ x some_text there. absurd (cc))
add_all-IsComplete encode (s ∷ ss) r h =
    let ih = add_all-IsComplete encode ss (add encode s r) (add-IsComplete encode s r h) in
    (
      ih.0,
      λ x some_text there. elim (Bool-cases (text_eq s x)) [
        | inl same ↦
            let e = (text_eq_iff s x).0 same in
            subst (λ y. includes (add_all encode ss (add encode s r)).forms y ≡ true) e
              (add_all-keeps encode ss (add encode s r) s (ap is_empty e ∙ some_text)
                (add-masks encode s r h (ap is_empty e ∙ some_text)))
        | inr other ↦ ih.1 x some_text (ground (arith, there, other))
      ],
    )

-- Every secret that was added and is not empty is one of the masked forms, which are tried longest
-- first.
pub add_all-masks :
    (encode : Text → Text) (secrets : List Text) (x : Text)
    → is_empty x ≡ false
    → includes secrets x ≡ true
    → includes (add_all encode secrets new_redactor).forms x ≡ true
      × IsDescending (add_all encode secrets new_redactor).forms
unfolding IsComplete includes IsDescending
add_all-masks encode secrets x some_text there =
    let (sorted, masks) =
      add_all-IsComplete encode secrets new_redactor ((λ x there some_text. absurd (cc)), tt) in
    (masks x some_text there, sorted)
