-- ===== src/Redact/Stream.antt =====
-- A stream against the whole text (`StreamRedactor` of src/modules/application/log-redaction.ts).
use aoox_api.Prelude.{
  ℕ, zero, suc, ◌+◌, ◌-◌, ◌≤◌, ◌<◌, ◌≡◌, ◌⊎◌, inl, inr, refl, sym, ap, ◌∙◌, subst, true, false,
  List, [], ◌∷◌, ◌++◌, arith, length, take, drop, Text, codes, includes, text_eq_iff, ◌==◌,
  is_empty, starts_with, Bool-cases,
}
use aoox_api.Redact.{
  Redactor, new_redactor, add, mask_form, mask, is_begun, safe_length, push, flush,
}
use aoox_api.Redact.Search.{IsHeld, IsWhole}
use aoox_api.Redact.Release.{safe_length-IsHeld}

-- A form that the longer text starts with is in the shorter one, or goes on behind it.
starts_with-append :
    (a rest f : Text)
    → starts_with (a ++ rest) f ≡ true
    → (starts_with a f ≡ true) ⊎ (starts_with f a ≡ true × length a < length f)
unfolding starts_with
starts_with-append a rest [] h = inl refl
starts_with-append [] rest (d ∷ f) h = inr (refl, omega arith)
starts_with-append (c ∷ a) rest (d ∷ f) h = elim (starts_with-append a rest f (ground (arith, h))) [
  | inl inside ↦ inl (ground (arith, h, inside))
  | inr (over, short) ↦ inr (ground (arith, h, over), omega (arith, short))
]

-- What a text starts with, a longer one does.
starts_with-longer : (a rest f : Text) → starts_with a f ≡ true → starts_with (a ++ rest) f ≡ true
unfolding starts_with
starts_with-longer a rest [] h = refl
starts_with-longer [] rest (d ∷ f) h = absurd (cc)
starts_with-longer (c ∷ a) rest (d ∷ f) h =
    let ih = starts_with-longer a rest f (ground (arith, h)) in ground (arith, h, ih)

starts_with-length : (a f : Text) → starts_with a f ≡ true → length f ≤ length a
unfolding starts_with
starts_with-length a [] h = omega arith
starts_with-length [] (d ∷ f) h = absurd (cc)
starts_with-length (c ∷ a) (d ∷ f) h =
    let ih = starts_with-length a f (ground (arith, h)) in omega (arith, ih)

-- A form that fits is there already.
starts_with-fits :
    (a rest f : Text)
    → starts_with (a ++ rest) f ≡ true
    → length f ≤ length a
    → starts_with a f ≡ true
starts_with-fits a rest f h fits = elim (starts_with-append a rest f h) [
  | inl inside ↦ inside
  | inr (over, short) ↦ absurd (omega (arith, short, fits))
]

-- No form that begins in the head goes on behind it.
IsClean : Text → Text → Text → Type 0
IsClean f head rest =
    (s : ℕ)
    → s < length head
    → starts_with (drop s (head ++ rest)) f ≡ true
    → s + length f ≤ length head

IsClean-tail :
    (f : Text) (c : ℕ) (head rest : Text) → IsClean f (c ∷ head) rest → IsClean f head rest
unfolding IsClean
IsClean-tail f c head rest clean s inside there =
    let h = clean (suc s) (omega (arith, inside)) there in omega (arith, h)

starts_with-false :
    (f : Text) (c : ℕ) (head rest : Text)
    → IsClean f (c ∷ head) rest
    → starts_with (c ∷ head) f ≡ false
    → starts_with (c ∷ (head ++ rest)) f ≡ false
unfolding IsClean
starts_with-false f c head rest clean elsewhere =
    elim (Bool-cases (starts_with (c ∷ (head ++ rest)) f)) [
      | inr absent ↦ absent
      | inl there ↦
          let fits = clean 0 (omega arith) there in
          let here = starts_with-fits (c ∷ head) rest f there (omega (arith, fits)) in absurd (cc)
    ]

mask_form-append :
    (f head rest : Text) (skip : ℕ)
    → skip ≤ length head
    → IsClean f head rest
    → mask_form f skip (head ++ rest) ≡ mask_form f skip head ++ mask_form f 0 rest
unfolding mask_form
mask_form-append f [] rest zero within clean = refl
mask_form-append f [] rest (suc skip) within clean = absurd (omega (arith, within))
mask_form-append f (c ∷ head) rest (suc skip) within clean =
    mask_form-append f head rest skip (omega (arith, within)) (IsClean-tail f c head rest clean)
mask_form-append f (c ∷ head) rest zero within clean =
    let tail = IsClean-tail f c head rest clean in
    elim (Bool-cases (starts_with (c ∷ head) f)) [
      | inl here ↦
          let there = starts_with-longer (c ∷ head) rest f here in
          let fits = starts_with-length (c ∷ head) f here in
          let ih = mask_form-append f head rest (length f - 1) (omega (arith, fits)) tail in
          rw (here, there) (ap (λ t. codes "***" ++ t) ih)
      | inr elsewhere ↦
          let absent = starts_with-false f c head rest clean elsewhere in
          let ih = mask_form-append f head rest 0 (omega arith) tail in
          rw (elsewhere, absent) (ap (λ t. c ∷ t) ih)
    ]

take-drop : (n : ℕ) (s : Text) → take n s ++ drop n s ≡ s
take-drop zero s = refl
take-drop (suc n) [] = refl
take-drop (suc n) (c ∷ s) = ap (λ t. c ∷ t) (take-drop n s)

length-take : (n : ℕ) (s : Text) → n ≤ length s → length (take n s) ≡ n
length-take zero s h = refl
length-take (suc n) [] h = absurd (omega (arith, h))
length-take (suc n) (c ∷ s) h = let ih = length-take n s (omega (arith, h)) in omega (arith, ih)

length-drop : (n : ℕ) (s : Text) → length (drop n s) ≡ length s - n
length-drop zero s = omega arith
length-drop (suc n) [] = omega arith
length-drop (suc n) (c ∷ s) = let ih = length-drop n s in omega (arith, ih)

drop-append : (n : ℕ) (s rest : Text) → n ≤ length s → drop n (s ++ rest) ≡ drop n s ++ rest
drop-append zero s rest h = refl
drop-append (suc n) [] rest h = absurd (omega (arith, h))
drop-append (suc n) (c ∷ s) rest h = drop-append n s rest (omega (arith, h))

append_assoc : (a b c : Text) → (a ++ b) ++ c ≡ a ++ (b ++ c)
append_assoc [] b c = refl
append_assoc (x ∷ a) b c = ap (λ t. x ∷ t) (append_assoc a b c)

-- Whatever comes next, what is released before a safe cut is clean.
take-IsClean :
    (text f rest : Text) (cut : ℕ)
    → cut ≤ length text
    → IsWhole text cut f
    → IsHeld text cut f
    → IsClean f (take cut text) (drop cut text ++ rest)
unfolding IsClean IsWhole IsHeld is_begun
take-IsClean text f rest cut within whole held s inside there =
    let size = length-take cut text within in
    let glued =
      sym (append_assoc (take cut text) (drop cut text) rest)
      ∙ ap (λ t. t ++ rest) (take-drop cut text) in
    let found =
      subst (λ t. starts_with t f ≡ true)
        (drop-append s text rest (omega (arith, size, inside, within)))
        (subst (λ t. starts_with (drop s t) f ≡ true) glued there) in
    elim (starts_with-append (drop s text) rest f found) [
      | inl complete ↦
          let h = whole s (omega (arith, size, inside)) complete in omega (arith, size, h)
      | inr (begun, short) ↦
          let left = length-drop s text in
          let shorter : length text - s < length f = omega (arith, left, short) in
          let late =
            held s (omega (arith, size, inside, within)) (ground (arith, begun, shorter)) in
          absurd (omega (arith, late, size, inside))
    ]

-- A redactor with one secret has one form.
add-one :
    (encode : Text → Text) (secret : Text)
    → is_empty secret ≡ false
    → encode secret ≡ secret
    → (add encode secret new_redactor).forms ≡ secret ∷ []
      × (length (add encode secret new_redactor).known == 0) ≡ false
unfolding add includes
add-one encode secret some_text plain =
    let same = (text_eq_iff secret secret).1 refl in
    (simp (some_text, plain, same) refl, simp some_text refl)

-- The output of a stream: each chunk in turn, and the flush at its end.
unfoldable pub stream : Redactor → List Text → Text → Text
unfolding push flush
stream r [] pending = (flush r pending).0
stream r (chunk ∷ chunks) pending =
    (push r chunk pending).0 ++ stream r chunks (push r chunk pending).1

pub join : List Text → Text
join [] = []
join (chunk ∷ chunks) = chunk ++ join chunks

push-one :
    (r : Redactor) (f chunk pending : Text)
    → r.forms ≡ f ∷ []
    → (length r.known == 0) ≡ false
    → push r chunk pending ≡ (
      mask_form f 0 (take (safe_length (pending ++ chunk) (f ∷ [])) (pending ++ chunk)),
      drop (safe_length (pending ++ chunk) (f ∷ [])) (pending ++ chunk),
    )
unfolding push mask
push-one r f chunk pending one some_known = simp (some_known, one) refl

flush-one :
    (r : Redactor) (f pending : Text)
    → r.forms ≡ f ∷ []
    → (flush r pending).0 ≡ mask_form f 0 pending
unfolding flush mask
flush-one r f [] one = refl
flush-one r f (c ∷ pending) one = simp one refl

append_nil : (s : Text) → s ++ [] ≡ s
append_nil [] = refl
append_nil (c ∷ s) = ap (λ t. c ∷ t) (append_nil s)

stream-mask_form :
    (r : Redactor) (f : Text) (chunks : List Text) (pending : Text)
    → r.forms ≡ f ∷ []
    → (length r.known == 0) ≡ false
    → stream r chunks pending ≡ mask_form f 0 (pending ++ join chunks)
unfolding stream join
stream-mask_form r f [] pending one some_known =
    flush-one r f pending one ∙ sym (ap (mask_form f 0) (append_nil pending))
stream-mask_form r f (chunk ∷ chunks) pending one some_known =
    let text = pending ++ chunk in
    let cut = safe_length text (f ∷ []) in
    let rest = join chunks in
    let (within, (whole, _), (held, _)) = safe_length-IsHeld text (f ∷ []) in
    let clean = take-IsClean text f rest cut within whole held in
    let joined = mask_form-append f (take cut text) (drop cut text ++ rest) 0 (omega arith) clean in
    ap (λ p. p.0 ++ stream r chunks p.1) (push-one r f chunk pending one some_known)
    ∙ ap (λ t. mask_form f 0 (take cut text) ++ t)
        (stream-mask_form r f chunks (drop cut text) one some_known)
    ∙ sym joined
    ∙ ap (mask_form f 0) (
        sym (append_assoc (take cut text) (drop cut text) rest)
        ∙ ap (λ t. t ++ rest) (take-drop cut text)
        ∙ append_assoc pending chunk rest)

-- With one secret, which its URL encoding leaves as it is, what a stream releases in chunks and at its
-- end is the whole text with the secret masked, wherever the chunks split it.
pub stream-mask :
    (encode : Text → Text) (secret : Text) (chunks : List Text)
    → is_empty secret ≡ false
    → encode secret ≡ secret
    → stream (add encode secret new_redactor) chunks [] ≡ mask (secret ∷ []) (join chunks)
unfolding mask
stream-mask encode secret chunks some_text plain =
    stream-mask_form (add encode secret new_redactor) secret chunks []
      (add-one encode secret some_text plain).0 (add-one encode secret some_text plain).1
