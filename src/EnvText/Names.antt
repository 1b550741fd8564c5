-- ===== src/EnvText/Names.antt =====
-- Lists of variables with valid names, none of them twice.
use aoox_api.Prelude.{
  ◌≡◌, refl, sym, ap, ◌∙◌, Bool, true, false, ◌||◌, none, some, List, [], ◌∷◌, ◌++◌, map, arith,
  if◌then◌else◌, Text, text_eq, text_eq_iff, includes, All, last_value, or_else,
}
use aoox_api.EnvText.{is_env_name}
use aoox_api.EnvText.Validate.{set_from}

-- The entries have valid names, none of them twice and none among `seen`.
abbrev pub AreFresh : List Text → List (Text × Text) → Type 0
AreFresh seen [] = Unit
AreFresh seen ((k, v) ∷ es) =
    (is_env_name k ≡ true) × (includes seen k ≡ false) × AreFresh (k ∷ seen) es

pub includes-append :
    (xs : List Text) (k x : Text) → includes (xs ++ (k ∷ [])) x ≡ (includes xs x || text_eq k x)
unfolding includes
includes-append [] k x = ground arith
includes-append (y ∷ ys) k x = ground (arith, includes-append ys k x)

append-cons {ℓ} :
    {A : Type ℓ} (xs : List A) (y : A) (ys : List A) → (xs ++ (y ∷ [])) ++ ys ≡ xs ++ (y ∷ ys)
append-cons [] y ys = refl
append-cons (x ∷ xs) y ys = ap (◌∷◌ x) (append-cons xs y ys)

append-nil {ℓ} : {A : Type ℓ} (xs : List A) → xs ++ [] ≡ xs
append-nil [] = refl
append-nil (x ∷ xs) = ap (◌∷◌ x) (append-nil xs)

or_comm : (a b : Bool) → (a || b) ≡ (b || a)
or_comm a b = ground arith

pub set_from-AreFresh :
    (acc seen : List Text) (es : List (Text × Text))
    → ((x : Text) → includes acc x ≡ includes seen x)
    → AreFresh seen es
    → set_from acc (map (λ e. e.0) es) ≡ acc ++ map (λ e. e.0) es
unfolding set_from
set_from-AreFresh acc seen [] same h = sym (append-nil acc)
set_from-AreFresh acc seen ((k, v) ∷ es) same (valid, new, fresh) =
    ap (λ b. set_from (if b then acc else acc ++ (k ∷ [])) (map (λ e. e.0) es)) (same k ∙ new)
    ∙ set_from-AreFresh (acc ++ (k ∷ [])) (k ∷ seen) es
        (λ x.
          includes-append acc k x
          ∙ ap (λ b. b || text_eq k x) (same x)
          ∙ or_comm (includes seen x) (text_eq k x))
        fresh
    ∙ append-cons acc k (map (λ e. e.0) es)

last_value-AreFresh-seen :
    (k : Text) (seen : List Text) (es : List (Text × Text))
    → AreFresh seen es
    → includes seen k ≡ true
    → last_value k es ≡ none
unfolding includes
last_value-AreFresh-seen k seen [] h e = refl
last_value-AreFresh-seen k seen ((j, v) ∷ es) (valid, new, fresh) e =
    ground (arith, last_value-AreFresh-seen k (j ∷ seen) es, text_eq_iff j k)

text_eq_refl : (k : Text) → text_eq k k ≡ true
text_eq_refl k = (text_eq_iff k k).1 refl

pub All-imply {ℓ κ μ} :
    {A : Type ℓ} {P : A → Type κ} {Q : A → Type μ} (xs : List A)
    → ((x : A) → P x → Q x)
    → All P xs
    → All Q xs
All-imply [] f h = tt
All-imply (x ∷ xs) f (p, h) = (f x p, All-imply xs f h)

pub AreFresh-names :
    (seen : List Text) (es : List (Text × Text))
    → AreFresh seen es
    → All (λ k. is_env_name k ≡ true) (map (λ e. e.0) es)
AreFresh-names seen [] h = tt
AreFresh-names seen ((k, v) ∷ es) (valid, new, fresh) = (valid, AreFresh-names (k ∷ seen) es fresh)

-- Each variable has the value of its entry.
pub last_value-AreFresh :
    (seen : List Text) (es : List (Text × Text))
    → AreFresh seen es
    → All (λ e. last_value e.0 es ≡ some e.1) es
last_value-AreFresh seen [] h = tt
last_value-AreFresh seen ((k, v) ∷ es) (valid, new, fresh) =
    let twice =
      last_value-AreFresh-seen k (k ∷ seen) es fresh
        (unfold includes in ground (arith, text_eq_refl k)) in
    (
      rw (twice, text_eq_refl k) refl,
      All-imply es (λ e h. ap (λ o. or_else o (if text_eq k e.0 then some v else none)) h)
          (last_value-AreFresh (k ∷ seen) es fresh),
    )
