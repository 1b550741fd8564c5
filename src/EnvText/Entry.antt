-- ===== src/EnvText/Entry.antt =====
-- What one line of an environment text parses to.
use aoox_api.Prelude.{
  ℕ, suc, ◌+◌, ◌≡◌, refl, ap, ◌∙◌, ◌≢◌, Bool, true, false, ◌||◌, Option, none, some, List, [], ◌∷◌,
  ◌++◌, arith, Text, text_eq, is_space, is_empty, trim, trim_start, trim_end, starts_with, index_of,
  length, take, drop, every, leb, ◌==◌,
}
use aoox_api.EnvText.{
  hash, is_name_start, is_name_part, is_env_name, parse_trimmed, parse_line, defines_key,
}
use aoox_api.EnvText.Write.{assignment, comment}

-- A value that a line can hold: one line, with no white space at its end.
abbrev pub NoLineFeed : Text → Type 0
NoLineFeed [] = Unit
NoLineFeed (c ∷ s) = (c ≢ 10) × NoLineFeed s

pub record IsValue (value : Text) : Type 0 where
  pub one_line : NoLineFeed value
  pub trimmed : trim_end value ≡ value

pub record IsPlain (c : ℕ) : Type 0 where
  pub visible : is_space c ≡ false
  pub no_equals : (c == b'=') ≡ false
  pub no_hash : (c == b'#') ≡ false
  pub no_feed : c ≢ 10

pub name_start-IsPlain : (c : ℕ) → is_name_start c ≡ true → IsPlain c
unfolding is_name_start is_space
name_start-IsPlain c h = ground arith

pub name_part-IsPlain : (c : ℕ) → is_name_part c ≡ true → IsPlain c
unfolding is_name_part is_space
name_part-IsPlain c h = ground arith

trim_end-cons : (c : ℕ) (s : Text) → is_space c ≡ false → trim_end s ≡ s → trim_end (c ∷ s) ≡ c ∷ s
unfolding trim_end
trim_end-cons c s h e = ground arith

is_empty-append : (s : Text) (c : ℕ) (v : Text) → is_empty (s ++ (c ∷ v)) ≡ false
is_empty-append [] c v = refl
is_empty-append (a ∷ s) c v = refl

trim_end-append :
    (s : Text) (c : ℕ) (v : Text)
    → is_space c ≡ false
    → trim_end v ≡ v
    → trim_end (s ++ (c ∷ v)) ≡ s ++ (c ∷ v)
unfolding trim_end
trim_end-append [] c v h e = ground arith
trim_end-append (a ∷ s) c v h e = rw (trim_end-append s c v h e, is_empty-append s c v)

trim_end-plain : (s : Text) → every is_name_part s ≡ true → trim_end s ≡ s
unfolding trim_end
trim_end-plain [] h = refl
trim_end-plain (c ∷ s) h = ground (arith, trim_end-plain s, name_part-IsPlain c)

index_of-append :
    (s : Text) (v : Text)
    → every is_name_part s ≡ true
    → index_of (s ++ (b'=' ∷ v)) b'=' ≡ some (length s)
unfolding index_of
index_of-append [] v h = refl
index_of-append (c ∷ s) v h = ground (arith, index_of-append s v, name_part-IsPlain c)

take-append {ℓ} : {A : Type ℓ} (s t : List A) → take (length s) (s ++ t) ≡ s
take-append [] t = refl
take-append (c ∷ s) t = ap (◌∷◌ c) (take-append s t)

drop-append {ℓ} :
    {A : Type ℓ} (s : List A) (c : A) (t : List A) → drop (length s + 1) (s ++ (c ∷ t)) ≡ t
drop-append [] c t = refl
drop-append (a ∷ s) c t =
    let e : suc (length s) + 1 ≡ suc (length s + 1) = omega arith in
    ap (λ n. drop n (a ∷ (s ++ (c ∷ t)))) e ∙ drop-append s c t

trim_start-cons : (c : ℕ) (s : Text) → is_space c ≡ false → trim_start (c ∷ s) ≡ c ∷ s
unfolding trim_start
trim_start-cons c s h = rw h

trim-assignment :
    (key value : Text)
    → is_env_name key ≡ true
    → IsValue value
    → trim (assignment key value) ≡ assignment key value
unfolding trim is_env_name
trim-assignment [] value h ok = cc
trim-assignment (c ∷ s) value h ok =
    let plain = name_start-IsPlain c (ground arith) in
    ap trim_start (trim_end-append (c ∷ s) b'=' value (unfold is_space in refl) ok.trimmed)
    ∙ trim_start-cons c (s ++ (b'=' ∷ value)) plain.visible

trim-key : (key : Text) → is_env_name key ≡ true → trim key ≡ key
unfolding trim is_env_name
trim-key [] h = cc
trim-key (c ∷ s) h =
    let plain = name_start-IsPlain c (ground arith) in
    ap trim_start (trim_end-cons c s plain.visible (trim_end-plain s (ground arith)))
    ∙ trim_start-cons c s plain.visible

index_of-assignment :
    (key value : Text)
    → is_env_name key ≡ true
    → index_of (assignment key value) b'=' ≡ some (length key)
unfolding is_env_name index_of
index_of-assignment [] value h = cc
index_of-assignment (c ∷ s) value h = ground (arith, name_start-IsPlain c, index_of-append s value)

starts_with-assignment :
    (key value : Text)
    → is_env_name key ≡ true
    → (is_empty (assignment key value) || starts_with (assignment key value) hash) ≡ false
unfolding is_env_name starts_with
starts_with-assignment [] value h = cc
starts_with-assignment (c ∷ s) value h = ground (arith, name_start-IsPlain c)

length-key : (key : Text) → is_env_name key ≡ true → leb (length key) 0 ≡ false
unfolding is_env_name
length-key [] h = cc
length-key (c ∷ s) h = ground arith

parse_trimmed-assignment :
    (key value : Text)
    → is_env_name key ≡ true
    → parse_trimmed (assignment key value) ≡ some (key, value)
unfolding parse_trimmed
parse_trimmed-assignment key value h = rw (
  starts_with-assignment key value h,
  index_of-assignment key value h,
  length-key key h,
  take-append key (b'=' ∷ value),
  drop-append key b'=' value,
  trim-key key h,
)

-- Writing a variable and parsing the line gives the variable back.
pub parse_line-assignment :
    (key value : Text)
    → is_env_name key ≡ true
    → IsValue value
    → parse_line (assignment key value) ≡ some (key, value)
unfolding parse_line
parse_line-assignment key value h ok =
    ap parse_trimmed (trim-assignment key value h ok) ∙ parse_trimmed-assignment key value h

trim_end-return : (s : Text) → trim_end (s ++ (13 ∷ [])) ≡ trim_end s
unfolding trim_end is_space
trim_end-return [] = refl
trim_end-return (c ∷ s) = rw (trim_end-return s)

-- A carriage return at the end of a line changes nothing.
pub parse_line-return : (s : Text) → parse_line (s ++ (13 ∷ [])) ≡ parse_line s
unfolding parse_line trim
parse_line-return s = ap (λ t. parse_trimmed (trim_start t)) (trim_end-return s)

trim_end-visible : (c : ℕ) (s : Text) → is_space c ≡ false → trim_end (c ∷ s) ≡ c ∷ trim_end s
unfolding trim_end
trim_end-visible c s h = ground arith

parse_line-hash : (s : Text) → parse_line (b'#' ∷ s) ≡ none
unfolding parse_line trim trim_start is_space starts_with
parse_line-hash s =
    let plain : is_space b'#' ≡ false = refl in
    ap (λ t. parse_trimmed (trim_start t)) (trim_end-visible b'#' s plain)

pub parse_line-comment : (l : Text) → parse_line (comment l) ≡ none
parse_line-comment [] = parse_line-hash []
parse_line-comment (c ∷ l) = parse_line-hash (32 ∷ c ∷ l)

pub parse_line-blank : (l : Text) → is_empty (trim l) ≡ true → parse_line l ≡ none
unfolding parse_line
parse_line-blank l h = rw h

abbrev pub has_key : Option (Text × Text) → Text → Bool
has_key none key = false
has_key (some (k, v)) key = text_eq k key

pub defines_key-parse_line :
    (line key : Text) → defines_key line key ≡ has_key (parse_line line) key
unfolding defines_key parse_line
defines_key-parse_line line key = ground arith
