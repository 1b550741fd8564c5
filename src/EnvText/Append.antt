-- ===== src/EnvText/Append.antt =====
-- `setValues` where the name is not defined: what is put at the end, and that every line that
-- `setValues` writes is one line.
use aoox_api.Prelude.{
  ℕ, zero, suc, ◌≡◌, refl, ap, ◌∙◌, inl, inr, Option-cases, true, none, some, List, [], ◌∷◌, ◌++◌,
  arith, Text, trim, All, or_else, set, map, every, split_on,
}
use aoox_api.EnvText.{is_env_name, is_name_part}
use aoox_api.EnvText.Entry.{
  NoLineFeed, IsValue, parse_line-assignment, parse_line-comment, parse_line-blank,
  name_start-IsPlain, name_part-IsPlain,
}
use aoox_api.EnvText.Maps.{entry_value, line_value, line_value-append}
use aoox_api.EnvText.Replace.{written}
use aoox_api.EnvText.Write.{
  Notes, Property, undefined, inherited, own, note_of, comment, note_lines, note_block, drop_blank,
  assignment, close_comment, append_value, drop_repeated, replace_value,
}

drop_blank-line_value : (k : Text) (ls : List Text) → line_value k (drop_blank ls) ≡ line_value k ls
unfolding drop_blank line_value
drop_blank-line_value k [] = refl
drop_blank-line_value k (l ∷ ls) = ground (arith, drop_blank-line_value k ls, parse_line-blank l)

append_blank-line_value :
    (k : Text) (ls : List Text) → line_value k (ls ++ ([] ∷ [])) ≡ line_value k ls
unfolding line_value trim
append_blank-line_value k ls =
    line_value-append k ls ([] ∷ [])
    ∙ ap (λ e. or_else (entry_value k e) (line_value k ls)) (parse_line-blank [] refl)

close_comment-line_value :
    (k : Text) (ls : List Text) → line_value k (close_comment ls) ≡ line_value k ls
unfolding close_comment
close_comment-line_value k ls = ground (arith, append_blank-line_value k ls)

comments-line_value : (k : Text) (ls : List Text) → line_value k (map comment ls) ≡ none
unfolding line_value
comments-line_value k [] = refl
comments-line_value k (l ∷ ls) = rw (comments-line_value k ls, parse_line-comment l)

note_block-line_value :
    (k : Text) (p : Property) (block : List Text)
    → note_block p ≡ some block
    → line_value k block ≡ none
unfolding note_block note_lines line_value
note_block-line_value k undefined block e = ground arith
note_block-line_value k inherited block e = cc
note_block-line_value k (own note) block e =
    ground (arith, comments-line_value k (split_on 10 note))

appended-line_value :
    (key value k : Text) (ls block : List Text)
    → is_env_name key ≡ true
    → IsValue value
    → line_value k block ≡ none
    → line_value k (close_comment (drop_blank ls) ++ (block ++ (assignment key value ∷ [])))
      ≡ written k key value (line_value k ls)
unfolding line_value
appended-line_value key value k ls block name ok empty =
    rw
      (
        line_value-append k (close_comment (drop_blank ls)) (block ++ (assignment key value ∷ [])),
        line_value-append k block (assignment key value ∷ []),
        parse_line-assignment key value name ok,
        close_comment-line_value k (drop_blank ls),
        drop_blank-line_value k ls,
        empty,
      )
      (ground arith)

pub append_value-line_value :
    (notes : Notes) (key value k : Text) (ls ms : List Text)
    → is_env_name key ≡ true
    → IsValue value
    → append_value notes ls key value ≡ some ms
    → line_value k ms ≡ written k key value (line_value k ls)
unfolding append_value
append_value-line_value notes key value k ls ms name ok e =
    elim (Option-cases (note_block (note_of notes key))) [
      | inl throws ↦ cc
      | inr (block, eb) ↦
          let empty = note_block-line_value k (note_of notes key) block eb in
          let written' = appended-line_value key value k ls block name ok empty in
          ground (arith, written')
    ]

append-NoLineFeed : (s t : Text) → NoLineFeed s → NoLineFeed t → NoLineFeed (s ++ t)
append-NoLineFeed [] t h k = k
append-NoLineFeed (c ∷ s) t (p, h) k = (p, append-NoLineFeed s t h k)

name_parts-NoLineFeed : (s : Text) → every is_name_part s ≡ true → NoLineFeed s
name_parts-NoLineFeed [] h = tt
name_parts-NoLineFeed (c ∷ s) h = ground (arith, name_parts-NoLineFeed s, name_part-IsPlain c)

name-NoLineFeed : (key : Text) → is_env_name key ≡ true → NoLineFeed key
unfolding is_env_name
name-NoLineFeed [] h = tt
name-NoLineFeed (c ∷ s) h = ground (arith, name_parts-NoLineFeed s, name_start-IsPlain c)

assignment-NoLineFeed :
    (key value : Text) → is_env_name key ≡ true → IsValue value → NoLineFeed (assignment key value)
assignment-NoLineFeed key value name ok =
    append-NoLineFeed key (b'=' ∷ value) (name-NoLineFeed key name) (omega arith, ok.one_line)

append-All {ℓ κ} :
    {A : Type ℓ} (P : A → Type κ) (xs ys : List A) → All P xs → All P ys → All P (xs ++ ys)
append-All P [] ys h k = k
append-All P (x ∷ xs) ys (p, h) k = (p, append-All P xs ys h k)

set-All {ℓ κ} :
    {A : Type ℓ} (P : A → Type κ) (xs : List A) (i : ℕ) (v : A)
    → All P xs
    → P v
    → All P (set xs i v)
set-All P [] i v h p = tt
set-All P (x ∷ xs) zero v (q, h) p = (p, h)
set-All P (x ∷ xs) (suc i) v (q, h) p = (q, set-All P xs i v h p)

drop_repeated-NoLineFeed :
    (key : Text) (at i : ℕ) (ls : List Text)
    → All NoLineFeed ls
    → All NoLineFeed (drop_repeated key at i ls)
unfolding drop_repeated
drop_repeated-NoLineFeed key at i [] h = tt
drop_repeated-NoLineFeed key at i (l ∷ ls) h =
    ground (arith, drop_repeated-NoLineFeed key at (suc i) ls)

drop_blank-NoLineFeed : (ls : List Text) → All NoLineFeed ls → All NoLineFeed (drop_blank ls)
unfolding drop_blank
drop_blank-NoLineFeed [] h = tt
drop_blank-NoLineFeed (l ∷ ls) h = ground (arith, drop_blank-NoLineFeed ls)

close_comment-NoLineFeed : (ls : List Text) → All NoLineFeed ls → All NoLineFeed (close_comment ls)
unfolding close_comment
close_comment-NoLineFeed ls h = ground (arith, append-All NoLineFeed ls ([] ∷ []) h (tt, tt))

split_on-NoLineFeed : (s : Text) → All NoLineFeed (split_on 10 s)
unfolding split_on
split_on-NoLineFeed [] = (tt, tt)
split_on-NoLineFeed (c ∷ s) = ground (arith, split_on-NoLineFeed s)

comments-NoLineFeed : (ls : List Text) → All NoLineFeed ls → All NoLineFeed (map comment ls)
comments-NoLineFeed [] h = tt
comments-NoLineFeed (l ∷ ls) (p, h) = (ground arith, comments-NoLineFeed ls h)

note_block-NoLineFeed :
    (p : Property) (block : List Text) → note_block p ≡ some block → All NoLineFeed block
unfolding note_block note_lines
note_block-NoLineFeed undefined block e = ground arith
note_block-NoLineFeed inherited block e = cc
note_block-NoLineFeed (own note) block e =
    ground (arith, comments-NoLineFeed (split_on 10 note) (split_on-NoLineFeed note))

pub append_value-NoLineFeed :
    (notes : Notes) (key value : Text) (ls ms : List Text)
    → is_env_name key ≡ true
    → IsValue value
    → append_value notes ls key value ≡ some ms
    → All NoLineFeed ls
    → All NoLineFeed ms
unfolding append_value
append_value-NoLineFeed notes key value ls ms name ok e h =
    elim (Option-cases (note_block (note_of notes key))) [
      | inl throws ↦ cc
      | inr (block, eb) ↦
          let line = assignment-NoLineFeed key value name ok in
          let added =
            append-All NoLineFeed block (assignment key value ∷ [])
              (note_block-NoLineFeed (note_of notes key) block eb) (line, tt) in
          let whole =
            append-All NoLineFeed (close_comment (drop_blank ls)) _
              (close_comment-NoLineFeed (drop_blank ls) (drop_blank-NoLineFeed ls h)) added in
          ground (arith, whole)
    ]

pub replace_value-NoLineFeed :
    (key value : Text) (ls : List Text) (at : ℕ)
    → is_env_name key ≡ true
    → IsValue value
    → All NoLineFeed ls
    → All NoLineFeed (replace_value ls at key value)
unfolding replace_value
replace_value-NoLineFeed key value ls at name ok h =
    set-All NoLineFeed (drop_repeated key at 0 ls) at (assignment key value)
      (drop_repeated-NoLineFeed key at 0 ls h) (assignment-NoLineFeed key value name ok)
