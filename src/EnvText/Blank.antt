-- ===== src/EnvText/Blank.antt =====
-- Texts of white space only: they define nothing and have no notes.
use aoox_api.Prelude.{
  ℕ, ◌≡◌, refl, ap, ◌∙◌, true, List, [], ◌∷◌, arith, Text, is_space, is_empty, trim, trim_start,
  trim_end, every, All,
}
use aoox_api.EnvText.{push_first, split_lines, parse_lines, parse_env_lines}
use aoox_api.EnvText.Entry.{parse_line-blank}
use aoox_api.EnvText.Lines.{parse_lines-none}
use aoox_api.EnvText.Notes.{drop_mark, Reading, read_line, read_lines, extract_notes}

abbrev pub IsBlank : Text → Type 0
IsBlank s = every is_space s ≡ true

trim_start-IsBlank : (s : Text) → is_empty (trim_start s) ≡ true → IsBlank s
unfolding trim_start
trim_start-IsBlank [] h = refl
trim_start-IsBlank (c ∷ s) h = ground (arith, trim_start-IsBlank s)

trim_end-IsBlank : (s : Text) → IsBlank (trim_end s) → IsBlank s
unfolding trim_end
trim_end-IsBlank [] h = refl
trim_end-IsBlank (c ∷ s) h = ground (arith, trim_end-IsBlank s)

pub trim-IsBlank : (s : Text) → is_empty (trim s) ≡ true → IsBlank s
unfolding trim
trim-IsBlank s h = trim_end-IsBlank s (trim_start-IsBlank (trim_end s) h)

pub IsBlank-trim_end : (s : Text) → IsBlank s → trim_end s ≡ []
unfolding trim_end
IsBlank-trim_end [] h = refl
IsBlank-trim_end (c ∷ s) h = ground (arith, IsBlank-trim_end s)

pub IsBlank-trim : (s : Text) → IsBlank s → trim s ≡ []
unfolding trim trim_start
IsBlank-trim s h = ap trim_start (IsBlank-trim_end s h)

push_first-IsBlank :
    (c : ℕ) (ls : List Text) → is_space c ≡ true → All IsBlank ls → All IsBlank (push_first c ls)
push_first-IsBlank c [] h hs = tt
push_first-IsBlank c (l ∷ ls) h (k, ks) = (ground arith, ks)

pub split_lines-IsBlank : (s : Text) → IsBlank s → All IsBlank (split_lines s)
unfolding split_lines
split_lines-IsBlank [] h = (refl, tt)
split_lines-IsBlank (c ∷ s) h =
    ground (arith, split_lines-IsBlank s, push_first-IsBlank c (split_lines s))

parse_lines-IsBlank : (ls : List Text) → All IsBlank ls → parse_lines ls ≡ []
unfolding parse_lines
parse_lines-IsBlank [] h = refl
parse_lines-IsBlank (l ∷ ls) (h, hs) =
    parse_lines-none l ls (parse_line-blank l (ap is_empty (IsBlank-trim l h)))
    ∙ parse_lines-IsBlank ls hs

pub parse_env_lines-IsBlank : (s : Text) → IsBlank s → parse_env_lines s ≡ []
unfolding parse_env_lines
parse_env_lines-IsBlank s h = parse_lines-IsBlank (split_lines s) (split_lines-IsBlank s h)

drop_mark-IsBlank : (s : Text) → IsBlank s → IsBlank (drop_mark s)
drop_mark-IsBlank [] h = refl
drop_mark-IsBlank (c ∷ s) h = ground arith

read_line-IsBlank :
    (l : Text) (r : Reading) → IsBlank l → read_line l r ≡ record { pending = []; found = r.found }
unfolding read_line
read_line-IsBlank l r h = rw (IsBlank-trim l h, read_line)

read_lines-IsBlank :
    (ls : List Text) (r : Reading) → All IsBlank ls → (read_lines ls r).found ≡ r.found
unfolding read_lines read_line
read_lines-IsBlank [] r h = refl
read_lines-IsBlank (l ∷ ls) r (h, hs) =
    ap (λ q. (read_lines ls q).found) (read_line-IsBlank l r h)
    ∙ read_lines-IsBlank ls (record { pending = []; found = r.found }) hs

pub extract_notes-IsBlank : (s : Text) → IsBlank s → extract_notes s ≡ []
unfolding extract_notes
extract_notes-IsBlank s h =
    read_lines-IsBlank (split_lines (drop_mark s)) (record { pending = []; found = [] })
      (split_lines-IsBlank (drop_mark s) (drop_mark-IsBlank s h))
