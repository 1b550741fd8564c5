-- ===== src/EnvText/Feeds.antt =====
-- Joining lines and splitting the text again: what the lines say is kept, though a carriage return
-- at the end of a line is taken into the separator.
use aoox_api.Prelude.{
  ℕ, ◌≡◌, refl, sym, ap, ◌∙◌, ◌⊎◌, inl, inr, ◌&&◌, none, List, [], ◌∷◌, ◌++◌, arith, if◌then◌else◌,
  ◌==◌, Text, is_empty, All, or_else, ◌≢◌, trim,
}
use aoox_api.EnvText.{push_first, split_lines, join_lines, parse_line}
use aoox_api.EnvText.Entry.{NoLineFeed, parse_line-return, parse_line-blank}
use aoox_api.EnvText.Maps.{entry_value, line_value}

strip_return : Text → Text
strip_return [] = []
strip_return (c ∷ l) = if c == 13 && is_empty l then [] else c ∷ strip_return l

strip_return-cases : (l : Text) → (strip_return l ≡ l) ⊎ (strip_return l ++ (13 ∷ []) ≡ l)
unfolding strip_return
strip_return-cases [] = inl refl
strip_return-cases (c ∷ []) = ground arith
strip_return-cases (c ∷ d ∷ l) = ground (arith, strip_return-cases (d ∷ l))

parse_line-strip_return : (l : Text) → parse_line (strip_return l) ≡ parse_line l
parse_line-strip_return l = elim (strip_return-cases l) [
  | inl same ↦ ap parse_line same
  | inr more ↦ sym (parse_line-return (strip_return l)) ∙ ap parse_line more
]

split_lines-feed :
    (l s : Text) → NoLineFeed l → split_lines (l ++ (10 ∷ s)) ≡ strip_return l ∷ split_lines s
unfolding split_lines strip_return
split_lines-feed [] s h = refl
split_lines-feed (c ∷ []) s h = ground arith
split_lines-feed (c ∷ d ∷ l) s h = ground (arith, split_lines-feed (d ∷ l) s)

split_lines-line : (l : Text) → NoLineFeed l → split_lines l ≡ l ∷ []
unfolding split_lines
split_lines-line [] h = refl
split_lines-line (c ∷ []) h = ground arith
split_lines-line (c ∷ d ∷ l) h = ground (arith, split_lines-line (d ∷ l))

push_first-NoLineFeed :
    (c : ℕ) (ls : List Text) → c ≢ 10 → All NoLineFeed ls → All NoLineFeed (push_first c ls)
push_first-NoLineFeed c [] h hs = tt
push_first-NoLineFeed c (l ∷ ls) h (k, ks) = ((h, k), ks)

pub split_lines-NoLineFeed : (s : Text) → All NoLineFeed (split_lines s)
unfolding split_lines
split_lines-NoLineFeed [] = (tt, tt)
split_lines-NoLineFeed (c ∷ s) =
    ground (arith, split_lines-NoLineFeed s, push_first-NoLineFeed c (split_lines s))

pub line_value-empty : (k : Text) → line_value k (split_lines []) ≡ none
unfolding line_value split_lines trim
line_value-empty k = ap (entry_value k) (parse_line-blank [] refl)

line_value-strip_return :
    (k l : Text) (ls : List Text)
    → line_value k (strip_return l ∷ ls) ≡ or_else (line_value k ls) (entry_value k (parse_line l))
unfolding line_value
line_value-strip_return k l ls =
    ap (λ e. or_else (line_value k ls) (entry_value k e)) (parse_line-strip_return l)

pub line_value-split-join :
    (k : Text) (ls : List Text)
    → All NoLineFeed ls
    → line_value k (split_lines (join_lines ls)) ≡ line_value k ls
unfolding join_lines line_value
line_value-split-join k [] h = line_value-empty k
line_value-split-join k (l ∷ []) (h, _) = ap (line_value k) (split_lines-line l h)
line_value-split-join k (l ∷ m ∷ ms) (h, hs) =
    let s = join_lines (m ∷ ms) in
    ap (line_value k) (split_lines-feed l s h)
    ∙ line_value-strip_return k l (split_lines s)
    ∙ ap (λ v. or_else v (entry_value k (parse_line l))) (line_value-split-join k (m ∷ ms) hs)
