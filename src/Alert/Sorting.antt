-- ===== src/Alert/Sorting.antt =====
-- What the sort of the readings keeps.
use aoox_api.Prelude.{
  ℕ, suc, ◌+◌, ◌≤◌, ◌≡◌, refl, ap, ◌∙◌, Bool, true, false, ◌&&◌, ◌||◌, ◌⊎◌, inl, inr, Bool-cases,
  some, List, [], ◌∷◌, arith, leb, length, every, any, last, All,
}
use aoox_api.Alert.{MinuteReading, insert_by_time, sort_by_time}

pub IsSorted : List MinuteReading → Type 0
IsSorted [] = Unit
IsSorted (x ∷ xs) = All (λ y. x.at ≤ y.at) xs × IsSorted xs

length-insert_by_time :
    (r : MinuteReading) (xs : List MinuteReading) → length (insert_by_time r xs) ≡ suc (length xs)
unfolding insert_by_time
length-insert_by_time r [] = refl
length-insert_by_time r (x ∷ xs) = let ih = length-insert_by_time r xs in ground arith

pub length-sort_by_time : (xs : List MinuteReading) → length (sort_by_time xs) ≡ length xs
unfolding sort_by_time
length-sort_by_time [] = refl
length-sort_by_time (r ∷ xs) =
    length-insert_by_time r (sort_by_time xs) ∙ ap suc (length-sort_by_time xs)

every-insert_by_time :
    (p : MinuteReading → Bool) (r : MinuteReading) (xs : List MinuteReading)
    → every p (insert_by_time r xs) ≡ p r && every p xs
unfolding insert_by_time
every-insert_by_time p r [] = refl
every-insert_by_time p r (x ∷ xs) = let ih = every-insert_by_time p r xs in ground arith

pub every-sort_by_time :
    (p : MinuteReading → Bool) (xs : List MinuteReading) → every p (sort_by_time xs) ≡ every p xs
unfolding sort_by_time
every-sort_by_time p [] = refl
every-sort_by_time p (r ∷ xs) =
    every-insert_by_time p r (sort_by_time xs) ∙ ap (λ b. p r && b) (every-sort_by_time p xs)

any-insert_by_time :
    (p : MinuteReading → Bool) (r : MinuteReading) (xs : List MinuteReading)
    → any p (insert_by_time r xs) ≡ p r || any p xs
unfolding insert_by_time
any-insert_by_time p r [] = refl
any-insert_by_time p r (x ∷ xs) = let ih = any-insert_by_time p r xs in ground arith

pub any-sort_by_time :
    (p : MinuteReading → Bool) (xs : List MinuteReading) → any p (sort_by_time xs) ≡ any p xs
unfolding sort_by_time
any-sort_by_time p [] = refl
any-sort_by_time p (r ∷ xs) =
    any-insert_by_time p r (sort_by_time xs) ∙ ap (λ b. p r || b) (any-sort_by_time p xs)

All-weaken :
    (a b : ℕ) (xs : List MinuteReading) → a ≤ b → All (λ y. b ≤ y.at) xs → All (λ y. a ≤ y.at) xs
All-weaken a b [] h ys = tt
All-weaken a b (x ∷ xs) h (y, ys) = (omega (arith, h, y), All-weaken a b xs h ys)

All-insert_by_time :
    (a : ℕ) (r : MinuteReading) (xs : List MinuteReading)
    → a ≤ r.at
    → All (λ y. a ≤ y.at) xs
    → All (λ y. a ≤ y.at) (insert_by_time r xs)
unfolding insert_by_time
All-insert_by_time a r [] h ys = (h, tt)
All-insert_by_time a r (x ∷ xs) h (y, ys) =
    let ih = All-insert_by_time a r xs h ys in ground (arith, h, y, ys)

leb-cases : (a b : ℕ) → ((leb a b ≡ true) × (a ≤ b)) ⊎ ((leb a b ≡ false) × (b ≤ a))
leb-cases a b = elim (Bool-cases (leb a b)) [
  | inl h ↦ inl (h, ground arith)
  | inr h ↦ inr (h, ground arith)
]

insert_by_time-IsSorted :
    (r : MinuteReading) (xs : List MinuteReading) → IsSorted xs → IsSorted (insert_by_time r xs)
unfolding insert_by_time IsSorted
insert_by_time-IsSorted r [] s = (tt, tt)
insert_by_time-IsSorted r (x ∷ xs) (low, s) =
    let ih = insert_by_time-IsSorted r xs s in
    elim (leb-cases r.at x.at) [
      | inl (before, le) ↦ rw before ((le, All-weaken r.at x.at xs le low), (low, s))
      | inr (after, ge) ↦ rw after (All-insert_by_time x.at r xs ge low, ih)
    ]

pub sort_by_time-IsSorted : (xs : List MinuteReading) → IsSorted (sort_by_time xs)
unfolding sort_by_time IsSorted
sort_by_time-IsSorted [] = tt
sort_by_time-IsSorted (r ∷ xs) =
    insert_by_time-IsSorted r (sort_by_time xs) (sort_by_time-IsSorted xs)

-- In a sorted list, some reading is as late as `t` exactly if the last one is.
pub any-last :
    (t m : ℕ) (x : MinuteReading) (xs : List MinuteReading)
    → IsSorted (x ∷ xs)
    → (newest : MinuteReading) → last (x ∷ xs) ≡ some newest
    → any (λ r. leb t (r.at + m)) (x ∷ xs) ≡ leb t (newest.at + m)
unfolding IsSorted
any-last t m x [] s newest h = ground arith
any-last t m x (y ∷ ys) s newest h =
    let ih = any-last t m y ys s.1 newest h in let le : x.at ≤ y.at = s.0.0 in ground (arith, le)
