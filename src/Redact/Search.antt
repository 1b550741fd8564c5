-- ===== src/Redact/Search.antt =====
-- Loops over positions, and the rounds of `safeLength`.
use aoox_api.Prelude.{
  ℕ, zero, suc, ◌+◌, ◌-◌, ◌≤◌, ◌<◌, ◌≡◌, inl, inr, refl, Bool, true, false, Option, none, some,
  some-injective, List, [], ◌∷◌, arith, Bool-cases, Option-cases, length, starts_with, drop, ==_iff,
  ◌==◌, subst, ap, All, Text, ltb,
}
use aoox_api.Redact.{
  first_from, is_begun, begun_at, earlier, hold_back, is_cut_through, cut_through_at, pull_back,
  settle_cut,
}

first_from-none :
    (test : ℕ → Bool) (n i j : ℕ) → first_from test n i ≡ none → i ≤ j → j < i + n → test j ≡ false
unfolding first_from
first_from-none test zero i j h low high = absurd (omega (arith, low, high))
first_from-none test (suc n) i j h low high = elim (Bool-cases (test i)) [
  | inl here ↦ absurd (cc (rw (here, first_from) at h))
  | inr elsewhere ↦ elim (Bool-cases (i == j)) [
    | inl same ↦ subst (λ k. test k ≡ false) ((==_iff i j).0 same) elsewhere
    | inr differs ↦
        first_from-none test n (i + 1) j (rw (elsewhere, first_from) at h)
          (ground (arith, differs, low)) (omega (arith, high))
  ]
]

first_from-least :
    (test : ℕ → Bool) (n i k : ℕ)
    → test k ≡ true
    → i ≤ k
    → k < i + n
    → (j : ℕ) × first_from test n i ≡ some j × j ≤ k
unfolding first_from
first_from-least test zero i k passes low high = absurd (omega (arith, low, high))
first_from-least test (suc n) i k passes low high = elim (Bool-cases (test i)) [
  | inl here ↦ (i, rw (here, first_from) refl, low)
  | inr elsewhere ↦ elim (Bool-cases (i == k)) [
    | inl same ↦ absurd (cc (elsewhere, passes, ap test ((==_iff i k).0 same)))
    | inr differs ↦
        let (j, found, least) =
          first_from-least test n (i + 1) k passes (ground (arith, differs, low))
            (omega (arith, high)) in
        (j, rw (elsewhere, first_from) found, least)
  ]
]

first_from-below : (test : ℕ → Bool) (n i j : ℕ) → first_from test n i ≡ some j → j < i + n
unfolding first_from
first_from-below test zero i j h = absurd (cc)
first_from-below test (suc n) i j h = elim (Bool-cases (test i)) [
  | inl here ↦ let same = some-injective i j (rw (here, first_from) at h) in omega (arith, same)
  | inr elsewhere ↦
      let ih = first_from-below test n (i + 1) j (rw (elsewhere, first_from) at h) in
      omega (arith, ih)
]

-- What could still become a form is held back.
earlier-begun :
    (text f : Text) (cut k : ℕ)
    → k < length text
    → is_begun text f k ≡ true
    → earlier (begun_at text f) cut ≤ k
unfolding begun_at is_begun
earlier-begun text f cut k inside begun =
    let start = (length text + 1) - length f in
    let (j, found, least) =
      first_from-least (is_begun text f) (length text - start) start k begun (ground arith)
        (ground arith) in
    rw found (omega (arith, least))

earlier-below : (o : Option ℕ) (cut : ℕ) → earlier o cut ≤ cut
earlier-below none cut = omega arith
earlier-below (some i) cut = omega arith

pub hold_back-below : (text : Text) (forms : List Text) (cut : ℕ) → hold_back text forms cut ≤ cut
unfolding hold_back
hold_back-below text [] cut = omega arith
hold_back-below text (f ∷ fs) cut =
    let ih = hold_back-below text fs (earlier (begun_at text f) cut) in
    let step = earlier-below (begun_at text f) cut in omega (arith, ih, step)

-- Every place where the text could still become a form is at the cut or behind it.
unfoldable pub IsHeld : Text → ℕ → Text → Type 0
IsHeld text cut f = (k : ℕ) → k < length text → is_begun text f k ≡ true → cut ≤ k

pub hold_back-IsHeld :
    (text : Text) (forms : List Text) (cut : ℕ) → All (IsHeld text (hold_back text forms cut)) forms
unfolding hold_back IsHeld
hold_back-IsHeld text [] cut = tt
hold_back-IsHeld text (f ∷ fs) cut =
    let cut' = earlier (begun_at text f) cut in
    (
      λ k inside begun.
          let below = hold_back-below text fs cut' in
          let held = earlier-begun text f cut k inside begun in omega (arith, below, held),
      hold_back-IsHeld text fs cut',
    )

-- No complete form lies across the cut.
unfoldable pub IsWhole : Text → ℕ → Text → Type 0
IsWhole text cut f = (s : ℕ) → s < cut → starts_with (drop s text) f ≡ true → s + length f ≤ cut

cut_through_at-below : (text f : Text) (cut s : ℕ) → cut_through_at text f cut ≡ some s → s < cut
unfolding cut_through_at
cut_through_at-below text f cut s h =
    let start = cut - length f in
    let below = first_from-below (is_cut_through text f cut) (cut - start) start s h in
    ground (arith, below)

cut_through_at-IsWhole :
    (text f : Text) (cut : ℕ) → cut_through_at text f cut ≡ none → IsWhole text cut f
unfolding cut_through_at is_cut_through IsWhole
cut_through_at-IsWhole text f cut h s inside there = elim (Bool-cases (ltb cut (s + length f))) [
  | inl over ↦
      let start = cut - length f in
      let never =
        first_from-none (is_cut_through text f cut) (cut - start) start s h (ground (arith, over))
          (ground (arith, inside)) in
      absurd (ground (arith, never, there, over))
  | inr short ↦ ground (arith, short)
]

pull_back-below :
    (text : Text) (forms : List Text) (cut : ℕ) (moved : Bool)
    → (pull_back text forms (cut, moved)).0 ≤ cut
unfolding pull_back
pull_back-below text [] cut moved = omega arith
pull_back-below text (f ∷ fs) cut moved = elim (Option-cases (cut_through_at text f cut)) [
  | inl whole ↦ rw (whole, pull_back) (pull_back-below text fs cut moved)
  | inr (s, over) ↦
      let below = cut_through_at-below text f cut s over in
      let ih = pull_back-below text fs s true in rw (over, pull_back) (omega (arith, below, ih))
]

-- A round that says that it moved the cut did.
pull_back-moved :
    (text : Text) (forms : List Text) (cut : ℕ)
    → (pull_back text forms (cut, false)).1 ≡ true
    → (pull_back text forms (cut, false)).0 < cut
unfolding pull_back
pull_back-moved text [] cut h = absurd (cc)
pull_back-moved text (f ∷ fs) cut h = elim (Option-cases (cut_through_at text f cut)) [
  | inl whole ↦ rw (whole, pull_back) (pull_back-moved text fs cut (rw (whole, pull_back) at h))
  | inr (s, over) ↦
      let below = cut_through_at-below text f cut s over in
      let ih = pull_back-below text fs s true in rw (over, pull_back) (omega (arith, below, ih))
]

pull_back-stays_moved :
    (text : Text) (forms : List Text) (cut : ℕ) → (pull_back text forms (cut, true)).1 ≡ true
unfolding pull_back
pull_back-stays_moved text [] cut = refl
pull_back-stays_moved text (f ∷ fs) cut = elim (Option-cases (cut_through_at text f cut)) [
  | inl whole ↦ rw (whole, pull_back) (pull_back-stays_moved text fs cut)
  | inr (s, over) ↦ rw (over, pull_back) (pull_back-stays_moved text fs s)
]

-- A round that does not move the cut found every form whole.
pull_back-IsWhole :
    (text : Text) (forms : List Text) (cut : ℕ)
    → (pull_back text forms (cut, false)).1 ≡ false
    → (pull_back text forms (cut, false)).0 ≡ cut × All (IsWhole text cut) forms
unfolding pull_back
pull_back-IsWhole text [] cut h = (refl, tt)
pull_back-IsWhole text (f ∷ fs) cut h = elim (Option-cases (cut_through_at text f cut)) [
  | inl whole ↦
      let (same, rest) = pull_back-IsWhole text fs cut (rw (whole, pull_back) at h) in
      (rw (whole, pull_back) same, (cut_through_at-IsWhole text f cut whole, rest))
  | inr (s, over) ↦ absurd (cc (pull_back-stays_moved text fs s, rw (over, pull_back) at h))
]

-- Each round that moves the cut makes it smaller, so that more rounds than the cut are enough.
pub settle_cut-IsWhole :
    (text : Text) (forms : List Text) (fuel cut : ℕ)
    → cut < fuel
    → settle_cut text forms fuel cut ≤ cut
      × All (IsWhole text (settle_cut text forms fuel cut)) forms
unfolding settle_cut
settle_cut-IsWhole text forms zero cut enough = absurd (omega (arith, enough))
settle_cut-IsWhole text forms (suc fuel) cut enough =
    elim (Bool-cases (pull_back text forms (cut, false)).1) [
      | inl moved ↦
          let less = pull_back-moved text forms cut moved in
          let cut' = (pull_back text forms (cut, false)).0 in
          let (below, whole) =
            settle_cut-IsWhole text forms fuel cut' (omega (arith, less, enough)) in
          rw (moved, settle_cut) (omega (arith, below, less), whole)
      | inr still ↦
          let (same, whole) = pull_back-IsWhole text forms cut still in
          rw (still, same, settle_cut) (omega arith, whole)
    ]
