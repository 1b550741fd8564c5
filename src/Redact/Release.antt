-- ===== src/Redact/Release.antt =====
-- Where `safeLength` cuts.
use aoox_api.Prelude.{ℕ, ◌+◌, ◌≤◌, List, [], ◌∷◌, arith, length, All, Text}
use aoox_api.Redact.{hold_back, settle_cut, safe_length}
use aoox_api.Redact.Search.{IsHeld, IsWhole, hold_back-IsHeld, settle_cut-IsWhole, hold_back-below}

All-IsHeld :
    (text : Text) (forms : List Text) (low high : ℕ)
    → low ≤ high
    → All (IsHeld text high) forms
    → All (IsHeld text low) forms
unfolding IsHeld
All-IsHeld text [] low high below h = tt
All-IsHeld text (f ∷ fs) low high below (held, rest) = (
  λ k inside begun. let at = held k inside begun in omega (arith, below, at),
  All-IsHeld text fs low high below rest,
)

-- The cut is within the text, no complete form of a secret lies across it, and every place from which
-- the text could still become one is at the cut or behind it.
pub safe_length-IsHeld :
    (text : Text) (forms : List Text)
    → safe_length text forms ≤ length text
      × All (IsWhole text (safe_length text forms)) forms
      × All (IsHeld text (safe_length text forms)) forms
unfolding safe_length
safe_length-IsHeld text forms =
    let first = hold_back text forms (length text) in
    let below = hold_back-below text forms (length text) in
    let (less, whole) =
      settle_cut-IsWhole text forms (length text + 1) first (omega (arith, below)) in
    (
      omega (arith, below, less),
      whole,
      All-IsHeld text forms (settle_cut text forms (length text + 1) first) first less
          (hold_back-IsHeld text forms (length text)),
    )
