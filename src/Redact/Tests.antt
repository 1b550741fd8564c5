-- ===== src/Redact/Tests.antt =====
-- Masking at concrete texts.
use aoox_api.Prelude.{
  ◌≤◌, ◌≡◌, refl, true, List, [], ◌∷◌, includes, length, All, Text, codes, starts_with,
}
use aoox_api.Redact.{new_redactor, add, mask, safe_length}
use aoox_api.Redact.Search.{IsHeld, IsWhole}
use aoox_api.Redact.Release.{safe_length-IsHeld}
use aoox_api.Redact.Stream.{stream, join, stream-mask}

-- A secret in two chunks.
abbrev chunks : List Text
chunks = codes "token=hun" ∷ codes "ter2!" ∷ []

mask-longest :
    mask (codes "hunter2" ∷ codes "hunt" ∷ []) (codes "a hunter2, a hunt") ≡ codes "a ***, a ***"
unfolding mask starts_with
mask-longest = refl

safe_length-held : safe_length (codes "token=hun") (codes "hunter2" ∷ []) ≡ 6
unfolding safe_length starts_with
safe_length-held = refl

stream-split : stream (add (λ s. s) (codes "hunter2") new_redactor) chunks [] ≡ codes "token=***!"
unfolding stream add includes starts_with
stream-split = refl

safe_length-IsHeld_example :
    safe_length (codes "token=hun") (codes "hunter2" ∷ []) ≤ length (codes "token=hun")
    × All
        (IsWhole (codes "token=hun") (safe_length (codes "token=hun") (codes "hunter2" ∷ [])))
        (codes "hunter2" ∷ [])
    × All
        (IsHeld (codes "token=hun") (safe_length (codes "token=hun") (codes "hunter2" ∷ [])))
        (codes "hunter2" ∷ [])
safe_length-IsHeld_example = safe_length-IsHeld (codes "token=hun") (codes "hunter2" ∷ [])

stream-mask_example :
    stream (add (λ s. s) (codes "hunter2") new_redactor) chunks []
    ≡ mask (codes "hunter2" ∷ []) (join chunks)
stream-mask_example = stream-mask (λ s. s) (codes "hunter2") chunks refl refl

abbrev secrets : List Text
secrets = codes "hunt" ∷ codes "hunter2" ∷ []

in_secrets : includes secrets (codes "hunt") ≡ true
unfolding includes
in_secrets = refl
