-- ===== src/Semver/Tests.antt =====
-- Versions of one digit each, with a small parser in place of `parseSemver`.
use aoox_api.Prelude.{◌-◌, ◌≡◌, refl, Option, none, some, List, [], ◌∷◌, Text, codes}
use aoox_api.Semver.{Semver, compare_numbers, compare_semver, newest_version, allows_prerelease}
use aoox_api.Semver.Newest.{IsNewest, newest_version-IsNewest}

-- `1.2.3`, and `1.2.3-x`.
abbrev parse_digits : Text → Option Semver
parse_digits (a ∷ _ ∷ b ∷ _ ∷ c ∷ []) =
    some (record { major = a - 48; minor = b - 48; patch = c - 48; prerelease = [] })
parse_digits (a ∷ _ ∷ b ∷ _ ∷ c ∷ _ ∷ d ∷ s) =
    some (record { major = a - 48; minor = b - 48; patch = c - 48; prerelease = (d ∷ s) ∷ [] })
parse_digits s = none

abbrev published : List Text
published = codes "latest" ∷ codes "1.2.3" ∷ codes "2.0.0-rc" ∷ codes "1.3.0" ∷ []

newest_version-published :
    newest_version parse_digits published (codes "1.0.0") ≡ some (codes "1.3.0")
unfolding newest_version compare_semver compare_numbers
newest_version-published = refl

newest_version-IsNewest_example :
    IsNewest parse_digits
      (allows_prerelease (parse_digits (codes "1.0.0")))
      published
      (newest_version parse_digits published (codes "1.0.0"))
newest_version-IsNewest_example = newest_version-IsNewest parse_digits published (codes "1.0.0")
