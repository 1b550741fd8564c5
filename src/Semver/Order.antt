-- ===== src/Semver/Order.antt =====
-- Comparisons that are total orders, and how they compose.
use aoox_api.Prelude.{◌≡◌, refl, arith}
use aoox_api.Semver.{Sign, less, equal, more, then_by, compare_numbers}

unfoldable pub flip : Sign → Sign
flip less = more
flip equal = equal
flip more = less

-- What two comparisons in a row say of the outer two.
abbrev pub Joins : Sign → Sign → Sign → Type 0
Joins equal t r = r ≡ t
Joins less equal r = r ≡ less
Joins less less r = r ≡ less
Joins less more r = Unit
Joins more equal r = r ≡ more
Joins more more r = r ≡ more
Joins more less r = Unit

-- A total preorder: swapping the sides flips the sign, and comparisons in a row compose.
pub record IsOrder {ℓ} {A : Type ℓ} (cmp : A → A → Sign) : Type ℓ where
  pub flips : (a b : A) → cmp b a ≡ flip (cmp a b)
  pub joins : (a b c : A) → Joins (cmp a b) (cmp b c) (cmp a c)

pub then_by-flip :
    (s s' t t' : Sign) → s' ≡ flip s → t' ≡ flip t → then_by s' t' ≡ flip (then_by s t)
unfolding flip
then_by-flip less s' t t' h k = ground (arith, h)
then_by-flip equal s' t t' h k = ground (arith, h, k)
then_by-flip more s' t t' h k = ground (arith, h)

pub Joins-less : (s : Sign) → Joins s less less
Joins-less less = refl
Joins-less equal = refl
Joins-less more = tt

pub Joins-more : (s : Sign) → Joins s more more
Joins-more less = tt
Joins-more equal = refl
Joins-more more = refl

pub less-Joins : (t : Sign) → Joins less t less
less-Joins less = refl
less-Joins equal = refl
less-Joins more = tt

pub more-Joins : (t : Sign) → Joins more t more
more-Joins less = tt
more-Joins equal = refl
more-Joins more = refl

pub then_by-Joins :
    (s t r s' t' r' : Sign)
    → Joins s t r
    → Joins s' t' r'
    → Joins (then_by s s') (then_by t t') (then_by r r')
then_by-Joins equal equal r s' t' r' h k = rw h k
then_by-Joins equal less r s' t' r' h k = rw h (Joins-less s')
then_by-Joins equal more r s' t' r' h k = rw h (Joins-more s')
then_by-Joins less equal r s' t' r' h k = rw h (less-Joins t')
then_by-Joins less less r s' t' r' h k = rw h
then_by-Joins less more r s' t' r' h k = tt
then_by-Joins more equal r s' t' r' h k = rw h (more-Joins t')
then_by-Joins more less r s' t' r' h k = tt
then_by-Joins more more r s' t' r' h k = rw h

pub compare_numbers-IsOrder : IsOrder compare_numbers
unfolding compare_numbers flip
compare_numbers-IsOrder = record { flips = λ a b. ground arith; joins = λ a b c. ground arith }
