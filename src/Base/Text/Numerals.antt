-- ===== src/Base/Text/Numerals.antt =====
-- `str(n)` and `int(s)` for Python's integers, and their round trip. `int` is modelled on texts with
-- no underscore, the only ones it is given here.
use Prim.Native.Nat.{ℕ, zero, suc, ◌+◌, ◌-◌, ◌*◌, ◌/◌, ◌%◌, ◌<◌}
use mathlib.Core.Path.{◌≡◌, refl}
use mathlib.Core.Logic.{◌≢◌}
use mathlib.Core.Bool.{Bool, true, false, ◌&&◌}
use mathlib.Core.Option
use mathlib.Core.Option.{Option, none, some}
use mathlib.Core.List.{List, [], ◌∷◌}
use native.Mathlib.Decide.{ℕ_discrete}
use native.Mathlib.Omega.{arith}
use asb_cloud_api.Base.Equality.{◌==◌, contains, nat_eq, if◌then◌else◌}
use asb_cloud_api.Base.Tests.{leb, ltb}
use asb_cloud_api.Base.Lists.{All}
use asb_cloud_api.Base.Text.Strip.{strip, IsInk, strip-eq_self}
use asb_cloud_api.Base.Int.{ℤ, pos, negsuc}

-- The digits of `n` in front of `rest`, with fuel; each round divides by ten.
unfoldable pub digits : ℕ → ℕ → List ℕ → List ℕ
digits zero n rest = rest
digits (suc f) n rest =
    let more = digits f (n / 10) ((b'0' + n % 10) ∷ rest) in
    if ltb n 10 then (b'0' + n) ∷ rest else more

-- `str(n)`
unfoldable pub show_int : ℤ → List ℕ
show_int (pos n) = digits (suc n) n []
show_int (negsuc n) = b'-' ∷ digits (suc (suc n)) (suc n) []

abbrev pub is_digit : ℕ → Bool
is_digit c = leb b'0' c && leb c b'9'

parse_digits : ℕ → List ℕ → Option ℕ
parse_digits acc [] = some acc
parse_digits acc (c ∷ s) =
    let rest = parse_digits (acc * 10 + (c - b'0')) s in if is_digit c then rest else none

parse_nonempty : List ℕ → Option ℕ
parse_nonempty [] = none
parse_nonempty (c ∷ s) = parse_digits 0 (c ∷ s)

negated : ℕ → ℤ
negated zero = pos 0
negated (suc n) = negsuc n

parse_signed : List ℕ → Option ℤ
parse_signed [] = none
parse_signed (c ∷ s) =
    if c == b'-'
    then Option.map negated (parse_nonempty s)
    else if c == b'+'
    then Option.map pos (parse_nonempty s)
    else Option.map pos (parse_nonempty (c ∷ s))

-- `int(s)`; `none` is the `ValueError`.
unfoldable pub parse_int : List ℕ → Option ℤ
unfolding parse_signed parse_nonempty parse_digits negated
parse_int s = parse_signed (strip s)

parse_digits-digits :
    (f n : ℕ) (s : List ℕ) → n < f → parse_digits 0 (digits f n s) ≡ parse_digits n s
unfolding digits parse_digits
parse_digits-digits zero n s h = elim h [ ]
parse_digits-digits (suc f) n s h =
    ground (arith, parse_digits-digits f (n / 10) ((b'0' + n % 10) ∷ s))

abbrev IsDigit : ℕ → Type 0
IsDigit c = is_digit c ≡ true

digits-IsDigit : (f n : ℕ) (s : List ℕ) → All IsDigit s → All IsDigit (digits f n s)
unfolding digits
digits-IsDigit zero n s h = h
digits-IsDigit (suc f) n s h =
    ground (arith, digits-IsDigit f (n / 10) ((b'0' + n % 10) ∷ s) (ground arith, h))

digits_cons-ne-nil : (f n c : ℕ) (s : List ℕ) → digits f n (c ∷ s) ≢ []
unfolding digits
digits_cons-ne-nil zero n c s = λ e. cc
digits_cons-ne-nil (suc f) n c s =
    ground (arith, digits_cons-ne-nil f (n / 10) (b'0' + n % 10) (c ∷ s))

digits-ne-nil : (f n : ℕ) → digits (suc f) n [] ≢ []
unfolding digits
digits-ne-nil f n = ground (arith, digits_cons-ne-nil f (n / 10) (b'0' + n % 10) [])

All-IsInk : (s : List ℕ) → All IsDigit s → All IsInk s
All-IsInk [] h = tt
All-IsInk (c ∷ s) h = (ground arith, All-IsInk s h.1)

parse_int-unsigned :
    (s : List ℕ) → s ≢ [] → All IsDigit s → parse_int s ≡ Option.map pos (parse_digits 0 s)
unfolding parse_signed parse_nonempty parse_int
parse_int-unsigned [] n h = absurd (n refl)
parse_int-unsigned (c ∷ s) n h =
    rw (strip-eq_self (c ∷ s) (All-IsInk (c ∷ s) h), parse_int) (ground arith)

parse_int-negative :
    (s : List ℕ)
    → s ≢ []
    → All IsDigit s
    → parse_int (b'-' ∷ s) ≡ Option.map negated (parse_digits 0 s)
unfolding parse_signed parse_nonempty parse_int ℕ_discrete
parse_int-negative [] n h = absurd (n refl)
parse_int-negative (c ∷ s) n h =
    rw (strip-eq_self (b'-' ∷ c ∷ s) (refl, All-IsInk (c ∷ s) h), parse_int)

-- A printed integer reads back as itself.
pub parse_int-show_int : (z : ℤ) → parse_int (show_int z) ≡ some z
unfolding show_int parse_digits negated
parse_int-show_int (pos n) =
    rw
      (parse_int-unsigned (digits (suc n) n []) (digits-ne-nil n n)
        (digits-IsDigit (suc n) n [] tt))
      (rw (parse_digits-digits (suc n) n [] (omega arith)) refl)
parse_int-show_int (negsuc n) =
    rw
      (parse_int-negative (digits (suc (suc n)) (suc n) []) (digits-ne-nil (suc n) (suc n))
        (digits-IsDigit (suc (suc n)) (suc n) [] tt))
      (rw (parse_digits-digits (suc (suc n)) (suc n) [] (omega arith)) refl)

pub contains-digits :
    (f n c : ℕ) (s : List ℕ)
    → is_digit c ≡ false
    → contains s c ≡ false
    → contains (digits f n s) c ≡ false
unfolding digits
contains-digits zero n c s h k = k
contains-digits (suc f) n c s h k =
    ground (arith, contains-digits f (n / 10) c ((b'0' + n % 10) ∷ s) h)

-- Only digits and a minus sign are printed.
pub contains-show_int :
    (z : ℤ) (c : ℕ) → is_digit c ≡ false → c ≢ b'-' → contains (show_int z) c ≡ false
unfolding show_int
contains-show_int (pos n) c h k = contains-digits (suc n) n c [] h refl
contains-show_int (negsuc n) c h k =
    ground (arith, contains-digits (suc (suc n)) (suc n) c [] h refl)
