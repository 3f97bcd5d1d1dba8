-- ===== src/Base/Text/Strip.antt =====
-- `s.strip()` and `s.removeprefix(p)`.
use Prim.Native.Nat.{ℕ}
use mathlib.Core.Path.{◌≡◌, refl}
use mathlib.Core.Bool.{Bool, false, ◌||◌, ◌&&◌}
use mathlib.Core.List.{List, [], ◌∷◌, ◌++◌}
use native.Mathlib.Omega.{arith}
use asb_cloud_api.Base.Equality.{◌==◌, nat_eq, if◌then◌else◌}
use asb_cloud_api.Base.Tests.{leb}
use asb_cloud_api.Base.Lists.{All}

abbrev pub is_space : ℕ → Bool
is_space c = c == b' ' || leb 9 c && leb c 13

left_strip : List ℕ → List ℕ
left_strip [] = []
left_strip (c ∷ s) = let rest = left_strip s in if is_space c then rest else c ∷ s

right_strip : List ℕ → List ℕ
right_strip [] = []
right_strip (c ∷ s) = elim (right_strip s) [
  | [] ↦ if is_space c then [] else c ∷ []
  | d ∷ r ↦ c ∷ d ∷ r
]

unfoldable pub strip : List ℕ → List ℕ
unfolding left_strip right_strip
strip s = right_strip (left_strip s)

-- The text after the prefix, or the whole text where it has another beginning.
remove_from : List ℕ → List ℕ → List ℕ → List ℕ
remove_from whole [] s = s
remove_from whole (c ∷ p) [] = whole
remove_from whole (c ∷ p) (d ∷ s) =
    let rest = remove_from whole p s in if c == d then rest else whole

unfoldable pub remove_prefix : List ℕ → List ℕ → List ℕ
unfolding remove_from
remove_prefix p s = remove_from s p s

abbrev pub IsInk : ℕ → Type 0
IsInk c = is_space c ≡ false

right_strip-eq_self : (s : List ℕ) → All IsInk s → right_strip s ≡ s
unfolding right_strip
right_strip-eq_self [] h = refl
right_strip-eq_self (c ∷ []) h = ground arith
right_strip-eq_self (c ∷ d ∷ s) h = rw (right_strip-eq_self (d ∷ s) h.1, right_strip)

pub strip-eq_self : (s : List ℕ) → All IsInk s → strip s ≡ s
unfolding strip left_strip
strip-eq_self [] h = right_strip-eq_self [] h
strip-eq_self (c ∷ s) h = rw h.0 (right_strip-eq_self (c ∷ s) h)

remove_from-append : (whole p s : List ℕ) → remove_from whole p (p ++ s) ≡ s
unfolding remove_from
remove_from-append whole [] s = refl
remove_from-append whole (c ∷ p) s = ground (arith, remove_from-append whole p s)

pub remove_prefix-append : (p s : List ℕ) → remove_prefix p (p ++ s) ≡ s
unfolding remove_prefix
remove_prefix-append p s = remove_from-append (p ++ s) p s
