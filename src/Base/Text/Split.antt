-- ===== src/Base/Text/Split.antt =====
-- `s.split(sep)` for a separator of one character.
use Prim.Native.Nat.{ℕ}
use mathlib.Core.Path.{◌≡◌, refl}
use mathlib.Core.Bool.{false}
use mathlib.Core.List.{List, [], ◌∷◌, ◌++◌}
use native.Mathlib.Omega.{arith}
use asb_cloud_api.Base.Equality.{◌==◌, contains, nat_eq, if◌then◌else◌}

-- The part before the first separator goes on the first piece.
abbrev pub cons_head : ℕ → List (List ℕ) → List (List ℕ)
cons_head c [] = (c ∷ []) ∷ []
cons_head c (p ∷ ps) = (c ∷ p) ∷ ps

abbrev pub split : ℕ → List ℕ → List (List ℕ)
split sep [] = [] ∷ []
split sep (c ∷ s) = let rest = split sep s in if c == sep then [] ∷ rest else cons_head c rest

pub split-append :
    (sep : ℕ) (s t : List ℕ) → contains s sep ≡ false → split sep (s ++ (sep ∷ t)) ≡ s ∷ split sep t
split-append sep [] t h = ground arith
split-append sep (c ∷ s) t h = ground (arith, split-append sep s t)

pub split-eq_self : (sep : ℕ) (s : List ℕ) → contains s sep ≡ false → split sep s ≡ s ∷ []
split-eq_self sep [] h = refl
split-eq_self sep (c ∷ s) h = ground (arith, split-eq_self sep s)
