-- ===== src/Base/Text.antt =====
-- Text as code points, for the code that walks it: `lower`, `in`, `split`, `str(int)`, `int(str)`.
-- Case and digits are those of ASCII.
pub mod Numerals
pub mod Split
pub mod Strip
use Prim.Native.Char.{code}
use Prim.Native.Nat.{ℕ, ◌+◌}
use Prim.Native.String.{String, ◌++◌ as ◌<>◌}
use mathlib.Core.Bool.{Bool, true, false, ◌&&◌, ◌||◌}
use mathlib.Core.List.{List, [], ◌∷◌, map}
use asb_cloud_api.Base.Equality.{◌==◌, nat_eq, if◌then◌else◌}
use asb_cloud_api.Base.Tests.{leb}
use asb_cloud_api.Base.Int.{ℤ}
use asb_cloud_api.Base.Text.Numerals.{show_int}

abbrev pub codes : String → List ℕ
codes String.[] = []
codes (String.◌∷◌ c s) = code c ∷ codes s

abbrev pub lower_code : ℕ → ℕ
lower_code c = if leb b'A' c && leb c b'Z' then c + 32 else c

-- `s.lower()`
abbrev pub lower : List ℕ → List ℕ
lower = map lower_code

abbrev pub is_prefix_of : List ℕ → List ℕ → Bool
is_prefix_of [] s = true
is_prefix_of (c ∷ p) [] = false
is_prefix_of (c ∷ p) (d ∷ s) = c == d && is_prefix_of p s

-- `p in s`
abbrev pub is_infix_of : List ℕ → List ℕ → Bool
is_infix_of p [] = is_prefix_of p []
is_infix_of p (d ∷ s) = is_prefix_of p (d ∷ s) || is_infix_of p s

glyph : ℕ → String
glyph c =
    if c == b'0'
    then "0"
    else if c == b'1'
    then "1"
    else if c == b'2'
    then "2"
    else if c == b'3'
    then "3"
    else if c == b'4'
    then "4"
    else if c == b'5'
    then "5"
    else if c == b'6'
    then "6"
    else if c == b'7'
    then "7"
    else if c == b'8'
    then "8"
    else if c == b'9'
    then "9"
    else "-"

glyphs : List ℕ → String
glyphs [] = ""
glyphs (c ∷ s) = glyph c <> glyphs s

-- `str(n)`, as a native text.
unfoldable pub str_int : ℤ → String
unfolding glyph glyphs show_int
str_int z = glyphs (show_int z)
