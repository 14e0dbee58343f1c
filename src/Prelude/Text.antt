-- ===== src/Prelude/Text.antt =====
-- `strings.ToLower` and `strings.TrimSpace` of Go's standard library. Spaces are those of
-- `unicode.IsSpace`; letters are lowered in the ASCII range, the one that the program's keywords use.
pub mod Laws
use Prim.Native.Nat.{ℕ, zero, suc, ◌+◌, ◌-◌, ◌≤◌, ◌<◌}
use Prim.Native.Char.{Char, code}
use Prim.Native.String.{String, [], ◌∷◌, char_at}
use mathlib.Core.Path.{◌≡◌, refl, sym, ap, ap₂, ◌∙◌}
use mathlib.Core.Bool.{Bool, true, false, ◌&&◌, ◌||◌}
use mathlib.Core.Logic.{inl, inr}
use native.Mathlib.Omega.{arith}
use text.Mathlib.Text.{◌==◌}
use text.Mathlib.TextEquality.{eq_iff}
use cfwarp_cli.Prelude.Tests.{ltb, leb, nat_eq, if◌then◌else◌, Bool-cases}

abbrev is_upper : ℕ → Bool
is_upper c = leb b'A' c && leb c b'Z'

abbrev small_letters : String
small_letters = "abcdefghijklmnopqrstuvwxyz"

lower_char : Char → Char
lower_char c = if is_upper (code c) then char_at small_letters (code c - b'A') else c

unfoldable pub to_lower : String → String
unfolding lower_char
to_lower [] = []
to_lower (c ∷ s) = lower_char c ∷ to_lower s

-- The code points of `unicode.IsSpace`.
unfoldable pub space_code : ℕ → Bool
space_code c =
    (leb 9 c && leb c 13)
    || nat_eq c 32
    || nat_eq c 133
    || nat_eq c 160
    || nat_eq c 5760
    || (leb 8192 c && leb c 8202)
    || nat_eq c 8232
    || nat_eq c 8233
    || nat_eq c 8239
    || nat_eq c 8287
    || nat_eq c 12288

unfoldable pub is_space : Char → Bool
unfolding space_code
is_space c = space_code (code c)

trim_left : String → String
trim_left [] = []
trim_left (c ∷ s) = if is_space c then trim_left s else c ∷ s

trim_right : String → String
trim_right [] = []
trim_right (c ∷ s) = let r = trim_right s in if is_space c && r == "" then [] else c ∷ r

unfoldable pub trim_space : String → String
unfolding trim_left trim_right is_space
trim_space s = trim_right (trim_left s)

-- `strings.ToLower(strings.TrimSpace(v))`, the form in which most fields are compared.
unfoldable pub tidy : String → String
unfolding to_lower trim_space
tidy s = to_lower (trim_space s)
