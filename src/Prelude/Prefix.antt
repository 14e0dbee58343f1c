-- ===== src/Prelude/Prefix.antt =====
-- `strings.HasPrefix` and `strings.TrimPrefix`, as one function.
use Prim.Native.Char.{code}
use Prim.Native.String.{String, [], ◌∷◌, ◌++◌}
use mathlib.Core.Path.{◌≡◌, ap}
use mathlib.Core.Option.{Option, none, some}
use native.Mathlib.Omega.{arith}
use text.Mathlib.TextLemmas.{nil-append, cons-append}
use cfwarp_cli.Prelude.Tests.{nat_eq, if◌then◌else◌}

-- What follows a prefix, if the text has it.
unfoldable pub after_prefix : String → String → Option String
after_prefix [] s = some s
after_prefix (c ∷ p) [] = none
after_prefix (c ∷ p) (d ∷ s) = if nat_eq (code c) (code d) then after_prefix p s else none

pub after_prefix-append : (p s : String) → after_prefix p (p ++ s) ≡ some s
unfolding after_prefix
after_prefix-append [] s = ap some (nil-append s)
after_prefix-append (c ∷ p) s = rw (cons-append c p s) (ground (arith, after_prefix-append p s))
