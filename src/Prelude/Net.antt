-- ===== src/Prelude/Net.antt =====
-- What the program uses of Go's packages net and strconv on texts: `net.SplitHostPort`,
-- `net.JoinHostPort`, `strconv.Atoi`. The errors of the first are not told apart.
use Prim.Native.Nat.{ℕ, zero, suc, ◌+◌, ◌-◌, ◌*◌}
use Prim.Native.Char.{code}
use Prim.Native.String.{String, [], ◌∷◌}
use mathlib.Core.Bool.{Bool, false, not, ◌&&◌, ◌||◌}
use mathlib.Core.Option.{Option, none, some}
use text.Mathlib.Text.{◌==◌}
use cfwarp_cli.Prelude.Tests.{leb, nat_eq, if◌then◌else◌}
use mathlib.Core.List.{List}
use cfwarp_cli.Prelude.Lists.{prefixed, on_first, no_items}
use cfwarp_cli.Prelude.Int.{ℤ, pos, negsuc}

-- Whether a text holds a byte.
unfoldable pub has_byte : ℕ → String → Bool
has_byte b [] = false
has_byte b (c ∷ s) = nat_eq (code c) b || has_byte b s

-- The parts before and after the last occurrence of a byte.
unfoldable pub cut_last : ℕ → String → Option (String × String)
cut_last b [] = none
cut_last b (c ∷ s) = elim (cut_last b s) [
  | some (before, after) ↦ some (c ∷ before, after)
  | none ↦ if nat_eq (code c) b then some ([], s) else none
]

abbrev has_bracket : String → Bool
has_bracket s = has_byte b'[' s || has_byte b']' s

-- What stands before the last colon: a name without colons, or anything without "]" in brackets.
unfoldable pub host_part : String → Option String
host_part [] = some []
host_part (c ∷ s) =
    if nat_eq (code c) b'['
    then bracketed (cut_last b']' s)
    else if has_byte b':' (c ∷ s) || has_bracket (c ∷ s)
    then none
    else some (c ∷ s)
  where
    bracketed : Option (String × String) → Option String
    bracketed none = none
    bracketed (some (host, after)) =
        if after == "" && not (has_bracket host) then some host else none

unfoldable pub split_host_port : String → Option (String × String)
unfolding cut_last host_part has_byte
split_host_port s = elim (cut_last b':' s) [
  | none ↦ none
  | some (before, port) ↦ elim (host_part before) [
    | none ↦ none
    | some host ↦ if has_bracket port then none else some (host, port)
  ]
]

-- The value of a row of decimal digits, read into an accumulator.
unfoldable pub digits_value : ℕ → String → Option ℕ
digits_value n [] = some n
digits_value n (c ∷ s) =
    if leb b'0' (code c) && leb (code c) b'9'
    then digits_value (n * 10 + (code c - b'0')) s
    else none

-- At least one digit.
unfoldable pub natural : String → Option ℕ
unfolding digits_value
natural [] = none
natural (c ∷ s) = digits_value 0 (c ∷ s)

-- `strconv.Atoi` on a 64-bit platform: an optional sign, digits, and the range of int64.
unfoldable pub atoi : String → Option ℤ
unfolding natural
atoi [] = none
atoi (c ∷ s) =
    if nat_eq (code c) b'-'
    then negative (natural s)
    else if nat_eq (code c) b'+'
    then positive (natural s)
    else positive (natural (c ∷ s))
  where
    positive : Option ℕ → Option ℤ
    positive none = none
    positive (some n) = if leb n 9223372036854775807 then some (pos n) else none

    negative : Option ℕ → Option ℤ
    negative none = none
    negative (some zero) = some (pos 0)
    negative (some (suc n)) = if leb n 9223372036854775807 then some (negsuc n) else none

-- `strings.Split(v, ",")`.
unfoldable pub split_commas : String → List String
split_commas [] = prefixed [] no_items
split_commas (c ∷ s) =
    let rest = split_commas s in
    if nat_eq (code c) b',' then prefixed [] rest else on_first (λ w. c ∷ w) [] rest
