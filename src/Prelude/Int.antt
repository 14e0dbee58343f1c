-- ===== src/Prelude/Int.antt =====
-- Go's `int` as a signed number, with the comparisons that the program makes.
use Prim.Native.Nat.{ℕ, ◌-◌}
use native.Mathlib.Omega.{arith}
use mathlib.Core.Path.{◌≡◌, ap}
use mathlib.Core.Logic.{◌↔◌}
use mathlib.Core.Bool.{Bool, true, false}
use cfwarp_cli.Prelude.Tests.{ltb, nat_eq, if◌then◌else◌}

-- `negsuc n` is -(n + 1).
pub data ℤ : Type 0 where
  pos : ℕ → ℤ
  negsuc : ℕ → ℤ

-- `v == 0`, `v > 0` and `v <= 0`.
abbrev pub is_zero : ℤ → Bool
is_zero (pos n) = nat_eq n 0
is_zero (negsuc n) = false

abbrev pub is_positive : ℤ → Bool
is_positive (pos n) = ltb 0 n
is_positive (negsuc n) = false

abbrev pub is_negative : ℤ → Bool
is_negative (pos n) = false
is_negative (negsuc n) = true

-- `v > n` for a natural bound.
abbrev pub is_above : ℤ → ℕ → Bool
is_above (pos k) n = ltb n k
is_above (negsuc k) n = false

-- The value of a number that is not negative, and 0 for the others.
abbrev pub pos_part : ℤ → ℕ
pos_part (pos n) = n
pos_part (negsuc n) = 0

-- `x == y`.
abbrev pub same_int : ℤ → ℤ → Bool
same_int (pos m) (pos n) = nat_eq m n
same_int (negsuc m) (negsuc n) = nat_eq m n
same_int _ _ = false

pub same_int_iff : (p q : ℤ) → (same_int p q ≡ true) ↔ (p ≡ q)
same_int_iff (pos m) (pos n) = (λ h. ground arith, λ h. ground arith)
same_int_iff (pos m) (negsuc n) = (λ h. cc, λ h. cc)
same_int_iff (negsuc m) (pos n) = (λ h. cc, λ h. cc)
same_int_iff (negsuc m) (negsuc n) = (λ h. ground arith, λ h. ground arith)

pub is_zero-eq : (x : ℤ) → is_zero x ≡ true → x ≡ pos 0
is_zero-eq (pos m) e = ap pos (ground arith)
is_zero-eq (negsuc m) e = ground arith

-- A 64-bit word read as a signed integer, and back.
abbrev pub to_int : ℕ → ℤ
to_int w = if ltb w 9223372036854775808 then pos w else negsuc (18446744073709551615 - w)

abbrev pub to_word : ℤ → ℕ
to_word (pos n) = n
to_word (negsuc n) = 18446744073709551615 - n
