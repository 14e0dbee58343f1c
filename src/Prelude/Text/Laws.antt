-- ===== src/Prelude/Text/Laws.antt =====
-- Lowering and trimming are idempotent, and commute.
use Prim.Native.Nat.{ℕ, zero, suc, ◌+◌, ◌-◌, ◌<◌}
use Prim.Native.Char.{Char, code}
use Prim.Native.String.compare
use Prim.Native.String.{String, [], ◌∷◌, char_at}
use mathlib.Core.Path.{◌≡◌, refl, sym, ap, ap₂, ◌∙◌}
use mathlib.Core.Bool.{Bool, true, false, ◌&&◌}
use mathlib.Core.Logic.{inl, inr}
use native.Mathlib.Omega.{arith}
use text.Mathlib.Text.{◌==◌}
use cfwarp_cli.Prelude.Tests.{nat_eq, if◌then◌else◌, Bool-cases}
use cfwarp_cli.Prelude.Text.{
  is_upper, small_letters, lower_char, to_lower, is_space, trim_left, trim_right, trim_space, tidy,
}

all_below : ℕ → (ℕ → Bool) → Bool
all_below zero p = true
all_below (suc n) p = p n && all_below n p

all_below_sound : (n : ℕ) (p : ℕ → Bool) (i : ℕ) → all_below n p ≡ true → i < n → p i ≡ true
unfolding all_below
all_below_sound zero p i h lt = absurd (omega arith)
all_below_sound (suc n) p i h lt = ground (arith, all_below_sound n p i)

letter_table : all_below 26 (λ i. nat_eq (code (char_at small_letters i)) (i + 97)) ≡ true
unfolding all_below
letter_table = refl

-- The letter at place i of the alphabet has code 97 + i.
small_code : (i : ℕ) → i < 26 → code (char_at small_letters i) ≡ i + 97
small_code i h = ground (
  arith,
  all_below_sound 26 (λ k. nat_eq (code (char_at small_letters k)) (k + 97)) i letter_table h,
)

code-lower_char :
    (c : Char) → code (lower_char c) ≡ (if is_upper (code c) then code c + 32 else code c)
unfolding lower_char
code-lower_char c = ground (arith, small_code (code c - 65))

not_upper-lower_char : (c : Char) → is_upper (code (lower_char c)) ≡ false
not_upper-lower_char c = ground (arith, code-lower_char c)

lower_char_of_not_upper : (c : Char) → is_upper (code c) ≡ false → lower_char c ≡ c
unfolding lower_char
lower_char_of_not_upper c h = rw h

lower_char_idem : (c : Char) → lower_char (lower_char c) ≡ lower_char c
lower_char_idem c = lower_char_of_not_upper (lower_char c) (not_upper-lower_char c)

is_space-lower_char : (c : Char) → is_space (lower_char c) ≡ is_space c
unfolding is_space
is_space-lower_char c = ground (arith, code-lower_char c)

pub to_lower_idem : (s : String) → to_lower (to_lower s) ≡ to_lower s
unfolding to_lower
to_lower_idem [] = refl
to_lower_idem (c ∷ s) = ap₂ ◌∷◌ (lower_char_idem c) (to_lower_idem s)

pub cons-eq-nil : (c : Char) (s : String) → ((c ∷ s) == "") ≡ false
cons-eq-nil c s = rw (compare.cons-nil c s)

pub to_lower-eq-nil : (s : String) → (to_lower s == "") ≡ (s == "")
unfolding to_lower
to_lower-eq-nil [] = refl
to_lower-eq-nil (c ∷ s) = cons-eq-nil _ _ ∙ sym (cons-eq-nil c s)

trim_left-to_lower : (s : String) → trim_left (to_lower s) ≡ to_lower (trim_left s)
unfolding trim_left to_lower
trim_left-to_lower [] = refl
trim_left-to_lower (c ∷ s) = elim (Bool-cases (is_space c)) [
  | inl e ↦ rw (is_space-lower_char c, e) (trim_left-to_lower s)
  | inr e ↦ rw (is_space-lower_char c, e)
]

trim_right-to_lower : (s : String) → trim_right (to_lower s) ≡ to_lower (trim_right s)
unfolding trim_right to_lower
trim_right-to_lower [] = refl
trim_right-to_lower (c ∷ s) = elim (Bool-cases (is_space c && trim_right s == "")) [
  | inl e ↦ rw (is_space-lower_char c, trim_right-to_lower s, to_lower-eq-nil (trim_right s), e)
  | inr e ↦ rw (is_space-lower_char c, trim_right-to_lower s, to_lower-eq-nil (trim_right s), e)
]

pub trim_space-to_lower : (s : String) → trim_space (to_lower s) ≡ to_lower (trim_space s)
unfolding trim_space
trim_space-to_lower s = ap trim_right (trim_left-to_lower s) ∙ trim_right-to_lower (trim_left s)

-- Trimming is idempotent: after `trim_left` no space is in front, and `trim_right` adds none.
starts_space : String → Bool
starts_space [] = false
starts_space (c ∷ s) = is_space c

starts_space-trim_left : (s : String) → starts_space (trim_left s) ≡ false
unfolding starts_space trim_left
starts_space-trim_left [] = refl
starts_space-trim_left (c ∷ s) = elim (Bool-cases (is_space c)) [
  | inl e ↦ rw e (starts_space-trim_left s)
  | inr e ↦ rw e e
]

trim_left_fixed : (s : String) → starts_space s ≡ false → trim_left s ≡ s
unfolding starts_space trim_left
trim_left_fixed [] h = refl
trim_left_fixed (c ∷ s) h = rw h

starts_space-trim_right :
    (s : String) → starts_space s ≡ false → starts_space (trim_right s) ≡ false
unfolding starts_space trim_right
starts_space-trim_right [] h = refl
starts_space-trim_right (c ∷ s) h = rw h h

trim_right_idem : (s : String) → trim_right (trim_right s) ≡ trim_right s
unfolding trim_right
trim_right_idem [] = refl
trim_right_idem (c ∷ s) = elim (Bool-cases (is_space c && trim_right s == "")) [
  | inl e ↦ rw e
  | inr e ↦ rw e (rw (trim_right_idem s, e))
]

pub trim_space_idem : (s : String) → trim_space (trim_space s) ≡ trim_space s
unfolding trim_space
trim_space_idem s =
    ap trim_right (trim_left_fixed _ (starts_space-trim_right _ (starts_space-trim_left s)))
    ∙ trim_right_idem (trim_left s)

pub to_lower-tidy : (s : String) → to_lower (tidy s) ≡ tidy s
unfolding tidy
to_lower-tidy s = to_lower_idem (trim_space s)

pub trim_space-tidy : (s : String) → trim_space (tidy s) ≡ tidy s
unfolding tidy
trim_space-tidy s = trim_space-to_lower (trim_space s) ∙ ap to_lower (trim_space_idem s)

pub tidy_idem : (s : String) → tidy (tidy s) ≡ tidy s
unfolding tidy
tidy_idem s = ap to_lower (trim_space-tidy s) ∙ to_lower-tidy s
