-- ===== src/Settings/Validate/Laws.antt =====
-- Each check of internal/settings/validate.go passes exactly on what the specification allows.
use cfwarp_cli.Prelude.{
  ℕ, ◌≡◌, ◌↔◌, refl, Bool, true, false, not, ◌&&◌, eq_iff, String, Option, none, some, List, [],
  ◌∷◌, ℤ, pos, negsuc, arith, is_positive, is_negative, is_above,
}
use cfwarp_cli.Settings.Validate.{Error, one_of, require, ◌>>◌}
use cfwarp_cli.Settings.Validate.Spec.{Among, InRange, AtLeast}

pub one_of_iff : (names : List String) (v : String) → (one_of names v ≡ true) ↔ Among names v
one_of_iff [] v = (λ h. cc, λ h. elim h [ ])
one_of_iff (k ∷ ks) v = (
  λ h. ground (arith, eq_iff v k, (one_of_iff ks v).0),
  λ h. ground (arith, eq_iff v k, (one_of_iff ks v).1),
)

pub >>-eq-none : (m k : Option Error) → ((m >> k) ≡ none) ↔ ((m ≡ none) × (k ≡ none))
>>-eq-none none k = (λ h. (refl, h), λ h. h.1)
>>-eq-none (some e) k = (λ h. cc, λ h. h.0)

-- `require` passes exactly if its test does.
pub require_iff : (b : Bool) (e : Error) → (require b e ≡ none) ↔ (b ≡ true)
require_iff true e = (λ h. refl, λ h. refl)
require_iff false e = (λ h. cc, λ h. cc)

pub InRange-iff :
    (hi : ℕ) (p : ℤ) → ((is_positive p && not (is_above p hi)) ≡ true) ↔ InRange 1 hi p
InRange-iff hi (pos n) = (λ h. ground arith, λ h. ground arith)
InRange-iff hi (negsuc n) = (λ h. cc, λ h. elim h [ ])

pub at_least_one_iff : (p : ℤ) → (is_positive p ≡ true) ↔ AtLeast 1 p
at_least_one_iff (pos n) = (λ h. ground arith, λ h. ground arith)
at_least_one_iff (negsuc n) = (λ h. cc, λ h. elim h [ ])

pub at_least_zero_iff : (p : ℤ) → (not (is_negative p) ≡ true) ↔ AtLeast 0 p
at_least_zero_iff (pos n) = (λ h. omega arith, λ h. refl)
at_least_zero_iff (negsuc n) = (λ h. cc, λ h. elim h [ ])
