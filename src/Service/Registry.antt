-- ===== src/Service/Registry.antt =====
-- internal/backend/registry.go: backends by their names. A panic of `Register` is no result; a nil
-- backend is not represented.
use cfwarp_cli.Prelude.{
  ◌≡◌, ◌≢◌, refl, sym, ap, ◌∙◌, Bool, true, false, ◌||◌, String, ◌==◌, eq_iff, eq_refl, Option,
  none, some, List, [], ◌∷◌, arith, if◌then◌else◌,
}
use cfwarp_cli.Service.Action.{ok}
use cfwarp_cli.Service.Host.{Backend, lookup}

abbrev pub is_registered : {W : Type 0} → String → List (Backend W) → Bool
is_registered name [] = false
is_registered name (b ∷ rest) = b.name == name || is_registered name rest

unfoldable pub register_backend :
    {W : Type 0} → Backend W → List (Backend W) → Option (List (Backend W))
register_backend b registry =
    if b.name == ""
    then none
    else if is_registered b.name registry
    then none
    else some (b ∷ registry)

abbrev taken : {A : Type 0} → A → Option A → A
taken a none = a
taken a (some b) = b

registered_in :
    {A : Type 0} (p q : Bool) {x y : A}
    → (if p then none else if q then none else some x) ≡ some y
    → (x ≡ y) × (q ≡ false)
registered_in true q e = ground (arith, e)
registered_in false true e = ground (arith, e)
registered_in false false {x = x} e = (ap (taken x) e, refl)

other_name : (s t : String) → t ≢ s → (s == t) ≡ false
other_name s t h = ground (arith, eq_iff s t, h)

module _ {W : Type 0} (b : Backend W) (registry registry' : List (Backend W)) where
  registered_first :
      register_backend b registry ≡ some registry'
      → (b ∷ registry ≡ registry') × (is_registered b.name registry ≡ false)
  unfolding register_backend
  registered_first e = registered_in (b.name == "") (is_registered b.name registry) e

  -- A backend that is registered is found under its name, which no backend had before; under every
  -- other name the same backend is found as before.
  pub register_backend-lookup :
      (name : String)
      → register_backend b registry ≡ some registry'
      → (is_registered b.name registry ≡ false)
        × (lookup b.name registry' ≡ ok b)
        × (name ≢ b.name → lookup name registry' ≡ lookup name registry)
  unfolding lookup
  register_backend-lookup name e =
      let first = registered_first e in
      (
        first.1,
        ap (lookup b.name) (sym first.0)
            ∙ ap (λ c. if c then ok b else lookup b.name registry) (eq_refl b.name),
        λ other.
            ap (lookup name) (sym first.0)
            ∙ ap (λ c. if c then ok b else lookup name registry) (other_name b.name name other),
      )
