-- ===== src/Service/Action.antt =====
-- A call that changes a state and may end in an error: what was changed before the error stays.
use cfwarp_cli.Prelude.{◌≡◌, refl, ◌⊎◌, inl, inr, Bool, true, false, String, ℤ, List}
use cfwarp_cli.State.History.{FingerprintError}
use cfwarp_cli.Settings.Validate as Validate

-- The errors that the calls make; `outside` is one that code outside the repository reports, and
-- `wrap` an error under the text that `fmt.Errorf` puts before it with `%w`.
pub data Error : Type 0 where
  not_found corrupt write_failed no_directories account_registered account_exists : Error
  remove_failed no_settings no_settings_file no_proxy_access still_failing required_failed : Error
  remediation_failed rotation_failed attempts_too_few no_process no_import_file : Error
  invalid_settings : Validate.Error → Error
  no_fingerprint : FingerprintError → Error
  backend_running : ℤ → Error
  unsupported_backend not_new outside : String → Error
  missing_fields : List String → Error
  not_reachable : ℤ → Error
  wrap : String → Error → Error

-- `errors.Is(err, state.ErrNotFound)`.
abbrev pub is_not_found : Error → Bool
is_not_found not_found = true
is_not_found (wrap text e) = is_not_found e
is_not_found _ = false

pub data Result (A : Type 0) : Type 0 where
  ok : A → Result A
  err : Error → Result A

pub Result-cases :
    {A : Type 0} (r : Result A) → ((a : A) × (r ≡ ok a)) ⊎ ((e : Error) × (r ≡ err e))
Result-cases (ok a) = inl (a, refl)
Result-cases (err e) = inr (e, refl)

abbrev pub Action : Type 0 → Type 0 → Type 0
Action S A = S → Result A × S

abbrev pub ⊤ : Type 0
⊤ = Unit

module _ {S A : Type 0} where
  abbrev pub pure : A → Action S A
  pure a s = (ok a, s)

  abbrev pub raise : Error → Action S A
  raise e s = (err e, s)

  abbrev pub gets : (S → A) → Action S A
  gets f s = (ok (f s), s)

  abbrev pub of_result : Result A → Action S A
  of_result r s = (r, s)

abbrev pub modify : {S : Type 0} → (S → S) → Action S ⊤
modify f s = (ok tt, f s)

infixl 5 ◌>>=◌ ◌>>◌
abbrev pub ◌>>=◌ : {S A B : Type 0} → Action S A → (A → Action S B) → Action S B
◌>>=◌ m f s = let (r, s') = m s in elim r [ ok a ↦ f a s' | err e ↦ raise e s' ]

abbrev pub ◌>>◌ : {S A B : Type 0} → Action S A → Action S B → Action S B
m >> k = m >>= λ _. k

-- The error of a call as a value: `if err := m; err != nil`.
abbrev pub attempt : {S A : Type 0} → Action S A → Action S (Result A)
attempt m s = let (r, s') = m s in (ok r, s')

-- `fmt.Errorf("text: %w", err)`.
abbrev pub wrapped : {A : Type 0} → String → Result A → Result A
wrapped text (ok a) = ok a
wrapped text (err e) = err (wrap text e)

abbrev pub under : {S A : Type 0} → String → Action S A → Action S A
under text m s = let (r, s') = m s in (wrapped text r, s')

abbrev pub raise_unless : {S : Type 0} → Error → Bool → Action S ⊤
raise_unless e true = pure tt
raise_unless e false = raise e

-- How a call ended: `P` of the value and the state, or `Q` of the state after an error.
abbrev pub Outcome : {S A : Type 0} → (A → S → Type 0) → (S → Type 0) → Result A × S → Type 0
Outcome P Q (ok a, s) = P a s
Outcome P Q (err e, s) = Q s

pub record Ends {S A : Type 0} (P : A → S → Type 0) (Q : S → Type 0) (x : Result A × S)
    : Type 0 where
  pub outcome : Outcome P Q x

module _ {S A : Type 0} {P : A → S → Type 0} {Q : S → Type 0} where
  pub map-Ends :
      {P' : A → S → Type 0} {Q' : S → Type 0} (x : Result A × S)
      → ((a : A) (s : S) → P a s → P' a s)
      → ((s : S) → Q s → Q' s)
      → Ends P Q x
      → Ends P' Q' x
  map-Ends (ok a, s) f g h = record { outcome = f a s h.outcome }
  map-Ends (err e, s) f g h = record { outcome = g s h.outcome }

  pub bind-Ends :
      {B : Type 0} {R : B → S → Type 0} (k : A → Action S B) (x : Result A × S)
      → Ends P Q x
      → ((a : A) (t : S) → P a t → Ends R Q (k a t))
      → Ends R Q (elim x.0 [ ok a ↦ k a x.1 | err e ↦ (err e, x.1) ])
  bind-Ends k (ok a, t) h f = f a t h.outcome
  bind-Ends k (err e, t) h f = record { outcome = h.outcome }

  pub >>=-Ends :
      {B : Type 0} {R : B → S → Type 0} (m : Action S A) (k : A → Action S B) (s : S)
      → Ends P Q (m s)
      → ((a : A) (t : S) → P a t → Ends R Q (k a t))
      → Ends R Q ((m >>= k) s)
  >>=-Ends m k s h f = bind-Ends k (m s) h f

  pub under-Ends :
      (text : String) (m : Action S A) (s : S) → Ends P Q (m s) → Ends P Q (under text m s)
  under-Ends text m s h = wrapped-Ends (m s) h
    where
      wrapped-Ends : (x : Result A × S) → Ends P Q x → Ends P Q (wrapped text x.0, x.1)
      wrapped-Ends (ok a, t) h = record { outcome = h.outcome }
      wrapped-Ends (err e, t) h = record { outcome = h.outcome }

  pub attempt-Ends :
      {Q' : S → Type 0} (m : Action S A) (s : S)
      → Ends P Q (m s)
      → Ends (λ r t. Outcome P Q (r, t)) Q' (attempt m s)
  attempt-Ends m s h = record { outcome = h.outcome }

-- A call that ends without an error.
abbrev pub Returns : {S A : Type 0} → (A → S → Type 0) → Result A × S → Type 0
Returns P = Ends P (λ _. ⊥)

pub after_return :
    {S A B : Type 0} {P : A → S → Type 0} {R : B → S → Type 0} {Q : S → Type 0} (m : Action S A)
    (k : A → Action S B) (s : S)
    → Returns P (m s)
    → ((a : A) (t : S) → P a t → Ends R Q (k a t))
    → Ends R Q ((m >>= k) s)
after_return {Q = Q} m k s h f =
    >>=-Ends m k s (map-Ends {Q' = Q} (m s) (λ _ _ p. p) (λ _ x. absurd x) h) f
