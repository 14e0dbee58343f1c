-- ===== src/Settings/Validate/Access.antt =====
-- The loop over the listeners accepts them exactly if each is valid and no two share an address.
use cfwarp_cli.Prelude.{
  same_int_iff, ℕ, suc, ◌≡◌, ◌↔◌, inl, inr, refl, Bool, true, false, not, ◌||◌, eq_iff, String,
  none, List, [], ◌∷◌, All, any, ℤ, arith, tidy, Bool-cases,
}
use cfwarp_cli.State.Settings.{AccessConfig}
use cfwarp_cli.Settings.Validate.{Error, require, validate_listener, is_key, validate_access}
use cfwarp_cli.Settings.Validate.Spec.{IsListener, SameKey, AreDistinct}
use cfwarp_cli.Settings.Validate.Laws.{>>-eq-none, InRange-iff}

validate_listener-IsListener :
    (i : ℕ) (a : AccessConfig) → validate_listener i a ≡ none → IsListener a
unfolding validate_listener
validate_listener-IsListener i a h = record {
  proxied = ground (
    arith,
    eq_iff (tidy a.type) "socks5",
    eq_iff (tidy a.type) "http",
    eq_iff (tidy a.type) "tun",
  );
  hosted = ground (arith, eq_iff a.listen_host "");
  bounded = (InRange-iff 65535 a.listen_port).0 (ground arith);
  credentials = (
    λ e. ground (arith, eq_iff a.username "", eq_iff a.password ""),
    λ e. ground (arith, eq_iff a.username "", eq_iff a.password ""),
  );
}

validate_listener_complete :
    (i : ℕ) (a : AccessConfig) → IsListener a → validate_listener i a ≡ none
unfolding validate_listener
validate_listener_complete i a v = ground (
  arith,
  eq_iff (tidy a.type) "socks5",
  eq_iff (tidy a.type) "http",
  eq_iff (tidy a.type) "tun",
  eq_iff "socks5" "tun",
  eq_iff "http" "tun",
  eq_iff a.listen_host "",
  (InRange-iff 65535 a.listen_port).1 v.bounded,
  eq_iff a.username "",
  eq_iff a.password "",
)

abbrev key : AccessConfig → String × ℤ
key a = (a.listen_host, a.listen_port)

is_key_iff : (a b : AccessConfig) → (is_key b (key a) ≡ true) ↔ SameKey b a
is_key_iff a b = (
  λ h.
      ground
        (arith, eq_iff b.listen_host a.listen_host, (same_int_iff b.listen_port a.listen_port).0),
  λ h.
      ground
        (arith, eq_iff b.listen_host a.listen_host, (same_int_iff b.listen_port a.listen_port).1),
)

-- None of the listeners has a key that was seen.
abbrev Unseen : List (String × ℤ) → List AccessConfig → Type 0
Unseen seen l = All (λ a. any (is_key a) seen ≡ false) l

is_key-eq-false_iff : (a b : AccessConfig) → (is_key b (key a) ≡ false) ↔ (¬ SameKey b a)
is_key-eq-false_iff a b = (
  λ h same. absurd (cc (h, (is_key_iff a b).1 same)),
  λ differ. elim (Bool-cases (is_key b (key a))) [
    | inl same ↦ absurd (differ ((is_key_iff a b).0 same))
    | inr h ↦ h
  ],
)

or-eq-false_iff : (x y : Bool) → ((x || y) ≡ false) ↔ ((x ≡ false) × (y ≡ false))
or-eq-false_iff true y = (λ h. cc, λ h. h.0)
or-eq-false_iff false y = (λ h. (refl, h), λ h. h.1)

Unseen-cons :
    (a : AccessConfig) (seen : List (String × ℤ)) (l : List AccessConfig)
    → Unseen (key a ∷ seen) l ↔ (All (λ b. ¬ SameKey b a) l × Unseen seen l)
Unseen-cons a seen [] = (λ h. (tt, tt), λ h. tt)
Unseen-cons a seen (b ∷ l) = (
  λ (h, hs).
      let (fresh, old) = (or-eq-false_iff (is_key b (key a)) (any (is_key b) seen)).0 h in
      let (ds, us) = (Unseen-cons a seen l).0 hs in
      (((is_key-eq-false_iff a b).0 fresh, ds), (old, us)),
  λ ((d, ds), (u, us)). (
    (or-eq-false_iff (is_key b (key a)) (any (is_key b) seen)).1 ((is_key-eq-false_iff a b).1 d, u),
    (Unseen-cons a seen l).1 (ds, us),
  ),
)

require-not_iff : (b : Bool) (e : Error) → (require (not b) e ≡ none) ↔ (b ≡ false)
require-not_iff true e = (λ h. cc, λ h. cc)
require-not_iff false e = (λ h. refl, λ h. refl)

pub validate_access_iff :
    (i : ℕ) (seen : List (String × ℤ)) (l : List AccessConfig)
    → (validate_access i seen l ≡ none) ↔ (All IsListener l × Unseen seen l × AreDistinct l)
unfolding validate_access
validate_access_iff i seen [] = (λ h. (tt, tt, tt), λ h. refl)
validate_access_iff i seen (a ∷ rest) = (
  λ h.
      let (v, h') = (>>-eq-none (validate_listener i a) _).0 h in
      let (r, h'') = (>>-eq-none (require (not (any (is_key a) seen)) _) _).0 h' in
      let (ls, us, ds) = (validate_access_iff (suc i) (key a ∷ seen) rest).0 h'' in
      let (d, u) = (Unseen-cons a seen rest).0 us in
      ((validate_listener-IsListener i a v, ls), ((require-not_iff _ _).0 r, u), (d, ds)),
  λ ((v, ls), (r, u), (d, ds)). (>>-eq-none (validate_listener i a) _).1 (
    validate_listener_complete i a v,
    (>>-eq-none (require (not (any (is_key a) seen)) _) _).1 (
      (require-not_iff _ _).1 r,
      (validate_access_iff (suc i) (key a ∷ seen) rest).1
          (ls, (Unseen-cons a seen rest).1 (d, u), ds),
    ),
  ),
)

Unseen-nil : (l : List AccessConfig) → Unseen [] l
Unseen-nil [] = tt
Unseen-nil (a ∷ l) = (refl, Unseen-nil l)

-- Every listener is valid and no two have the same host and port, exactly if the loop passes.
pub validate_access_all :
    (l : List AccessConfig) → (validate_access 0 [] l ≡ none) ↔ (All IsListener l × AreDistinct l)
validate_access_all l = (
  λ h. let (ls, us, ds) = (validate_access_iff 0 [] l).0 h in (ls, ds),
  λ (ls, ds). (validate_access_iff 0 [] l).1 (ls, Unseen-nil l, ds),
)
