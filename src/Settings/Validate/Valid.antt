-- ===== src/Settings/Validate/Valid.antt =====
-- `Validate` of internal/settings/validate.go accepts exactly the valid settings.
use cfwarp_cli.Prelude.{
  ◌≡◌, ◌↔◌, ◌⊎◌, inl, inr, refl, true, not, ◌||◌, ◌==◌, eq_iff, Option, none, some, arith, ap,
  is_empty, [],
}
use cfwarp_cli.State.Settings.{Settings}
use cfwarp_cli.State.Settings.Normalize.{normalize}
use cfwarp_cli.Settings.Validate.{
  Error, one_of, require, when_some, validate_override, validate_access, validate_runtime,
  valid_runtime_families, valid_transports, valid_modes, validate_caps, validate_dns,
  validate_rotation, validate_normal, validate, valid_log_levels,
}
use cfwarp_cli.Settings.Validate.Spec.{Every, IsValid}
use cfwarp_cli.Settings.Validate.Laws.{one_of_iff, >>-eq-none, require_iff}
use cfwarp_cli.Settings.Validate.Access.{validate_access_all}
use cfwarp_cli.Settings.Validate.Options.{
  validate_override_iff, validate_caps_iff, validate_dns_iff, validate_rotation_iff,
}

when_some_iff {ℓ κ} :
    {A : Type ℓ} {P : A → Type κ} {f : A → Option Error} (o : Option A)
    → ((a : A) → (f a ≡ none) ↔ P a)
    → (when_some f o ≡ none) ↔ Every P o
when_some_iff none h = (λ e. tt, λ e. refl)
when_some_iff (some a) h = h a

-- The outcomes of the checks, in the order of the source.
record Passes (s : Settings) : Type 0 where
  families : one_of valid_runtime_families s.runtime_family ≡ true
  transports : one_of valid_transports s.transport ≡ true
  modes : one_of valid_modes s.mode ≡ true
  log_levels : one_of valid_log_levels s.log_level ≡ true
  override : validate_override s.endpoint_override ≡ none
  served : not (is_empty s.access) ≡ true
  access : validate_access 0 [] s.access ≡ none
  runtime : validate_runtime s ≡ none
  caps : when_some validate_caps s.caps ≡ none
  dns : when_some validate_dns s.dns ≡ none
  rotation : when_some validate_rotation s.rotation ≡ none

validate_normal-Passes : (s : Settings) → validate_normal s ≡ none → Passes s
unfolding validate_normal
validate_normal-Passes s h =
    let (families, h1) = (>>-eq-none (require _ _) _).0 h in
    let (transports, h2) = (>>-eq-none (require _ _) _).0 h1 in
    let (modes, h3) = (>>-eq-none (require _ _) _).0 h2 in
    let (log_levels, h4) = (>>-eq-none (require _ _) _).0 h3 in
    let (override, h5) = (>>-eq-none (validate_override _) _).0 h4 in
    let (served, h6) = (>>-eq-none (require _ _) _).0 h5 in
    let (access, h7) = (>>-eq-none (validate_access _ _ _) _).0 h6 in
    let (runtime, h8) = (>>-eq-none (validate_runtime s) _).0 h7 in
    let (caps, h9) = (>>-eq-none (when_some validate_caps s.caps) _).0 h8 in
    let (dns, rotation) = (>>-eq-none (when_some validate_dns s.dns) _).0 h9 in
    record {
      families = (require_iff _ _).0 families;
      transports = (require_iff _ _).0 transports;
      modes = (require_iff _ _).0 modes;
      log_levels = (require_iff _ _).0 log_levels;
      override = override;
      served = (require_iff _ _).0 served;
      access = access;
      runtime = runtime;
      caps = caps;
      dns = dns;
      rotation = rotation;
    }

validate_normal_of_Passes : (s : Settings) → Passes s → validate_normal s ≡ none
unfolding validate_normal
validate_normal_of_Passes s p = simp (
  p.families, p.transports, p.modes, p.log_levels, p.override, p.served, p.access, p.runtime,
  p.caps, p.dns, p.rotation,
)

runtime_sound :
    (s : Settings)
    → one_of valid_runtime_families s.runtime_family ≡ true
    → validate_runtime s ≡ none
    → (((s.runtime_family ≡ "legacy") × (s.transport ≡ "wireguard"))
        ⊎ ((s.runtime_family ≡ "native") × (s.transport ≡ "masque")))
      × ((s.mode ≡ "socks5") ⊎ (s.mode ≡ "http"))
unfolding validate_runtime
runtime_sound s f h = (
  ground (
    arith,
    eq_iff s.runtime_family "legacy",
    eq_iff s.runtime_family "native",
    eq_iff s.transport "wireguard",
    eq_iff s.transport "masque",
  ),
  ground (arith, eq_iff s.mode "socks5", eq_iff s.mode "http"),
)

runtime_complete :
    (s : Settings)
    → ((s.runtime_family ≡ "legacy") × (s.transport ≡ "wireguard"))
      ⊎ ((s.runtime_family ≡ "native") × (s.transport ≡ "masque"))
    → (s.mode == "socks5" || s.mode == "http") ≡ true
    → validate_runtime s ≡ none
unfolding validate_runtime
runtime_complete s (inl (f, t)) m =
    ground (arith, ap (λ z. z == "legacy") f, ap (λ z. z == "wireguard") t, m)
runtime_complete s (inr (f, t)) m =
    ground
      (arith, ap (λ z. z == "legacy") f, ap (λ z. z == "native") f, ap (λ z. z == "masque") t, m)

validate_normal-IsValid : (s : Settings) → validate_normal s ≡ none → IsValid s
validate_normal-IsValid s h =
    let p = validate_normal-Passes s h in
    let (runtime, proxied) = runtime_sound s p.families p.runtime in
    record {
      runtime = runtime;
      proxied = proxied;
      logged = (one_of_iff valid_log_levels s.log_level).0 p.log_levels;
      overridden = (validate_override_iff s.endpoint_override).0 p.override;
      served = ground (arith, p.served);
      listening = ((validate_access_all s.access).0 p.access).0;
      distinct = ((validate_access_all s.access).0 p.access).1;
      caps_valid = (when_some_iff s.caps validate_caps_iff).0 p.caps;
      dns_valid = (when_some_iff s.dns validate_dns_iff).0 p.dns;
      rotation_valid = (when_some_iff s.rotation validate_rotation_iff).0 p.rotation;
    }

validate_normal_complete : (s : Settings) → IsValid s → validate_normal s ≡ none
validate_normal_complete s v = validate_normal_of_Passes s (record {
  families =
      (one_of_iff valid_runtime_families s.runtime_family).1
        (elim v.runtime [ inl (f, t) ↦ inl f | inr (f, t) ↦ inr (inl f) ]);
  transports =
      (one_of_iff valid_transports s.transport).1
        (elim v.runtime [ inl (f, t) ↦ inl t | inr (f, t) ↦ inr (inl t) ]);
  modes =
      (one_of_iff valid_modes s.mode).1 (elim v.proxied [ inl e ↦ inl e | inr e ↦ inr (inl e) ]);
  log_levels = (one_of_iff valid_log_levels s.log_level).1 v.logged;
  override = (validate_override_iff s.endpoint_override).1 v.overridden;
  served = ap not v.served;
  access = (validate_access_all s.access).1 (v.listening, v.distinct);
  runtime =
      runtime_complete s v.runtime
        (ground (arith, eq_iff s.mode "socks5", eq_iff s.mode "http", v.proxied));
  caps = (when_some_iff s.caps validate_caps_iff).1 v.caps_valid;
  dns = (when_some_iff s.dns validate_dns_iff).1 v.dns_valid;
  rotation = (when_some_iff s.rotation validate_rotation_iff).1 v.rotation_valid;
})

-- Validation passes exactly on the settings that are valid once normalised.
pub validate_iff : (s : Settings) → (validate s ≡ none) ↔ IsValid (normalize s)
unfolding validate
validate_iff s = (validate_normal-IsValid (normalize s), validate_normal_complete (normalize s))
