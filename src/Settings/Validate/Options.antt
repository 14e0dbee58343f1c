-- ===== src/Settings/Validate/Options.antt =====
-- The checks of the option blocks pass exactly on what the specification allows.
use cfwarp_cli.Prelude.{
  ℕ, suc, ◌≡◌, ◌↔◌, ◌⊎◌, inl, inr, refl, ap, true, not, ◌||◌, ◌==◌, eq_iff, String, Option, none,
  some, List, [], ◌∷◌, All, ℤ, pos, negsuc, arith, is_zero, is_negative, is_above, trim_space,
  Bool-cases,
}
use cfwarp_cli.Prelude.Net.{split_host_port, atoi}
use cfwarp_cli.State.Settings.{CapCheck, CapsOptions, DnsOptions, RotationOptions}
use cfwarp_cli.Settings.Endpoint.{validate_port, validate_split, validate_endpoint}
use cfwarp_cli.Settings.Validate.{
  one_of, validate_override, validate_checks, validate_caps, validate_dns, validate_rotation,
  valid_cap_probes, valid_dns_strategies, valid_rotation_distinctness,
}
use cfwarp_cli.Settings.Validate.Spec.{
  InRange, IsEndpoint, IsCheck, IsCaps, IsResolver, IsDns, IsRotation,
}
use cfwarp_cli.Settings.Validate.Laws.{one_of_iff, InRange-iff, at_least_one_iff, at_least_zero_iff}

pub validate_checks_iff : (i : ℕ) (l : List CapCheck) → (validate_checks i l ≡ none) ↔ All IsCheck l
unfolding validate_checks
validate_checks_iff i [] = (λ h. tt, λ h. refl)
validate_checks_iff i (c ∷ rest) = (
  λ h. (
    record {
      probed = (one_of_iff valid_cap_probes c.probe).0 (ground arith);
      timed = (at_least_one_iff c.timeout_seconds).0 (ground arith);
    },
    (validate_checks_iff (suc i) rest).0 (ground arith),
  ),
  λ (v, vs). ground (
    arith,
    (one_of_iff valid_cap_probes c.probe).1 v.probed,
    (at_least_one_iff c.timeout_seconds).1 v.timed,
    (validate_checks_iff (suc i) rest).1 vs,
  ),
)

pub validate_caps_iff : (c : CapsOptions) → (validate_caps c ≡ none) ↔ IsCaps c
unfolding validate_caps
validate_caps_iff c = (
  λ h. record {
    spaced = (at_least_one_iff c.interval_seconds).0 (ground arith);
    checked = (validate_checks_iff 0 c.checks).0 (ground arith);
  },
  λ v. ground (
    arith,
    (at_least_one_iff c.interval_seconds).1 v.spaced,
    (validate_checks_iff 0 c.checks).1 v.checked,
  ),
)

zero_iff : (p : ℤ) → (is_zero p ≡ true) ↔ (p ≡ pos 0)
zero_iff (pos n) = (λ h. ground arith, λ h. ground arith)
zero_iff (negsuc n) = (λ h. cc, λ h. cc)

port_iff : (p : ℤ) → (not (is_negative p || is_above p 65535) ≡ true) ↔ InRange 0 65535 p
port_iff (pos n) = (λ h. ground arith, λ h. ground arith)
port_iff (negsuc n) = (λ h. cc, λ h. elim h [ ])

validate_dns-IsResolver : (d : DnsOptions) → validate_dns d ≡ none → IsResolver d
unfolding validate_dns
validate_dns-IsResolver d h = elim (Bool-cases (d.mode == "local")) [
  | inl e ↦
      IsResolver.local ((eq_iff d.mode "local").0 e) ((eq_iff d.server "").0 (ground arith))
        ((zero_iff d.server_port).0 (ground arith)) ((eq_iff d.path "").0 (ground arith))
  | inr e ↦ elim (Bool-cases (d.mode == "udp")) [
    | inl u ↦
        IsResolver.udp ((eq_iff d.mode "udp").0 u) (ground (arith, eq_iff (trim_space d.server) ""))
          ((port_iff d.server_port).0 (ground arith)) ((eq_iff d.path "").0 (ground arith))
    | inr u ↦
        IsResolver.https ((eq_iff d.mode "https").0 (ground arith))
          (ground (arith, eq_iff (trim_space d.server) ""))
          ((port_iff d.server_port).0 (ground arith))
  ]
]

-- The three tests that the checks make of the mode.
mode_tests :
    (x y : String)
    → x ≡ y
    → ((x == "local") ≡ (y == "local"))
      × ((x == "udp") ≡ (y == "udp"))
      × ((x == "https") ≡ (y == "https"))
mode_tests x y e = (ap (λ z. z == "local") e, ap (λ z. z == "udp") e, ap (λ z. z == "https") e)

validate_dns_complete :
    (d : DnsOptions)
    → IsResolver d
    → one_of ("" ∷ valid_dns_strategies) d.strategy ≡ true
    → validate_dns d ≡ none
unfolding validate_dns
validate_dns_complete d (IsResolver.local m s p q) t =
    ground (
      arith,
      mode_tests _ _ m,
      eq_iff d.server "",
      (zero_iff d.server_port).1 p,
      eq_iff d.path "",
      t,
    )
validate_dns_complete d (IsResolver.udp m s p q) t = ground (
  arith,
  mode_tests _ _ m,
  eq_iff (trim_space d.server) "",
  (port_iff d.server_port).1 p,
  eq_iff d.path "",
  t,
)
validate_dns_complete d (IsResolver.https m s p) t =
    ground
      (arith, mode_tests _ _ m, eq_iff (trim_space d.server) "", (port_iff d.server_port).1 p, t)

pub validate_dns_iff : (d : DnsOptions) → (validate_dns d ≡ none) ↔ IsDns d
unfolding validate_dns
validate_dns_iff d = (
  λ h. record {
    resolver = validate_dns-IsResolver d h;
    strategic = (one_of_iff ("" ∷ valid_dns_strategies) d.strategy).0 (ground arith);
  },
  λ v.
      validate_dns_complete d v.resolver
        ((one_of_iff ("" ∷ valid_dns_strategies) d.strategy).1 v.strategic),
)

pub validate_rotation_iff : (r : RotationOptions) → (validate_rotation r ≡ none) ↔ IsRotation r
unfolding validate_rotation
validate_rotation_iff r = (
  λ h. record {
    distinct = (one_of_iff ("" ∷ valid_rotation_distinctness) r.distinctness).0 (ground arith);
    budgeted = elim (Bool-cases r.enabled) [
      | inl e ↦ inr (
        (at_least_one_iff r.max_attempts_per_incident).0 (ground arith),
        (at_least_one_iff r.settle_time_seconds).0 (ground arith),
        (at_least_one_iff r.history_size).0 (ground arith),
      )
      | inr e ↦ inl e
    ];
    cooled = (at_least_zero_iff r.cooldown_seconds).0 (ground arith);
    remembered = (at_least_zero_iff r.history_size).0 (ground arith);
  },
  λ v. elim v.budgeted [
    | inr b ↦ ground (
      arith,
      (one_of_iff ("" ∷ valid_rotation_distinctness) r.distinctness).1 v.distinct,
      (at_least_one_iff r.max_attempts_per_incident).1 b.0,
      (at_least_one_iff r.settle_time_seconds).1 b.1,
      (at_least_one_iff r.history_size).1 b.2,
      (at_least_zero_iff r.cooldown_seconds).1 v.cooled,
      (at_least_zero_iff r.history_size).1 v.remembered,
    )
    | inl e ↦ ground (
      arith,
      e,
      (one_of_iff ("" ∷ valid_rotation_distinctness) r.distinctness).1 v.distinct,
      (at_least_zero_iff r.cooldown_seconds).1 v.cooled,
      (at_least_zero_iff r.history_size).1 v.remembered,
    )
  ],
)

validate_port_iff :
    (o : Option ℤ) → (validate_port o ≡ none) ↔ ((n : ℤ) × (o ≡ some n) × InRange 1 65535 n)
unfolding validate_port
validate_port_iff none = (λ h. cc, λ (n, e, r). cc)
validate_port_iff (some n) = (
  λ h. (n, refl, (InRange-iff 65535 n).0 (ground arith)),
  λ (m, e, r). ground (arith, (InRange-iff 65535 m).1 r, e),
)

validate_split-IsEndpoint :
    (ep : String) (o : Option (String × String))
    → split_host_port ep ≡ o
    → validate_split o ≡ none
    → IsEndpoint ep
unfolding validate_split
validate_split-IsEndpoint ep none e h = cc
validate_split-IsEndpoint ep (some (host, port)) e h =
    let (n, read, bounded) = (validate_port_iff (atoi port)).0 (ground arith) in
    record {
      host = host;
      port = port;
      number = n;
      split = e;
      named = ground (arith, eq_iff host "");
      read = read;
      bounded = bounded;
    }

pub validate_endpoint_iff : (ep : String) → (validate_endpoint ep ≡ none) ↔ IsEndpoint ep
unfolding validate_endpoint validate_split
validate_endpoint_iff ep = (
  λ h. validate_split-IsEndpoint ep (split_host_port ep) refl h,
  λ v. rw v.split (
      ground (
        arith,
        eq_iff v.host "",
        v.named,
        (validate_port_iff (atoi v.port)).1 (v.number, v.read, v.bounded),
      )),
)

pub validate_override_iff :
    (ep : String) → (validate_override ep ≡ none) ↔ ((ep ≡ "") ⊎ IsEndpoint ep)
unfolding validate_override
validate_override_iff ep = (
  λ h. elim (Bool-cases (ep == "")) [
    | inl e ↦ inl ((eq_iff ep "").0 e)
    | inr e ↦ inr ((validate_endpoint_iff ep).0 (ground arith))
  ],
  λ h. elim h [
    | inl e ↦ ground (arith, (eq_iff ep "").1 e)
    | inr v ↦ ground (arith, (validate_endpoint_iff ep).1 v)
  ],
)
