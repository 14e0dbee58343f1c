-- ===== src/RunNative/Usable.antt =====
-- The configuration that cmd/native_runtime.go starts the tunnel with.
use cfwarp_cli.Prelude.{
  ◌≡◌, ◌≢◌, ◌⊎◌, inl, inr, refl, ℕ, ◌*◌, ◌≤◌, ◌<◌, ◌^◌, true, false, String, ◌==◌, eq_iff, Option,
  none, some, List, [], ◌∷◌, ◌++◌, ℤ, pos, negsuc, is_positive, is_zero, is_empty, arith, if_cases,
  if_elim, ltb, ◌%◌, if◌then◌else◌,
}
use cfwarp_cli.State.Account.{MasqueState}
use cfwarp_cli.State.Settings.{Settings, MasqueOptions}
use cfwarp_cli.Settings.Validate.Spec.{InRange, Every}
use cfwarp_cli.Masque.Tunnel.{with_defaults}
use cfwarp_cli.Masque.Backoff.{IsShort}
use cfwarp_cli.RunNative.Config.{
  ◌>>=◌, NetIp, bad_tunnel_address, no_tunnel_addresses, Configured, configured, refused,
  StartConfig, duration_of, mtu_of, masque_of, prefix_or_addr, parse_prefix, given_prefix,
  local_prefixes, build_masque_start_config,
}

-- Up to 2^32 milliseconds, and any number that is not positive.
abbrev pub IsDelay : ℤ → Type 0
IsDelay (pos n) = n ≤ 4294967296
IsDelay (negsuc n) = Unit

-- Options within the bounds that `Validate` does not check.
pub record IsModerate (o : MasqueOptions) : Type 0 where
  pub ported : InRange 0 65535 o.connect_port
  pub delayed : IsDelay o.reconnect_delay_millis

pub record IsUsable {P : Type 0} (c : StartConfig P) : Type 0 where
  pub addressed : is_empty c.addresses ≡ false
  pub sized : is_positive c.mtu ≡ true
  pub ported : is_positive (with_defaults c.masque).connect_port ≡ true
  pub delayed : IsShort (with_defaults c.masque).reconnect_delay

mtu_positive : (o : Option MasqueOptions) → is_positive (mtu_of o) ≡ true
mtu_positive none = refl
mtu_positive (some o) = ground arith

nonzero_port : (p : ℤ) → InRange 0 65535 p → is_positive (if is_zero p then pos 443 else p) ≡ true
nonzero_port (pos n) h = ground arith
nonzero_port (negsuc n) h = elim h [ ]

port_positive :
    (m : MasqueState) (o : Option MasqueOptions)
    → Every IsModerate o
    → is_positive (with_defaults (masque_of m o)).connect_port ≡ true
unfolding with_defaults
port_positive m none h = refl
port_positive m (some o) h = nonzero_port o.connect_port h.ported

IsShort-default : (d : ℤ) → IsShort d → IsShort (if is_zero d then pos 1000000000 else d)
IsShort-default (pos n) h = if_cases IsShort (is_zero (pos n)) (λ e. omega arith) (λ e. h)
IsShort-default (negsuc n) h = tt

millis-IsShort : (d : ℤ) → IsDelay d → IsShort (duration_of 1000000 d)
unfolding duration_of
millis-IsShort (pos n) h =
    let small : n * 1000000 < 2 ^ 62 = omega arith in
    let whole : n * 1000000 % 2 ^ 64 ≡ n * 1000000 = omega arith in
    rw whole (
      if_elim IsShort (is_positive (pos n))
        (if_cases IsShort (ltb (n * 1000000) 9223372036854775808) (λ e. small) (λ e. tt))
        (omega arith))
millis-IsShort (negsuc n) h = omega arith

reconnect_delay-IsShort :
    (m : MasqueState) (o : Option MasqueOptions)
    → Every IsModerate o
    → IsShort (with_defaults (masque_of m o)).reconnect_delay
unfolding with_defaults
reconnect_delay-IsShort m none h = omega arith
reconnect_delay-IsShort m (some o) h =
    IsShort-default _ (millis-IsShort o.reconnect_delay_millis h.delayed)

module _ {A P : Type 0} (net : NetIp A P) where
  -- An address that neither parser reads.
  abbrev pub Unread : String → Type 0
  Unread raw = (raw ≢ "") × (net.parse_prefix raw ≡ none) × (net.parse_addr raw ≡ none)

  abbrev pub Outcome : MasqueState → Configured (StartConfig P) → Type 0
  Outcome m (configured c) = IsUsable c
  Outcome m (refused no_tunnel_addresses) = (m.ipv4 ≡ "") × (m.ipv6 ≡ "")
  Outcome m (refused (bad_tunnel_address raw)) = ((raw ≡ m.ipv4) ⊎ (raw ≡ m.ipv6)) × Unread raw

  abbrev Given : String → Configured (List P) → Type 0
  Given raw (configured ps) = (raw ≡ "") ⊎ (is_empty ps ≡ false)
  Given raw (refused no_tunnel_addresses) = ⊥
  Given raw (refused (bad_tunnel_address r)) = (r ≡ raw) × Unread r

  parsed_Given :
      (raw : String) (bits : ℕ) (p : Option P) (a : Option A)
      → raw ≢ ""
      → net.parse_prefix raw ≡ p
      → net.parse_addr raw ≡ a
      → Given raw (prefix_or_addr net raw bits p >>= λ p. configured (p ∷ []))
  parsed_Given raw bits (some p) a h e f = inr refl
  parsed_Given raw bits none (some a) h e f = rw f (inr refl)
  parsed_Given raw bits none none h e f = rw f (refl, (h, e, f))

  given_prefix-Given : (raw : String) (bits : ℕ) → Given raw (given_prefix net raw bits)
  unfolding given_prefix parse_prefix
  given_prefix-Given raw bits =
      if_cases (Given raw) (raw == "") (λ e. inl (ground (arith, e, eq_iff raw "")))
        (λ e.
          parsed_Given raw bits (net.parse_prefix raw) (net.parse_addr raw)
            (λ n. ground (arith, e, n, eq_iff raw "")) refl refl)

  Prefixes : MasqueState → Configured (List P) → Type 0
  Prefixes m (configured ps) = is_empty ps ≡ false
  Prefixes m (refused no_tunnel_addresses) = (m.ipv4 ≡ "") × (m.ipv6 ≡ "")
  Prefixes m (refused (bad_tunnel_address raw)) = ((raw ≡ m.ipv4) ⊎ (raw ≡ m.ipv6)) × Unread raw

  is_empty_left : (v4 v6 : List P) → is_empty (v4 ++ v6) ≡ true → is_empty v4 ≡ true
  is_empty_left [] v6 h = refl
  is_empty_left (p ∷ v4) v6 h = h

  is_empty_right : (v4 v6 : List P) → is_empty (v4 ++ v6) ≡ true → is_empty v6 ≡ true
  is_empty_right [] v6 h = h
  is_empty_right (p ∷ v4) v6 h = cc

  left_out :
      (raw : String) (ps : List P) → Given raw (configured ps) → is_empty ps ≡ true → raw ≡ ""
  left_out raw ps (inl e) h = e
  left_out raw ps (inr f) h = cc

  joined :
      (m : MasqueState) (r4 r6 : Configured (List P))
      → Given m.ipv4 r4
      → Given m.ipv6 r6
      → Prefixes m (
          r4 >>= λ v4. r6 >>= λ v6.
          if is_empty (v4 ++ v6) then refused no_tunnel_addresses else configured (v4 ++ v6))
  unfolding Prefixes
  joined m (refused (bad_tunnel_address r)) r6 g h = (inl g.0, g.1)
  joined m (refused no_tunnel_addresses) r6 g h = elim g [ ]
  joined m (configured v4) (refused (bad_tunnel_address r)) g h = (inr h.0, h.1)
  joined m (configured v4) (refused no_tunnel_addresses) g h = elim h [ ]
  joined m (configured v4) (configured v6) g h =
      if_cases (Prefixes m) (is_empty (v4 ++ v6))
        (λ e. (
          left_out m.ipv4 v4 g (is_empty_left v4 v6 e),
          left_out m.ipv6 v6 h (is_empty_right v4 v6 e),
        ))
        (λ e. e)

  with_prefixes :
      (m : MasqueState) (sett : Settings) (r : Configured (List P))
      → Every IsModerate sett.masque_options
      → Prefixes m r
      → Outcome m (
          r >>= λ addrs. configured (record {
            mtu = mtu_of sett.masque_options;
            endpoint_override = sett.endpoint_override;
            addresses = addrs;
            masque = masque_of m sett.masque_options;
          }))
  unfolding Prefixes
  with_prefixes m sett (refused (bad_tunnel_address raw)) o h = h
  with_prefixes m sett (refused no_tunnel_addresses) o h = h
  with_prefixes m sett (configured ps) o h = record {
    addressed = h;
    sized = mtu_positive sett.masque_options;
    ported = port_positive m sett.masque_options o;
    delayed = reconnect_delay-IsShort m sett.masque_options o;
  }

  -- The configuration of the tunnel, with options that are moderate where there are any: it has a tunnel
  -- address, a positive MTU and, with the transport's defaults, a positive port and a reconnect delay
  -- below 2^62 nanoseconds. It is refused only if the account has no tunnel address, or has one that is
  -- neither a prefix nor an address.
  pub build_masque_start_config-Outcome :
      (m : MasqueState) (sett : Settings)
      → Every IsModerate sett.masque_options
      → Outcome m (build_masque_start_config net m sett)
  unfolding build_masque_start_config local_prefixes
  build_masque_start_config-Outcome m sett o =
      with_prefixes m sett (local_prefixes net m.ipv4 m.ipv6) o
        (joined m _ _ (given_prefix-Given m.ipv4 32) (given_prefix-Given m.ipv6 128))
