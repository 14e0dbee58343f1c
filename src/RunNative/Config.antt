-- ===== src/RunNative/Config.antt =====
-- `buildMasqueStartConfig` of cmd/native_runtime.go with its helpers. The parsers of net/netip are
-- arguments; durations are 64-bit counts of nanoseconds that wrap around.
use cfwarp_cli.Prelude.{◌++◌}
use cfwarp_cli.Prelude.{
  ℕ, ◌*◌, ◌%◌, ◌^◌, false, String, ◌==◌, Option, none, some, List, [], ◌∷◌, ℤ, pos, is_positive,
  is_empty, to_int, to_word, if◌then◌else◌,
}
use cfwarp_cli.State.Account.{MasqueState}
use cfwarp_cli.State.Settings.{Settings, MasqueOptions}
use cfwarp_cli.Masque.Tunnel.{MasqueConfig}

-- `netip.ParsePrefix`, `netip.ParseAddr` and `netip.PrefixFrom`.
pub record NetIp (A P : Type 0) : Type 0 where
  pub parse_prefix : String → Option P
  pub parse_addr : String → Option A
  pub prefix_from : A → ℕ → P

pub data ConfigError : Type 0 where
  bad_tunnel_address : String → ConfigError
  no_tunnel_addresses : ConfigError

pub data Configured (A : Type 0) : Type 0 where
  configured : A → Configured A
  refused : ConfigError → Configured A

infixl 5 ◌>>=◌
abbrev pub ◌>>=◌ : {A B : Type 0} → Configured A → (A → Configured B) → Configured B
configured a >>= f = f a
refused e >>= f = refused e

-- `transport.StartConfig`.
pub record StartConfig (P : Type 0) : Type 0 where
  pub mtu : ℤ
  pub endpoint_override : String
  pub addresses : List P
  pub masque : MasqueConfig

-- `time.Duration(n)` times a unit in nanoseconds, for a number that is positive.
unfoldable pub duration_of : ℕ → ℤ → ℤ
duration_of unit n = if is_positive n then to_int ((to_word n * unit) % 2 ^ 64) else pos 0

abbrev pub duration_seconds : ℤ → ℤ
duration_seconds = duration_of 1000000000

abbrev pub duration_millis : ℤ → ℤ
duration_millis = duration_of 1000000

abbrev pub mtu_of : Option MasqueOptions → ℤ
mtu_of none = pos 1280
mtu_of (some o) = if is_positive o.mtu then o.mtu else pos 1280

abbrev pub plain_masque : MasqueState → MasqueConfig
plain_masque m = record {
  private_key_der_base64 = m.private_key_der_base64;
  endpoint_pub_key_pem = m.endpoint_pub_key_pem;
  endpoint_v4 = m.endpoint_v4;
  endpoint_v6 = m.endpoint_v6;
  connect_uri = "";
  sni = "";
  connect_port = pos 0;
  use_ipv6 = false;
  initial_packet_size = 0;
  keep_alive_period = pos 0;
  reconnect_delay = pos 0;
}

abbrev pub masque_of : MasqueState → Option MasqueOptions → MasqueConfig
masque_of m none = plain_masque m
masque_of m (some o) = record (plain_masque m) {
  sni = o.sni;
  connect_port = o.connect_port;
  use_ipv6 = o.use_ipv6;
  initial_packet_size = o.initial_packet_size;
  keep_alive_period = duration_seconds o.keep_alive_period_seconds;
  reconnect_delay = duration_millis o.reconnect_delay_millis;
}

module _ {A P : Type 0} (net : NetIp A P) where
  abbrev pub prefix_of_addr : String → ℕ → Option A → Configured P
  prefix_of_addr raw bits none = refused (bad_tunnel_address raw)
  prefix_of_addr raw bits (some a) = configured (net.prefix_from a bits)

  abbrev pub prefix_or_addr : String → ℕ → Option P → Configured P
  prefix_or_addr raw bits (some p) = configured p
  prefix_or_addr raw bits none = prefix_of_addr raw bits (net.parse_addr raw)

  unfoldable pub parse_prefix : String → ℕ → Configured P
  parse_prefix raw bits = prefix_or_addr raw bits (net.parse_prefix raw)

  -- The prefixes that an address adds: none if it is not given.
  unfoldable pub given_prefix : String → ℕ → Configured (List P)
  given_prefix raw bits =
      if raw == "" then configured [] else parse_prefix raw bits >>= λ p. configured (p ∷ [])

  unfoldable pub local_prefixes : String → String → Configured (List P)
  local_prefixes ipv4 ipv6 = do
    v4 ← given_prefix ipv4 32
    v6 ← given_prefix ipv6 128
    if is_empty (v4 ++ v6) then refused no_tunnel_addresses else configured (v4 ++ v6)

  unfoldable pub build_masque_start_config : MasqueState → Settings → Configured (StartConfig P)
  build_masque_start_config m sett = do
    addrs ← local_prefixes m.ipv4 m.ipv6
    configured (record {
      mtu = mtu_of sett.masque_options;
      endpoint_override = sett.endpoint_override;
      addresses = addrs;
      masque = masque_of m sett.masque_options;
    })
