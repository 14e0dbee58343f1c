-- ===== src/Settings/Validate.antt =====
-- `Validate` of internal/settings/validate.go: the first fault of the settings, in the order of the
-- source's checks. The key of a listener is its host and port: `net.JoinHostPort` is one to one.
pub mod Spec
pub mod Laws
pub mod Access
pub mod Options
pub mod Valid
use cfwarp_cli.Prelude.{
  same_int, ℕ, suc, Bool, true, false, not, ◌&&◌, ◌||◌, String, ◌==◌, Option, none, some, List, [],
  ◌∷◌, ℤ, pos, negsuc, nat_eq, is_zero, is_positive, is_negative, is_above, is_empty, any,
  if◌then◌else◌, trim_space, tidy,
}
use cfwarp_cli.Settings.Endpoint.{EndpointError, validate_endpoint}
use cfwarp_cli.State.Settings.{
  Settings, AccessConfig, CapCheck, CapsOptions, DnsOptions, RotationOptions, runtime_family_legacy,
  runtime_family_native, transport_wireguard, transport_masque, mode_socks5, mode_http, mode_tun,
}
use cfwarp_cli.State.Settings.Normalize.{normalize}

pub data Error : Type 0 where
  invalid_runtime_family invalid_transport invalid_mode invalid_log_level : Error
  invalid_endpoint_override : EndpointError → Error
  no_access : Error
  invalid_access_type access_type_unsupported listen_host_required : ℕ → Error
  invalid_listen_port half_credentials duplicate_listener : ℕ → Error
  transport_not_of_family mode_not_of_family : Error
  invalid_caps_interval : Error
  invalid_caps_probe invalid_caps_timeout : ℕ → Error
  invalid_dns_mode invalid_dns_strategy dns_server_unsupported dns_port_unsupported : Error
  dns_path_unsupported dns_server_required invalid_dns_port dns_path_only_https : Error
  invalid_distinctness invalid_max_attempts invalid_settle_time invalid_history_size : Error
  invalid_cooldown negative_history_size : Error

abbrev pub one_of : List String → String → Bool
one_of names v = any (λ k. v == k) names

abbrev pub valid_runtime_families : List String
valid_runtime_families = "legacy" ∷ "native" ∷ []

abbrev pub valid_transports : List String
valid_transports = "wireguard" ∷ "masque" ∷ []

abbrev pub valid_modes : List String
valid_modes = "socks5" ∷ "http" ∷ "tun" ∷ []

abbrev pub valid_log_levels : List String
valid_log_levels = "debug" ∷ "info" ∷ "warn" ∷ "error" ∷ []

abbrev pub valid_cap_probes : List String
valid_cap_probes =
    "internet" ∷ "warp" ∷ "gemini" ∷ "chatgpt" ∷ "claude" ∷ "netflix" ∷ "youtube" ∷ []

abbrev pub valid_dns_modes : List String
valid_dns_modes = "local" ∷ "udp" ∷ "https" ∷ []

abbrev pub valid_dns_strategies : List String
valid_dns_strategies = "prefer_ipv4" ∷ "prefer_ipv6" ∷ "ipv4_only" ∷ "ipv6_only" ∷ []

abbrev pub valid_rotation_distinctness : List String
valid_rotation_distinctness = "either" ∷ "ipv4" ∷ "ipv6" ∷ "both" ∷ []

-- `if !ok { return err }`, and a call of a check that returns at its first fault.
abbrev pub require : Bool → Error → Option Error
require ok e = if ok then none else some e

infixl 5 ◌>>◌
abbrev pub ◌>>◌ : Option Error → Option Error → Option Error
none >> k = k
some e >> k = some e

unfoldable pub validate_override : String → Option Error
validate_override ep =
    if ep == ""
    then none
    else elim (validate_endpoint ep) [ none ↦ none | some e ↦ some (invalid_endpoint_override e) ]

-- One round of the loop over the listeners, but for the test of a duplicate.
unfoldable pub validate_listener : ℕ → AccessConfig → Option Error
validate_listener i a = do
  require (one_of valid_modes (tidy a.type)) (invalid_access_type i)
  require (not (tidy a.type == mode_tun)) (access_type_unsupported i)
  require (not (a.listen_host == "")) (listen_host_required i)
  require (is_positive a.listen_port && not (is_above a.listen_port 65535)) (invalid_listen_port i)
  require (if a.username == "" then a.password == "" else not (a.password == ""))
      (half_credentials i)

abbrev pub is_key : AccessConfig → String × ℤ → Bool
is_key a k = a.listen_host == k.0 && same_int a.listen_port k.1

unfoldable pub validate_access : ℕ → List (String × ℤ) → List AccessConfig → Option Error
validate_access i seen [] = none
validate_access i seen (a ∷ rest) = do
  validate_listener i a
  require (not (any (is_key a) seen)) (duplicate_listener i)
  validate_access (suc i) ((a.listen_host, a.listen_port) ∷ seen) rest

abbrev is_proxy_mode : String → Bool
is_proxy_mode mode = mode == mode_socks5 || mode == mode_http

-- A case of the `switch` on the runtime family.
abbrev pub validate_family : String → Settings → Option Error
validate_family transport s = do
  require (s.transport == transport) transport_not_of_family
  require (is_proxy_mode s.mode) mode_not_of_family

unfoldable pub validate_runtime : Settings → Option Error
validate_runtime s =
    if s.runtime_family == runtime_family_legacy
    then validate_family transport_wireguard s
    else if s.runtime_family == runtime_family_native
    then validate_family transport_masque s
    else none

unfoldable pub validate_checks : ℕ → List CapCheck → Option Error
validate_checks i [] = none
validate_checks i (c ∷ rest) = do
  require (one_of valid_cap_probes c.probe) (invalid_caps_probe i)
  require (is_positive c.timeout_seconds) (invalid_caps_timeout i)
  validate_checks (suc i) rest

unfoldable pub validate_caps : CapsOptions → Option Error
validate_caps c = do
  require (is_positive c.interval_seconds) invalid_caps_interval
  validate_checks 0 c.checks

abbrev pub validate_dns_local : DnsOptions → Option Error
validate_dns_local d = do
  require (d.server == "") dns_server_unsupported
  require (is_zero d.server_port) dns_port_unsupported
  require (d.path == "") dns_path_unsupported

abbrev pub validate_dns_remote : DnsOptions → Option Error
validate_dns_remote d = do
  require (not (trim_space d.server == "")) dns_server_required
  require (not (is_negative d.server_port || is_above d.server_port 65535)) invalid_dns_port
  require (not (d.mode == "udp" && not (d.path == ""))) dns_path_only_https

unfoldable pub validate_dns : DnsOptions → Option Error
validate_dns d = do
  require (one_of valid_dns_modes d.mode) invalid_dns_mode
  require (d.strategy == "" || one_of valid_dns_strategies d.strategy) invalid_dns_strategy
  if d.mode == "local" then validate_dns_local d else validate_dns_remote d

abbrev pub validate_enabled : RotationOptions → Option Error
validate_enabled r = do
  require (is_positive r.max_attempts_per_incident) invalid_max_attempts
  require (is_positive r.settle_time_seconds) invalid_settle_time
  require (is_positive r.history_size) invalid_history_size

unfoldable pub validate_rotation : RotationOptions → Option Error
validate_rotation r = do
  require (r.distinctness == "" || one_of valid_rotation_distinctness r.distinctness)
      invalid_distinctness
  if r.enabled then validate_enabled r else none
  require (not (is_negative r.cooldown_seconds)) invalid_cooldown
  require (not (is_negative r.history_size)) negative_history_size

abbrev pub when_some {ℓ} : {A : Type ℓ} → (A → Option Error) → Option A → Option Error
when_some f none = none
when_some f (some a) = f a

-- The checks on normalised settings.
unfoldable pub validate_normal : Settings → Option Error
validate_normal s = do
  require (one_of valid_runtime_families s.runtime_family) invalid_runtime_family
  require (one_of valid_transports s.transport) invalid_transport
  require (one_of valid_modes s.mode) invalid_mode
  require (one_of valid_log_levels s.log_level) invalid_log_level
  validate_override s.endpoint_override
  require (not (is_empty s.access)) no_access
  validate_access 0 [] s.access
  validate_runtime s
  when_some validate_caps s.caps
  when_some validate_dns s.dns
  when_some validate_rotation s.rotation

unfoldable pub validate : Settings → Option Error
validate s = validate_normal (normalize s)
