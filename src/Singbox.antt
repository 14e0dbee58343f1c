-- ===== src/Singbox.antt =====
-- internal/backend/singbox: the configuration that `Render` of renderer.go builds from an account and
-- settings (the types of config.go), before encoding/json writes it. `print_int` is the `%d` of
-- `fmt.Sprintf`.
pub mod Closed
pub mod Serves
mod Tests
use Prim.Native.String.{◌++◌}
use cfwarp_cli.Prelude.{
  ℕ, suc, Bool, true, false, not, String, ◌==◌, Option, none, some, List, [], ◌∷◌, ℤ, pos,
  if◌then◌else◌,
}
use cfwarp_cli.Prelude.Net.{split_host_port, atoi, has_byte}
use cfwarp_cli.State.Account.{AccountState, Reserved}
use cfwarp_cli.State.Settings.{Settings, AccessConfig, DnsOptions, default_string}
use cfwarp_cli.State.Settings.Normalize.{normalize}
use cfwarp_cli.Settings.Endpoint.{EndpointError, validate_endpoint}

pub record LogConfig : Type 0 where
  pub level : String
  pub timestamp : Bool

pub record User : Type 0 where
  pub username : String
  pub password : String

pub record Inbound : Type 0 where
  pub type : String
  pub tag : String
  pub listen : String
  pub listen_port : ℤ
  pub users : List User

pub record WgPeer : Type 0 where
  pub address : String
  pub port : ℤ
  pub public_key : String
  pub allowed_ips : List String
  pub persistent_keepalive_interval : ℤ
  pub reserved : Reserved

pub record WgEndpoint : Type 0 where
  pub type : String
  pub tag : String
  pub system : Bool
  pub mtu : ℤ
  pub address : List String
  pub private_key : String
  pub domain_resolver : String
  pub peers : List WgPeer

pub record DnsServer : Type 0 where
  pub type : String
  pub tag : String
  pub prefer_go : Bool
  pub server : String
  pub server_port : ℤ
  pub path : String

pub record DnsConfig : Type 0 where
  pub servers : List DnsServer
  pub strategy : String

pub record RouteRule : Type 0 where
  pub action : String
  pub server : String
  pub strategy : String

pub record RouteConfig : Type 0 where
  pub rules : List RouteRule
  pub final : String
  pub default_domain_resolver : String

pub record SingboxConfig : Type 0 where
  pub log : LogConfig
  pub dns : Option DnsConfig
  pub inbounds : List Inbound
  pub endpoints : List WgEndpoint
  pub route : RouteConfig

abbrev pub default_peer_endpoint : String
default_peer_endpoint = "engage.cloudflareclient.com:2408"

abbrev pub wg_tag : String
wg_tag = "wg-ep"

abbrev pub local_dns_tag : String
local_dns_tag = "local"

abbrev pub custom_dns_tag : String
custom_dns_tag = "dns-custom"

pub data RenderFault : Type 0 where
  bad_peer_endpoint : EndpointError → RenderFault
  no_warp_ipv4 : RenderFault
  unsupported_access : String → RenderFault

pub data Rendered (A : Type 0) : Type 0 where
  rendered : A → Rendered A
  failed : RenderFault → Rendered A

infixl 5 ◌>>=◌
abbrev pub ◌>>=◌ : {A B : Type 0} → Rendered A → (A → Rendered B) → Rendered B
rendered a >>= f = f a
failed e >>= f = failed e

unfoldable pub build_log_config : String → LogConfig
build_log_config level = record { level = default_string level "info"; timestamp = true }

-- What the options say where they are read, and the tag of the one server.
unfoldable pub build_dns_config : Option DnsOptions → Option DnsConfig × String
build_dns_config none = (none, "")
build_dns_config (some opts) =
    if opts.mode == ""
    then (none, "")
    else if not (opts.mode == "local")
    then (
      some (record {
        servers =
            record {
              type = opts.mode;
              tag = custom_dns_tag;
              prefer_go = false;
              server = opts.server;
              server_port = opts.server_port;
              path = if opts.mode == "https" then opts.path else "";
            }
            ∷ [];
        strategy = opts.strategy;
      }),
      custom_dns_tag,
    )
    else (
      some (record {
        servers =
            record {
              type = opts.mode;
              tag = local_dns_tag;
              prefer_go = false;
              server = "";
              server_port = pos 0;
              path = "";
            }
            ∷ [];
        strategy = opts.strategy;
      }),
      local_dns_tag,
    )

abbrev pub strategy_of : Option DnsOptions → String
strategy_of none = ""
strategy_of (some opts) = opts.strategy

unfoldable pub build_route_rules : String → Option DnsOptions → List RouteRule
build_route_rules tag opts =
    if tag == ""
    then []
    else record { action = "resolve"; server = tag; strategy = strategy_of opts } ∷ []

-- The peer's text: the override, what the account has, or the default.
abbrev pub peer_text : Settings → AccountState → String
peer_text s a =
    default_string (default_string s.endpoint_override a.warp_peer_endpoint) default_peer_endpoint

abbrev pub port_or_zero : Option ℤ → ℤ
port_or_zero none = pos 0
port_or_zero (some port) = port

-- The parts of a text that was validated; the errors that the source drops cannot arise there.
abbrev pub parts_of : Option (String × String) → String × ℤ
parts_of none = ("", pos 0)
parts_of (some (host, port)) = (host, port_or_zero (atoi port))

-- The parts, unless the text has a fault.
abbrev pub unless_faulty : Option EndpointError → String × ℤ → Rendered (String × ℤ)
unless_faulty none parts = rendered parts
unless_faulty (some e) parts = failed (bad_peer_endpoint e)

unfoldable pub resolve_peer_endpoint : Settings → AccountState → Rendered (String × ℤ)
resolve_peer_endpoint s a =
    let raw = peer_text s a in
    unless_faulty (validate_endpoint raw) (parts_of (split_host_port raw))

-- `bits` is the number as `%d` prints it.
unfoldable pub ensure_prefix : String → String → String
ensure_prefix addr bits = if has_byte b'/' addr then addr else addr ++ ("/" ++ bits)

unfoldable pub build_local_addresses : String → String → Rendered (List String)
build_local_addresses ipv4 ipv6 =
    if ipv4 == ""
    then failed no_warp_ipv4
    else rendered
        (ensure_prefix ipv4 "32" ∷ (if not (ipv6 == "") then ensure_prefix ipv6 "128" ∷ [] else []))

unfoldable pub inbound_type_for : String → Rendered String
inbound_type_for mode =
    if mode == "socks5"
    then rendered "socks"
    else if mode == "http"
    then rendered "http"
    else failed (unsupported_access mode)

unfoldable pub build_users : String → String → List User
build_users username password =
    if username == "" then [] else record { username = username; password = password } ∷ []

module _ (print_int : ℤ → String) where
  abbrev pub inbound_tag : ℕ → String
  inbound_tag i = "proxy-in-" ++ print_int (pos (suc i))

  abbrev pub inbound_of : ℕ → String → AccessConfig → Inbound
  inbound_of i type access = record {
    type = type;
    tag = inbound_tag i;
    listen = access.listen_host;
    listen_port = access.listen_port;
    users = build_users access.username access.password;
  }

  -- The loop, from the listener of number `i` on.
  unfoldable pub build_inbounds : ℕ → List AccessConfig → Rendered (List Inbound)
  build_inbounds i [] = rendered []
  build_inbounds i (access ∷ rest) = do
    type ← inbound_type_for access.type
    others ← build_inbounds (suc i) rest
    rendered (inbound_of i type access ∷ others)

  abbrev pub endpoint_of : AccountState → String → String × ℤ → List String → WgEndpoint
  endpoint_of a tag peer addresses = record {
    type = "wireguard";
    tag = wg_tag;
    system = false;
    mtu = pos 1280;
    address = addresses;
    private_key = a.warp_private_key;
    domain_resolver = tag;
    peers =
        record {
          address = peer.0;
          port = peer.1;
          public_key = a.warp_peer_pub_key;
          allowed_ips = "0.0.0.0/0" ∷ "::/0" ∷ [];
          persistent_keepalive_interval = pos 25;
          reserved = a.warp_reserved;
        }
        ∷ [];
  }

  -- The configuration, from the parts that may fail.
  abbrev pub config_of :
      Settings → AccountState → String × ℤ → List String → List Inbound → SingboxConfig
  config_of s a peer addresses inbounds =
      let (dns, tag) = build_dns_config s.dns in
      record {
        log = build_log_config s.log_level;
        dns = dns;
        inbounds = inbounds;
        endpoints = endpoint_of a tag peer addresses ∷ [];
        route = record {
          rules = build_route_rules tag s.dns;
          final = wg_tag;
          default_domain_resolver = tag;
        };
      }

  unfoldable pub render : AccountState → Settings → Rendered SingboxConfig
  render a given = do
    let s = normalize given
    peer ← resolve_peer_endpoint s a
    addresses ← build_local_addresses a.warp_ipv4 a.warp_ipv6
    inbounds ← build_inbounds 0 s.access
    rendered (config_of s a peer addresses inbounds)
