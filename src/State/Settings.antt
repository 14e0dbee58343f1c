-- ===== src/State/Settings.antt =====
-- internal/state/models.go: the operator's configuration kept in settings.json. A slice is a list
-- (nil and empty are one value), a pointer to options is an `Option`.
pub mod Normalize
pub mod Normal
pub mod Json
use cfwarp_cli.Prelude.{
  ℕ, Bool, true, false, not, ◌&&◌, ◌||◌, String, ◌==◌, Option, none, some, List, [], ◌∷◌, ℤ, pos,
  is_zero, if◌then◌else◌, to_lower,
}

abbrev pub current_settings_schema_version : ℤ
current_settings_schema_version = pos 4

abbrev pub runtime_family_legacy : String
runtime_family_legacy = "legacy"

abbrev pub runtime_family_native : String
runtime_family_native = "native"

abbrev pub transport_wireguard : String
transport_wireguard = "wireguard"

abbrev pub transport_masque : String
transport_masque = "masque"

abbrev pub mode_socks5 : String
mode_socks5 = "socks5"

abbrev pub mode_http : String
mode_http = "http"

abbrev pub mode_tun : String
mode_tun = "tun"

abbrev pub backend_singbox_wireguard : String
backend_singbox_wireguard = "singbox-wireguard"

abbrev pub backend_native_masque : String
backend_native_masque = "native-masque"

abbrev pub backend_native_wireguard : String
backend_native_wireguard = "native-wireguard"

pub record MasqueOptions : Type 0 where
  pub sni : String
  pub connect_port : ℤ
  pub use_ipv6 : Bool
  pub mtu : ℤ
  pub initial_packet_size : ℕ  -- uint16
  pub keep_alive_period_seconds : ℤ
  pub reconnect_delay_millis : ℤ

pub record AccessConfig : Type 0 where
  pub type : String
  pub listen_host : String
  pub listen_port : ℤ
  pub username : String
  pub password : String
  pub name : String
  pub mtu : ℤ

pub record CapCheck : Type 0 where
  pub probe : String
  pub required : Bool
  pub rotate_on_fail : Bool
  pub timeout_seconds : ℤ

pub record CapsOptions : Type 0 where
  pub interval_seconds : ℤ
  pub checks : List CapCheck

pub record DnsOptions : Type 0 where
  pub mode : String
  pub server : String
  pub server_port : ℤ
  pub path : String
  pub strategy : String

pub record RotationOptions : Type 0 where
  pub enabled : Bool
  pub max_attempts_per_incident : ℤ
  pub settle_time_seconds : ℤ
  pub cooldown_seconds : ℤ
  pub restore_last_good : Bool
  pub enroll_masque : Bool
  pub distinctness : String
  pub history_size : ℤ

pub record DaemonOptions : Type 0 where
  pub control_socket : String

pub record Settings : Type 0 where
  pub schema_version : ℤ
  pub runtime_family : String
  pub transport : String
  pub mode : String
  pub listen_host : String
  pub listen_port : ℤ
  pub proxy_username : String
  pub proxy_password : String
  pub endpoint_override : String
  pub state_dir : String
  pub log_level : String
  pub masque_options : Option MasqueOptions
  pub access : List AccessConfig
  pub caps : Option CapsOptions
  pub dns : Option DnsOptions
  pub rotation : Option RotationOptions
  pub daemon : Option DaemonOptions
  pub backend : String
  pub proxy_mode : String

unfoldable pub default_settings : Settings
default_settings = record {
  schema_version = current_settings_schema_version;
  runtime_family = runtime_family_legacy;
  transport = transport_wireguard;
  mode = mode_socks5;
  listen_host = "0.0.0.0";
  listen_port = pos 1080;
  proxy_username = "";
  proxy_password = "";
  endpoint_override = "";
  state_dir = "";
  log_level = "info";
  masque_options = none;
  access = [];
  caps = none;
  dns = none;
  rotation = none;
  daemon = none;
  backend = backend_singbox_wireguard;
  proxy_mode = mode_socks5;
}

-- The backend tag that a runtime family and a transport select, "" for an unsupported pair.
unfoldable pub derive_backend_tag : String → String → String
derive_backend_tag family transport =
    if family == runtime_family_legacy && transport == transport_wireguard
    then backend_singbox_wireguard
    else if family == runtime_family_native && transport == transport_masque
    then backend_native_masque
    else if family == runtime_family_native && transport == transport_wireguard
    then backend_native_wireguard
    else ""

unfoldable pub infer_runtime_selection : String → String × String
infer_runtime_selection backend =
    let tag = to_lower backend in
    if tag == backend_singbox_wireguard
    then (runtime_family_legacy, transport_wireguard)
    else if tag == backend_native_masque
    then (runtime_family_native, transport_masque)
    else if tag == backend_native_wireguard
    then (runtime_family_native, transport_wireguard)
    else ("", "")

-- `defaultString` and `defaultInt`.
unfoldable pub default_string : String → String → String
default_string v fallback = if v == "" then fallback else v

unfoldable pub default_int : ℤ → ℤ → ℤ
default_int v fallback = if is_zero v then fallback else v
