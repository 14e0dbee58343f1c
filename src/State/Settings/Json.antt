-- ===== src/State/Settings/Json.antt =====
-- `MarshalJSON` and `UnmarshalJSON` of `Settings` in internal/state/models.go, between settings and
-- the struct handed to encoding/json. A field left out by `omitempty` is read back as its zero value.
pub mod Roundtrip
use cfwarp_cli.Prelude.{
  same_int, Bool, true, false, not, ◌&&◌, ◌||◌, String, ◌==◌, Option, none, some, List, [], ◌∷◌, ℤ,
  pos, negsuc, nat_eq, is_zero, is_empty, if◌then◌else◌,
}
use cfwarp_cli.State.Settings.{
  MasqueOptions, AccessConfig, CapsOptions, DnsOptions, RotationOptions, DaemonOptions, Settings,
  default_settings,
}
use cfwarp_cli.State.Settings.Normalize.{normalize}

pub record SettingsJson : Type 0 where
  pub schema_version : ℤ
  pub runtime_family : String
  pub transport : String
  pub mode : String
  pub listen_host : String
  pub listen_port : ℤ
  pub proxy_username : String
  pub proxy_password : String
  pub endpoint_override : String
  pub state_dir : String
  pub log_level : String
  pub masque_options : Option MasqueOptions
  pub access : List AccessConfig
  pub caps : Option CapsOptions
  pub dns : Option DnsOptions
  pub rotation : Option RotationOptions
  pub daemon : Option DaemonOptions
  pub backend : String
  pub proxy_mode : String

-- The listener is the one that the legacy fields describe.
unfoldable pub mirrors_legacy : Settings → AccessConfig → Bool
mirrors_legacy s a =
    a.type == s.mode
    && (a.listen_host == s.listen_host
        && (same_int a.listen_port s.listen_port
            && (a.username == s.proxy_username
                && (a.password == s.proxy_password && (a.name == "" && is_zero a.mtu)))))

unfoldable pub access_matches_legacy : Settings → List AccessConfig → Bool
access_matches_legacy s [] = false
access_matches_legacy s (a ∷ []) = mirrors_legacy s a
access_matches_legacy s (a ∷ b ∷ rest) = false

unfoldable pub zero_dns : DnsOptions → Bool
zero_dns o =
    o.mode == "" && o.server == "" && is_zero o.server_port && o.path == "" && o.strategy == ""

unfoldable pub zero_rotation : RotationOptions → Bool
zero_rotation o =
    not o.enabled
    && is_zero o.max_attempts_per_incident
    && is_zero o.settle_time_seconds
    && is_zero o.cooldown_seconds
    && not o.restore_last_good
    && not o.enroll_masque
    && o.distinctness == ""
    && is_zero o.history_size

unfoldable pub zero_daemon : DaemonOptions → Bool
zero_daemon o = o.control_socket == ""

-- A pointer to a block of zero values is left out, like a nil pointer.
abbrev pub unless_zero {ℓ} : {A : Type ℓ} → (A → Bool) → Option A → Option A
unless_zero zero none = none
unless_zero zero (some a) = if zero a then none else some a

-- The payload of `MarshalJSON` for settings that are normalised already.
unfoldable pub to_payload : Settings → SettingsJson
to_payload ss = record {
  schema_version = ss.schema_version;
  runtime_family = ss.runtime_family;
  transport = ss.transport;
  mode = ss.mode;
  listen_host = ss.listen_host;
  listen_port = ss.listen_port;
  proxy_username = ss.proxy_username;
  proxy_password = ss.proxy_password;
  endpoint_override = ss.endpoint_override;
  state_dir = ss.state_dir;
  log_level = ss.log_level;
  masque_options = ss.masque_options;
  access = if access_matches_legacy ss ss.access then [] else ss.access;
  caps = ss.caps;
  dns = unless_zero zero_dns ss.dns;
  rotation = unless_zero zero_rotation ss.rotation;
  daemon = unless_zero zero_daemon ss.daemon;
  backend = "";
  proxy_mode = "";
}

unfoldable pub marshal : Settings → SettingsJson
marshal s = to_payload (normalize s)

abbrev pub or_keep : String → String → String
or_keep v kept = if v == "" then kept else v

abbrev pub or_keep_int : ℤ → ℤ → ℤ
or_keep_int v kept = if is_zero v then kept else v

abbrev pub or_keep_pointer {ℓ} : {A : Type ℓ} → Option A → Option A → Option A
or_keep_pointer none kept = kept
or_keep_pointer (some a) kept = some a

-- The payload laid over the defaults `d`, as in `UnmarshalJSON`: `mode` sets the proxy mode too,
-- and a proxy mode sets the mode where the payload has none.
unfoldable pub overlay : Settings → SettingsJson → Settings
overlay d raw = record {
  schema_version = or_keep_int raw.schema_version d.schema_version;
  runtime_family = or_keep raw.runtime_family d.runtime_family;
  transport = or_keep raw.transport d.transport;
  mode = if raw.mode == "" then or_keep raw.proxy_mode d.mode else raw.mode;
  listen_host = or_keep raw.listen_host d.listen_host;
  listen_port = or_keep_int raw.listen_port d.listen_port;
  proxy_username = or_keep raw.proxy_username d.proxy_username;
  proxy_password = or_keep raw.proxy_password d.proxy_password;
  endpoint_override = or_keep raw.endpoint_override d.endpoint_override;
  state_dir = or_keep raw.state_dir d.state_dir;
  log_level = or_keep raw.log_level d.log_level;
  masque_options = or_keep_pointer raw.masque_options d.masque_options;
  access = raw.access;
  caps = or_keep_pointer raw.caps d.caps;
  dns = raw.dns;
  rotation = raw.rotation;
  daemon = raw.daemon;
  backend = or_keep raw.backend d.backend;
  proxy_mode = or_keep raw.proxy_mode (or_keep raw.mode d.proxy_mode);
}

unfoldable pub unmarshal : SettingsJson → Settings
unmarshal raw = normalize (overlay default_settings raw)
