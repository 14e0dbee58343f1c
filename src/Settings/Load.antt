-- ===== src/Settings/Load.antt =====
-- `Load` of internal/settings/load.go: defaults, the stored file, a settings file, the environment
-- and the flags, one over the other. `getenv` is the environment ("" for a variable that is not set),
-- and the files are what internal/state reads from them.
pub mod Env
pub mod Synced
pub mod Layers
use cfwarp_cli.Prelude.{
  Bool, true, false, not, ◌&&◌, ◌||◌, String, ◌==◌, Option, none, some, List, [], ◌∷◌, ℤ, pos,
  is_zero, is_empty, if◌then◌else◌, to_lower, trim_space,
}
use cfwarp_cli.State.Settings.{Settings, AccessConfig, default_settings, mode_socks5, mode_tun}
use cfwarp_cli.State.Settings.Normalize.{normalize}
use cfwarp_cli.Settings.Validate.{Error, validate}
use cfwarp_cli.Settings.Load.Env.{
  given, apply_masque_env, apply_caps_env, apply_dns_env, apply_rotation_env, apply_daemon_env,
  env_text, env_int, or_given, lowered,
}

pub record Overrides : Type 0 where
  pub backend : Option String
  pub runtime_family : Option String
  pub transport : Option String
  pub proxy_mode : Option String
  pub mode : Option String
  pub listen_host : Option String
  pub listen_port : Option ℤ
  pub proxy_username : Option String
  pub proxy_password : Option String
  pub endpoint_override : Option String
  pub log_level : Option String
  pub settings_file : Option String

abbrev pub empty_access : AccessConfig
empty_access = record {
  type = "";
  listen_host = "";
  listen_port = pos 0;
  username = "";
  password = "";
  name = "";
  mtu = pos 0;
}

-- The primary listener under the legacy fields that are set.
unfoldable pub primary_from_legacy : Settings → AccessConfig → AccessConfig
primary_from_legacy s primary =
    let type = if s.mode == "" then primary.type else s.mode in
    let host = if s.listen_host == "" then primary.listen_host else s.listen_host in
    let port = if is_zero s.listen_port then primary.listen_port else s.listen_port in
    let kept = s.proxy_username == "" && s.proxy_password == "" in
    let final = if type == "" then mode_socks5 else type in
    record primary {
      type = final;
      listen_host = if host == "" && not (final == mode_tun) then "0.0.0.0" else host;
      listen_port = if is_zero port && not (final == mode_tun) then pos 1080 else port;
      username = if kept then primary.username else s.proxy_username;
      password = if kept then primary.password else s.proxy_password;
    }

abbrev pub with_primary : Settings → List AccessConfig → List AccessConfig
with_primary s [] = primary_from_legacy s empty_access ∷ []
with_primary s (a ∷ rest) = primary_from_legacy s a ∷ rest

unfoldable pub sync_primary_access_from_legacy : Settings → Settings
sync_primary_access_from_legacy s = record s { access = with_primary s s.access }

abbrev pub over : String → String → String
over v kept = if v == "" then kept else v

abbrev pub over_pointer {ℓ} : {A : Type ℓ} → Option A → Option A → Option A
over_pointer none kept = kept
over_pointer (some v) kept = some v

unfoldable pub apply_persisted : Settings → Settings → Settings
apply_persisted s p = record s {
  schema_version = if is_zero p.schema_version then s.schema_version else p.schema_version;
  runtime_family = over p.runtime_family s.runtime_family;
  transport = over p.transport s.transport;
  mode = over p.mode (over p.proxy_mode s.mode);
  listen_host = over p.listen_host s.listen_host;
  listen_port = if is_zero p.listen_port then s.listen_port else p.listen_port;
  proxy_username = over p.proxy_username s.proxy_username;
  proxy_password = over p.proxy_password s.proxy_password;
  endpoint_override = over p.endpoint_override s.endpoint_override;
  state_dir = over p.state_dir s.state_dir;
  log_level = over p.log_level s.log_level;
  masque_options = over_pointer p.masque_options s.masque_options;
  access = if is_empty p.access then s.access else p.access;
  caps = over_pointer p.caps s.caps;
  dns = over_pointer p.dns s.dns;
  rotation = over_pointer p.rotation s.rotation;
  daemon = over_pointer p.daemon s.daemon;
  backend = over p.backend s.backend;
  proxy_mode = over p.proxy_mode s.proxy_mode;
}

-- The names and the listener that a source gives: variables that are set, or flags.
unfoldable pub apply_names : Overrides → Settings → Settings
apply_names o s = record s {
  runtime_family = or_given (lowered o.runtime_family) s.runtime_family;
  transport = or_given (lowered o.transport) s.transport;
  mode = or_given (lowered o.mode) (or_given (lowered o.proxy_mode) s.mode);
  listen_host = or_given o.listen_host s.listen_host;
  listen_port = or_given o.listen_port s.listen_port;
  proxy_username = or_given o.proxy_username s.proxy_username;
  proxy_password = or_given o.proxy_password s.proxy_password;
  endpoint_override = or_given o.endpoint_override s.endpoint_override;
  log_level = or_given (lowered o.log_level) s.log_level;
  backend = or_given o.backend s.backend;
  proxy_mode = or_given (lowered o.proxy_mode) s.proxy_mode;
}

unfoldable pub legacy_access_touched : Overrides → Bool
legacy_access_touched o =
    given o.listen_host
    || given o.listen_port
    || given o.proxy_mode
    || given o.mode
    || given o.proxy_username
    || given o.proxy_password

-- The variables that have a flag too.
unfoldable pub env_names : (String → String) → Overrides
env_names getenv = record {
  backend = env_text getenv "CFWARP_BACKEND";
  runtime_family = env_text getenv "CFWARP_RUNTIME_FAMILY";
  transport = env_text getenv "CFWARP_TRANSPORT";
  proxy_mode = env_text getenv "CFWARP_PROXY_MODE";
  mode = env_text getenv "CFWARP_MODE";
  listen_host = env_text getenv "CFWARP_LISTEN_HOST";
  listen_port = env_int getenv "CFWARP_LISTEN_PORT";
  proxy_username = env_text getenv "CFWARP_PROXY_USERNAME";
  proxy_password = env_text getenv "CFWARP_PROXY_PASSWORD";
  endpoint_override = env_text getenv "CFWARP_ENDPOINT_OVERRIDE";
  log_level = env_text getenv "CFWARP_LOG_LEVEL";
  settings_file = none;
}

-- The blocks of options under the environment.
unfoldable pub apply_blocks : (String → String) → Settings → Settings
apply_blocks getenv s = record s {
  masque_options = apply_masque_env getenv s.masque_options;
  caps = apply_caps_env getenv s.caps;
  dns = apply_dns_env getenv s.dns;
  rotation = apply_rotation_env getenv s.rotation;
  daemon = apply_daemon_env getenv s.daemon;
}

unfoldable pub apply_env : (String → String) → Settings → Settings
apply_env getenv s =
    let t = apply_blocks getenv (apply_names (env_names getenv) s) in
    if legacy_access_touched (env_names getenv) then sync_primary_access_from_legacy t else t

unfoldable pub apply_overrides : Overrides → Settings → Settings
apply_overrides o s =
    let t = apply_names o s in
    if legacy_access_touched o then sync_primary_access_from_legacy t else t

-- What reading a settings file gives.
pub data Read : Type 0 where
  found : Settings → Read
  not_found : Read
  broken : Read

pub data Loaded : Type 0 where
  loaded : Settings → Loaded
  persisted_error file_error : Loaded
  invalid : Settings → Error → Loaded

-- The path of the standalone settings file, "" for none: the flag wins over the environment.
unfoldable pub settings_file : (String → String) → Overrides → String
settings_file getenv o = elim o.settings_file [
  | none ↦ getenv "CFWARP_SETTINGS_FILE"
  | some path ↦ trim_space path
]

-- Settings are returned when no check fails.
abbrev pub checked : Settings → Option Error → Loaded
checked t none = loaded t
checked t (some e) = invalid t e

-- The last layers and the checks.
unfoldable pub finish : (String → String) → Overrides → Settings → Loaded
finish getenv o s =
    let t = normalize (apply_overrides o (apply_env getenv s)) in checked t (validate t)

abbrev pub overlay_file : (String → String) → Overrides → Settings → Read → Loaded
overlay_file getenv o s (found external) = finish getenv o (apply_persisted s external)
overlay_file getenv o s not_found = file_error
overlay_file getenv o s broken = file_error

unfoldable pub load_file : (String → Read) → (String → String) → Overrides → Settings → Loaded
load_file read getenv o s =
    let path = settings_file getenv o in
    if path == "" then finish getenv o s else overlay_file getenv o s (read path)

unfoldable pub load : Read → (String → Read) → (String → String) → Overrides → Loaded
load (found persisted) read getenv o =
    load_file read getenv o (apply_persisted default_settings persisted)
load not_found read getenv o = load_file read getenv o default_settings
load broken read getenv o = persisted_error
