-- ===== src/Settings/Tests.antt =====
-- The theorems on settings at concrete settings.
use cfwarp_cli.Prelude.{
  ◌≡◌, ◌≢◌, ◌↔◌, ◌==◌, refl, true, none, some, String, List, [], ◌∷◌, pos, to_lower, trim_space,
  tidy, if◌then◌else◌, eq_iff, arith,
}
use cfwarp_cli.Prelude.Net.{
  split_host_port, cut_last, has_byte, host_part, atoi, digits_value, natural, split_commas,
}
use cfwarp_cli.State.Settings.{
  Settings, AccessConfig, default_settings, derive_backend_tag, infer_runtime_selection,
  default_string, default_int,
}
use cfwarp_cli.State.Settings.Normalize.{
  normalize, sync_primary, sync_with, normalize_options, select_names, retag_backend, resolve_mode,
  infer_selection, lower_names, legacy_access, choose_mode, settle_mode, normalize_access,
  normalize_caps, normalize_check, normalize_dns, normalize_rotation,
}
use cfwarp_cli.State.Settings.Json.{zero_dns}
use cfwarp_cli.Settings.Endpoint.{validate_endpoint, validate_split, validate_port}
use cfwarp_cli.Settings.Validate.{
  validate, validate_normal, validate_override, validate_access, validate_listener,
  validate_runtime, validate_caps, validate_checks, validate_dns, validate_rotation,
}
use cfwarp_cli.Settings.Load.Env.{
  apply_masque_env, apply_caps_env, apply_dns_env, apply_rotation_env, apply_daemon_env, env_checks,
  is_zero_masque_options, parse_bool,
}
use cfwarp_cli.Settings.Load.{
  Overrides, not_found, loaded, load, load_file, settings_file, finish, apply_overrides, apply_env,
  apply_blocks, apply_names, env_names, legacy_access_touched, sync_primary_access_from_legacy,
  primary_from_legacy,
}
use cfwarp_cli.Settings.Load.Layers.{ShowsFlags, load-Accepted}
use cfwarp_cli.Settings.Validate.Spec.{IsValid}
use cfwarp_cli.Settings.Validate.Valid.{validate_iff}

-- Settings with a block of each kind of options.
abbrev full_settings : Settings
full_settings = record default_settings {
  mode = "http";
  proxy_username = "user";
  proxy_password = "secret";
  endpoint_override = "1.2.3.4:2408";
  caps = some (record {
    interval_seconds = pos 0;
    checks =
        record {
          probe = " Gemini";
          required = true;
          rotate_on_fail = true;
          timeout_seconds = pos 0;
        }
        ∷ [];
  });
  dns = some (record {
    mode = "https";
    server = "1.1.1.1";
    server_port = pos 0;
    path = "";
    strategy = "";
  });
}

-- The code that computes when the tests run it.
settings_code : Unit {0}
unfolding to_lower trim_space tidy split_host_port cut_last has_byte host_part atoi digits_value
    natural split_commas default_settings derive_backend_tag infer_runtime_selection default_string
    default_int normalize sync_primary sync_with normalize_options select_names retag_backend
    resolve_mode infer_selection lower_names legacy_access choose_mode settle_mode normalize_access
    normalize_caps normalize_check normalize_dns normalize_rotation validate validate_normal
    validate_override validate_endpoint validate_split validate_port validate_access
    validate_listener validate_runtime validate_caps validate_checks validate_dns validate_rotation
settings_code = tt

full_settings-trimmed : trim_space (normalize full_settings).mode ≡ (normalize full_settings).mode
unfolding settings_code
full_settings-trimmed = refl

validate_iff_example : (validate full_settings ≡ none) ↔ IsValid (normalize full_settings)
validate_iff_example = validate_iff full_settings

-- Flags and variables.
abbrev flags : Overrides
flags = record {
  backend = some "native-masque";
  runtime_family = none;
  transport = none;
  proxy_mode = none;
  mode = some "HTTP";
  listen_host = none;
  listen_port = some (pos 8080);
  proxy_username = none;
  proxy_password = none;
  endpoint_override = none;
  log_level = some "Debug";
  settings_file = none;
}

abbrev variables : String → String
variables name =
    if name == "CFWARP_LISTEN_PORT"
    then "9090"
    else if name == "CFWARP_CAPS_CHECKS"
    then "gemini, netflix"
    else ""

abbrev under_flags : Settings
under_flags = normalize (apply_overrides flags (apply_env variables default_settings))

under_flags-loaded : load not_found (λ path. not_found) variables flags ≡ loaded under_flags
unfolding settings_code load load_file settings_file finish apply_overrides apply_env apply_blocks
    apply_names env_names legacy_access_touched sync_primary_access_from_legacy primary_from_legacy
    apply_masque_env apply_caps_env apply_dns_env apply_rotation_env apply_daemon_env env_checks
    is_zero_masque_options parse_bool zero_dns
under_flags-loaded = refl

load-Accepted_example : ShowsFlags flags under_flags × IsValid (normalize under_flags)
load-Accepted_example =
    load-Accepted not_found (λ path. not_found) variables flags under_flags under_flags-loaded

default_supported :
    derive_backend_tag
      (to_lower default_settings.runtime_family)
      (to_lower default_settings.transport)
    ≢ ""
unfolding settings_code
default_supported e = ground (arith, eq_iff "singbox-wireguard" "", e)

abbrev two_listeners : List AccessConfig
two_listeners =
    record {
      type = "socks5";
      listen_host = "0.0.0.0";
      listen_port = pos 1080;
      username = "";
      password = "";
      name = "";
      mtu = pos 0;
    }
    ∷ record {
      type = "http";
      listen_host = "0.0.0.0";
      listen_port = pos 8080;
      username = "user";
      password = "secret";
      name = "";
      mtu = pos 0;
    }
    ∷ []
