-- ===== src/State/Settings/Normalize.antt =====
-- `Settings.Normalize` of internal/state/models.go, a function for each of its blocks.
use cfwarp_cli.Prelude.{
  not, ◌&&◌, ◌||◌, String, ◌==◌, List, [], ◌∷◌, map, pos, is_zero, if◌then◌else◌, to_lower, tidy,
}
use mathlib.Core.Option as Opt
use cfwarp_cli.State.Settings.{
  CapCheck, CapsOptions, DnsOptions, RotationOptions, AccessConfig, Settings, mode_socks5, mode_tun,
  current_settings_schema_version, infer_runtime_selection, derive_backend_tag, default_string,
  default_int,
}

-- The schema version, and the names that are compared in lower case.
unfoldable pub lower_names : Settings → Settings
lower_names s = record s {
  schema_version =
      if is_zero s.schema_version then current_settings_schema_version else s.schema_version;
  runtime_family = to_lower s.runtime_family;
  transport = to_lower s.transport;
  mode = to_lower s.mode;
  backend = to_lower s.backend;
  proxy_mode = to_lower s.proxy_mode;
  log_level = to_lower s.log_level;
}

-- An empty runtime family or transport is filled in from the backend tag.
unfoldable pub infer_selection : Settings → Settings
infer_selection s =
    if s.runtime_family == "" || s.transport == ""
    then record s {
      runtime_family =
          if s.runtime_family == ""
          then (infer_runtime_selection s.backend).0
          else s.runtime_family;
      transport = if s.transport == "" then (infer_runtime_selection s.backend).1 else s.transport;
    }
    else s

-- The mode that a mode and a legacy proxy mode agree on, "" if both are empty.
unfoldable pub settle_mode : String → String → String
settle_mode mode proxy_mode =
    let chosen = if mode == "" then proxy_mode else mode in
    if not (proxy_mode == "") && not (proxy_mode == chosen)
    then if chosen == mode_socks5 && not (proxy_mode == mode_socks5)
      then proxy_mode
      else if proxy_mode == mode_socks5 && not (chosen == mode_socks5)
      then chosen
      else proxy_mode
    else chosen

unfoldable pub choose_mode : String → String → String
choose_mode mode proxy_mode =
    let settled = settle_mode mode proxy_mode in if settled == "" then mode_socks5 else settled

unfoldable pub resolve_mode : Settings → Settings
resolve_mode s =
    let mode = choose_mode s.mode s.proxy_mode in record s { mode = mode; proxy_mode = mode }

-- The backend tag follows a supported selection.
unfoldable pub retag_backend : Settings → Settings
retag_backend s =
    let derived = derive_backend_tag s.runtime_family s.transport in
    if derived == "" then s else record s { backend = derived }

unfoldable pub normalize_check : CapCheck → CapCheck
normalize_check c = record c {
  probe = tidy c.probe;
  timeout_seconds = if is_zero c.timeout_seconds then pos 15 else c.timeout_seconds;
}

unfoldable pub normalize_caps : CapsOptions → CapsOptions
normalize_caps c = record {
  interval_seconds = if is_zero c.interval_seconds then pos 300 else c.interval_seconds;
  checks = map normalize_check c.checks;
}

unfoldable pub normalize_dns : DnsOptions → DnsOptions
normalize_dns d =
    let mode = tidy d.mode in
    let e = record d { mode = mode; strategy = tidy d.strategy } in
    if mode == "https"
    then record e {
      server_port = if is_zero d.server_port then pos 443 else d.server_port;
      path = if d.path == "" then "/dns-query" else d.path;
    }
    else if mode == "udp"
    then record e { server_port = if is_zero d.server_port then pos 53 else d.server_port }
    else e

unfoldable pub normalize_rotation : RotationOptions → RotationOptions
normalize_rotation r =
    let distinctness = tidy r.distinctness in
    if r.enabled
    then record r {
      max_attempts_per_incident =
          if is_zero r.max_attempts_per_incident then pos 3 else r.max_attempts_per_incident;
      settle_time_seconds = if is_zero r.settle_time_seconds then pos 12 else r.settle_time_seconds;
      distinctness = if distinctness == "" then "either" else distinctness;
      history_size = if is_zero r.history_size then pos 128 else r.history_size;
    }
    else record r { distinctness = distinctness }

unfoldable pub normalize_access : AccessConfig → AccessConfig
normalize_access a =
    let type = tidy a.type in
    record a {
      type = type;
      listen_host =
          if not (type == mode_tun) && a.listen_host == "" then "0.0.0.0" else a.listen_host;
    }

unfoldable pub normalize_options : Settings → Settings
normalize_options s = record s {
  caps = Opt.map normalize_caps s.caps;
  dns = Opt.map normalize_dns s.dns;
  rotation = Opt.map normalize_rotation s.rotation;
  access = map normalize_access s.access;
}

-- The single listener that the legacy fields describe, for settings that list none.
unfoldable pub legacy_access : Settings → AccessConfig
legacy_access s = record {
  type = s.mode;
  listen_host = default_string s.listen_host "0.0.0.0";
  listen_port = default_int s.listen_port (pos 1080);
  username = s.proxy_username;
  password = s.proxy_password;
  name = "";
  mtu = pos 0;
}

abbrev pub typed_primary : Settings → AccessConfig → AccessConfig
typed_primary s primary = record primary {
  type = if primary.type == "" then s.mode else primary.type;
}

-- The legacy fields follow the primary listener.
abbrev pub follow : Settings → AccessConfig → List AccessConfig → Settings
follow s primary rest = record s {
  access = primary ∷ rest;
  mode = primary.type;
  proxy_mode = primary.type;
  listen_host = primary.listen_host;
  listen_port = primary.listen_port;
  proxy_username = primary.username;
  proxy_password = primary.password;
}

-- `legacy_access` stands in for an empty list; an untyped primary listener takes the mode.
unfoldable pub sync_with : Settings → List AccessConfig → Settings
sync_with s [] = follow s (typed_primary s (legacy_access s)) []
sync_with s (a ∷ rest) = follow s (typed_primary s a) rest

unfoldable pub sync_primary : Settings → Settings
sync_primary s = sync_with s s.access

-- The blocks up to the options: which runtime is selected and under which names.
unfoldable pub select_names : Settings → Settings
select_names s = retag_backend (resolve_mode (infer_selection (lower_names s)))

unfoldable pub normalize : Settings → Settings
normalize s = sync_primary (normalize_options (select_names s))
