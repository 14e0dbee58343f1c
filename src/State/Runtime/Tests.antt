-- ===== src/State/Runtime/Tests.antt =====
-- The runtime state's round trip at a concrete state.
use cfwarp_cli.Prelude.{false, none, pos}
use cfwarp_cli.State.Runtime.{RuntimeState}

-- A state of an older version: a process, and the backend's tag for the runtime.
abbrev old_state : RuntimeState
old_state = record {
  schema_version = pos 0;
  pid = pos 4242;
  backend = "Singbox-WireGuard";
  runtime_family = "";
  transport = "";
  mode = "";
  phase = "";
  listen_host = "0.0.0.0";
  listen_port = pos 1080;
  selected_endpoint = "";
  selected_address_fam = "";
  service_socket_path = "";
  config_path = "/run/backend.json";
  stdout_log_path = "";
  stderr_log_path = "";
  started_at = 5;
  last_reconnect_at = 0;
  last_reconnect_reason = "";
  last_transport_error = "";
  last_error = "";
  local_reachable = false;
  last_trace_summary = "";
  diagnostics = none;
}
