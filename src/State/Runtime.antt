-- ===== src/State/Runtime.antt =====
-- internal/state/models.go: the running backend's state, kept in runtime.json.
pub mod Laws
mod Tests
use cfwarp_cli.Prelude.{
  ℕ, Bool, true, false, not, ◌&&◌, ◌||◌, String, ◌==◌, Option, none, some, ℤ, pos, is_zero,
  is_positive, if◌then◌else◌, to_lower,
}
use cfwarp_cli.State.Account.{Time}
use cfwarp_cli.State.Settings.{infer_runtime_selection, mode_socks5}

abbrev pub current_runtime_schema_version : ℤ
current_runtime_schema_version = pos 3

abbrev pub runtime_phase_idle : String
runtime_phase_idle = "idle"

abbrev pub runtime_phase_connecting : String
runtime_phase_connecting = "connecting"

abbrev pub runtime_phase_connected : String
runtime_phase_connected = "connected"

abbrev pub runtime_phase_degraded : String
runtime_phase_degraded = "degraded"

abbrev pub runtime_phase_stopped : String
runtime_phase_stopped = "stopped"

pub record PacketPathStats : Type 0 where
  pub packets : ℕ
  pub bytes : ℕ
  pub read_calls : ℕ
  pub read_nanos : ℕ
  pub write_calls : ℕ
  pub write_nanos : ℕ
  pub last_packet_at : Time

pub record TransportStatsSnapshot : Type 0 where
  pub packets_read : ℕ
  pub packets_written : ℕ
  pub bytes_read : ℕ
  pub bytes_written : ℕ
  pub last_activity_at : Time

pub record RuntimeEventSnapshot : Type 0 where
  pub at : Time
  pub level : String
  pub type : String
  pub message : String

pub record RuntimeDiagnostics : Type 0 where
  pub captured_at : Time
  pub last_event : Option RuntimeEventSnapshot
  pub transport : TransportStatsSnapshot
  pub stack_to_tunnel : PacketPathStats
  pub tunnel_to_stack : PacketPathStats
  pub netstack : PacketPathStats

pub record RuntimeState : Type 0 where
  pub schema_version : ℤ
  pub pid : ℤ
  pub backend : String
  pub runtime_family : String
  pub transport : String
  pub mode : String
  pub phase : String
  pub listen_host : String
  pub listen_port : ℤ
  pub selected_endpoint : String
  pub selected_address_fam : String
  pub service_socket_path : String
  pub config_path : String
  pub stdout_log_path : String
  pub stderr_log_path : String
  pub started_at : Time
  pub last_reconnect_at : Time
  pub last_reconnect_reason : String
  pub last_transport_error : String
  pub last_error : String
  pub local_reachable : Bool
  pub last_trace_summary : String
  pub diagnostics : Option RuntimeDiagnostics

pub record RuntimeStateJson : Type 0 where
  pub schema_version : ℤ
  pub pid : ℤ
  pub backend : String
  pub runtime_family : String
  pub transport : String
  pub mode : String
  pub phase : String
  pub listen_host : String
  pub listen_port : ℤ
  pub selected_endpoint : String
  pub selected_address_fam : String
  pub service_socket_path : String
  pub config_path : String
  pub stdout_log_path : String
  pub stderr_log_path : String
  pub started_at : Time
  pub last_reconnect_at : Time
  pub last_reconnect_reason : String
  pub last_transport_error : String
  pub last_error : String
  pub local_reachable : Bool
  pub last_trace_summary : String
  pub diagnostics : Option RuntimeDiagnostics

-- An empty runtime family or transport is filled in from the backend tag.
unfoldable pub fill_runtime : RuntimeState → RuntimeState
fill_runtime r =
    if r.runtime_family == "" || r.transport == ""
    then record r {
      runtime_family =
          if r.runtime_family == ""
          then (infer_runtime_selection r.backend).0
          else r.runtime_family;
      transport = if r.transport == "" then (infer_runtime_selection r.backend).1 else r.transport;
    }
    else r

-- The phase that stands for an empty one.
unfoldable pub initial_phase : RuntimeState → String
initial_phase r =
    if is_positive r.pid
    then runtime_phase_connected
    else if not (r.last_error == "") || not (r.last_transport_error == "")
    then runtime_phase_stopped
    else runtime_phase_idle

unfoldable pub lower_runtime : RuntimeState → RuntimeState
lower_runtime r = record r {
  schema_version =
      if is_zero r.schema_version then current_runtime_schema_version else r.schema_version;
  backend = to_lower r.backend;
  runtime_family = to_lower r.runtime_family;
  transport = to_lower r.transport;
  mode = to_lower r.mode;
  phase = to_lower r.phase;
}

unfoldable pub settle_phase : RuntimeState → RuntimeState
settle_phase r = record r {
  mode = if r.mode == "" then mode_socks5 else r.mode;
  phase = if r.phase == "" then initial_phase r else r.phase;
}

unfoldable pub normalize : RuntimeState → RuntimeState
normalize r = settle_phase (fill_runtime (lower_runtime r))

unfoldable pub marshal : RuntimeState → RuntimeStateJson
marshal given =
    let r = normalize given in
    record {
      schema_version = r.schema_version;
      pid = r.pid;
      backend = r.backend;
      runtime_family = r.runtime_family;
      transport = r.transport;
      mode = r.mode;
      phase = r.phase;
      listen_host = r.listen_host;
      listen_port = r.listen_port;
      selected_endpoint = r.selected_endpoint;
      selected_address_fam = r.selected_address_fam;
      service_socket_path = r.service_socket_path;
      config_path = r.config_path;
      stdout_log_path = r.stdout_log_path;
      stderr_log_path = r.stderr_log_path;
      started_at = r.started_at;
      last_reconnect_at = r.last_reconnect_at;
      last_reconnect_reason = r.last_reconnect_reason;
      last_transport_error = r.last_transport_error;
      last_error = r.last_error;
      local_reachable = r.local_reachable;
      last_trace_summary = r.last_trace_summary;
      diagnostics = r.diagnostics;
    }

unfoldable pub unmarshal : RuntimeStateJson → RuntimeState
unmarshal raw = normalize (record {
  schema_version = raw.schema_version;
  pid = raw.pid;
  backend = raw.backend;
  runtime_family = raw.runtime_family;
  transport = raw.transport;
  mode = raw.mode;
  phase = raw.phase;
  listen_host = raw.listen_host;
  listen_port = raw.listen_port;
  selected_endpoint = raw.selected_endpoint;
  selected_address_fam = raw.selected_address_fam;
  service_socket_path = raw.service_socket_path;
  config_path = raw.config_path;
  stdout_log_path = raw.stdout_log_path;
  stderr_log_path = raw.stderr_log_path;
  started_at = raw.started_at;
  last_reconnect_at = raw.last_reconnect_at;
  last_reconnect_reason = raw.last_reconnect_reason;
  last_transport_error = raw.last_transport_error;
  last_error = raw.last_error;
  local_reachable = raw.local_reachable;
  last_trace_summary = raw.last_trace_summary;
  diagnostics = raw.diagnostics;
})
