-- ===== src/Orchestrator.antt =====
-- internal/orchestrator/runtime.go: the runtime state of a backend that is started, and the phase it
-- is shown in. `socket` is the path of `ServiceSocketPath`; the runtime information is
-- `backend.RuntimeInfo` of internal/backend/backend.go.
pub mod Phases
mod Tests
use cfwarp_cli.Prelude.{
  Bool, true, false, not, ◌&&◌, ◌||◌, String, ◌==◌, Option, none, ℤ, pos, is_positive,
  if◌then◌else◌,
}
use cfwarp_cli.State.Account.{Time}
use cfwarp_cli.State.Settings.{Settings, runtime_family_native}
use cfwarp_cli.State.Settings.Normalize as Normalize
use cfwarp_cli.State.Runtime as Runtime
use cfwarp_cli.State.Runtime.{
  RuntimeState, current_runtime_schema_version, runtime_phase_idle, runtime_phase_connecting,
  runtime_phase_connected, runtime_phase_degraded, runtime_phase_stopped,
}

pub record RuntimeInfo : Type 0 where
  pub pid : ℤ
  pub config_path : String
  pub stdout_log_path : String
  pub stderr_log_path : String
  pub started_at : Time
  pub last_error : String

unfoldable pub build_runtime_state : String → Settings → RuntimeInfo → RuntimeState
build_runtime_state socket given info =
    let sett = Normalize.normalize given in
    record {
      schema_version = current_runtime_schema_version;
      pid = info.pid;
      backend = sett.backend;
      runtime_family = sett.runtime_family;
      transport = sett.transport;
      mode = sett.mode;
      phase =
          if sett.runtime_family == runtime_family_native
          then runtime_phase_connecting
          else if is_positive info.pid
          then runtime_phase_connected
          else runtime_phase_idle;
      listen_host = sett.listen_host;
      listen_port = sett.listen_port;
      selected_endpoint = "";
      selected_address_fam = "";
      service_socket_path = socket;
      config_path = info.config_path;
      stdout_log_path = info.stdout_log_path;
      stderr_log_path = info.stderr_log_path;
      started_at = info.started_at;
      last_reconnect_at = 0;
      last_reconnect_reason = "";
      last_transport_error = "";
      last_error = info.last_error;
      local_reachable = false;
      last_trace_summary = "";
      diagnostics = none;
    }

-- `exists` is whether the socket can be found, `alive` whether the process of a number runs.
unfoldable pub is_runtime_active : (String → Bool) → (ℤ → Bool) → RuntimeState → Bool
is_runtime_active exists alive given =
    let rt = Runtime.normalize given in
    if rt.runtime_family == runtime_family_native
    then if rt.service_socket_path == "" then false else exists rt.service_socket_path
    else alive rt.pid

unfoldable pub derive_phase : RuntimeState → Bool → Bool → String
derive_phase given running local_reachable =
    let rt = Runtime.normalize given in
    if not running
    then if not (rt.last_transport_error == "")
        || not (rt.last_error == "")
        || is_positive rt.pid
        || not (rt.service_socket_path == "")
      then runtime_phase_stopped
      else if not (rt.phase == "")
      then rt.phase
      else runtime_phase_idle
    else if not local_reachable
    then runtime_phase_degraded
    else runtime_phase_connected

unfoldable pub mark_transport_error : String → Time → RuntimeState → RuntimeState
mark_transport_error reason at rt = record rt {
  last_transport_error = reason;
  last_reconnect_reason = reason;
  last_reconnect_at = at;
  phase = runtime_phase_degraded;
}

unfoldable pub mark_stopped : String → RuntimeState → RuntimeState
mark_stopped reason rt = record rt {
  last_error = if reason == "" then rt.last_error else reason;
  phase = runtime_phase_stopped;
}
