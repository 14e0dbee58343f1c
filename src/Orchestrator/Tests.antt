-- ===== src/Orchestrator/Tests.antt =====
-- The phases at a concrete runtime.
use cfwarp_cli.Prelude.{◌≢◌, eq_iff, String, List, [], ◌∷◌, pos, arith}
use cfwarp_cli.State.Settings.{default_settings}
use cfwarp_cli.Orchestrator.{RuntimeInfo, build_runtime_state}
use cfwarp_cli.Orchestrator.Phases.{
  Mark, transport_error, ended, settled, marked, IsShown, derive_phase-build,
}

abbrev started : RuntimeInfo
started = record {
  pid = pos 4242;
  config_path = "/run/backend.json";
  stdout_log_path = "/run/out.log";
  stderr_log_path = "/run/err.log";
  started_at = 5;
  last_error = "";
}

abbrev service_socket : String
service_socket = "/run/service.sock"

service_socket-ne-nil : service_socket ≢ ""
service_socket-ne-nil e = ground (arith, eq_iff service_socket "", e)

abbrev marks : List Mark
marks = transport_error "timeout" 9 ∷ settled ∷ transport_error "reset" 11 ∷ ended "signal" ∷ []

derive_phase-build_example :
    IsShown (marked marks (build_runtime_state service_socket default_settings started))
derive_phase-build_example =
    derive_phase-build service_socket default_settings started marks service_socket-ne-nil
