-- ===== src/RunNative.antt =====
-- cmd/native_runtime.go: the tracker, which keeps the runtime state of the native backend and writes
-- it to runtime.json after every change. A change comes with whether the write goes through; a write
-- that fails is only logged. `probe` is `health.ProbeLocal`.
pub mod Fields
pub mod Config
pub mod Told
pub mod Stored
pub mod Announced
pub mod Usable
mod Tests
use cfwarp_cli.Prelude.{
  ◌≡◌, Bool, true, false, not, ◌||◌, String, ◌==◌, Option, none, some, List, [], ◌∷◌, ℤ, pos,
  if◌then◌else◌,
}
use cfwarp_cli.State.Account.{Time}
use cfwarp_cli.State.Settings.{Settings}
use cfwarp_cli.State.Runtime as Runtime
use cfwarp_cli.State.Runtime.{
  RuntimeState, RuntimeStateJson, RuntimeDiagnostics, RuntimeEventSnapshot, TransportStatsSnapshot,
  PacketPathStats, runtime_phase_idle, runtime_phase_connecting, runtime_phase_connected,
  runtime_phase_degraded,
}
use cfwarp_cli.State.Store.{
  Content, Loading, found, missing, unreadable, load_runtime, save_runtime,
}
use cfwarp_cli.Orchestrator.{mark_transport_error, mark_stopped}
use cfwarp_cli.Masque.Tunnel.{Event}
use cfwarp_cli.RunNative.Fields.{parse_event_field}

-- `engine.Snapshot` with the stack's counters beside it, each in the form in which it is kept.
pub record Snapshot : Type 0 where
  pub transport_stats : TransportStatsSnapshot
  pub stack_to_tunnel : PacketPathStats
  pub tunnel_to_stack : PacketPathStats
  pub netstack : PacketPathStats
  pub recent_event : Option Event

-- `runtimeTracker`, with the file that it writes.
pub record RuntimeTracker : Type 0 where
  pub rt : RuntimeState
  pub file : Content RuntimeStateJson

-- The zero value of the struct.
abbrev pub zero_runtime : RuntimeState
zero_runtime = record {
  schema_version = pos 0;
  pid = pos 0;
  backend = "";
  runtime_family = "";
  transport = "";
  mode = "";
  phase = "";
  listen_host = "";
  listen_port = pos 0;
  selected_endpoint = "";
  selected_address_fam = "";
  service_socket_path = "";
  config_path = "";
  stdout_log_path = "";
  stderr_log_path = "";
  started_at = 0;
  last_reconnect_at = 0;
  last_reconnect_reason = "";
  last_transport_error = "";
  last_error = "";
  local_reachable = false;
  last_trace_summary = "";
  diagnostics = none;
}

abbrev pub loaded_or_zero : Loading RuntimeState → RuntimeState
loaded_or_zero (found rt) = rt
loaded_or_zero missing = zero_runtime
loaded_or_zero unreadable = zero_runtime

-- `connecting` for a phase that says nothing.
abbrev pub begun : String → String
begun phase = if phase == "" || phase == runtime_phase_idle then runtime_phase_connecting else phase

unfoldable pub new_runtime_tracker : Settings → Content RuntimeStateJson → RuntimeTracker
new_runtime_tracker sett file =
    let rt = Runtime.normalize (loaded_or_zero (load_runtime file)) in
    record {
      rt = record rt {
        backend = sett.backend;
        runtime_family = sett.runtime_family;
        transport = sett.transport;
        mode = sett.mode;
        listen_host = sett.listen_host;
        listen_port = sett.listen_port;
        phase = begun rt.phase;
      };
      file = file;
    }

unfoldable pub update : Bool → (RuntimeState → RuntimeState) → RuntimeTracker → RuntimeTracker
update writes fn t =
    let rt = Runtime.normalize (fn t.rt) in
    record { rt = rt; file = (save_runtime writes rt t.file).1 }

abbrev no_path : PacketPathStats
no_path = record {
  packets = 0;
  bytes = 0;
  read_calls = 0;
  read_nanos = 0;
  write_calls = 0;
  write_nanos = 0;
  last_packet_at = 0;
}

-- The diagnostics, or those of the zero value.
abbrev pub diagnostics_of : Option RuntimeDiagnostics → RuntimeDiagnostics
diagnostics_of (some d) = d
diagnostics_of none = record {
  captured_at = 0;
  last_event = none;
  transport = record {
    packets_read = 0;
    packets_written = 0;
    bytes_read = 0;
    bytes_written = 0;
    last_activity_at = 0;
  };
  stack_to_tunnel = no_path;
  tunnel_to_stack = no_path;
  netstack = no_path;
}

abbrev pub event_snapshot : Event → RuntimeEventSnapshot
event_snapshot ev = record { at = ev.at; level = ev.level; type = ev.type; message = ev.message }

unfoldable pub note_event : Event → RuntimeState → RuntimeState
note_event ev rt = record rt {
  diagnostics =
      some (record (diagnostics_of rt.diagnostics) { last_event = some (event_snapshot ev) });
}

-- The switch on the event's type.
unfoldable pub follow_event : Event → RuntimeState → RuntimeState
follow_event ev rt =
    if ev.type == "endpoint_selected"
    then record rt {
      selected_address_fam = parse_event_field ev.message "family";
      selected_endpoint = parse_event_field ev.message "addr";
    }
    else if ev.type == "retry" || ev.type == "reconnect"
    then mark_transport_error ev.message ev.at rt
    else if ev.type == "connected" || ev.type == "reconnected"
    then record rt {
      last_transport_error = "";
      phase = if rt.local_reachable then runtime_phase_connected else runtime_phase_connecting;
    }
    else rt

-- The phase that a snapshot leaves.
unfoldable pub snapshot_phase : Bool → RuntimeState → String
snapshot_phase reachable rt =
    if not (rt.last_transport_error == "")
    then runtime_phase_degraded
    else if reachable
    then runtime_phase_connected
    else begun rt.phase

abbrev pub last_event_of : Option Event → Option RuntimeEventSnapshot → Option RuntimeEventSnapshot
last_event_of none earlier = earlier
last_event_of (some ev) earlier = some (event_snapshot ev)

unfoldable pub take_snapshot : Bool → Time → Snapshot → RuntimeState → RuntimeState
take_snapshot reachable now snap rt =
    let d = diagnostics_of rt.diagnostics in
    record rt {
      local_reachable = reachable;
      phase = snapshot_phase reachable rt;
      diagnostics = some (record {
        captured_at = now;
        transport = snap.transport_stats;
        stack_to_tunnel = snap.stack_to_tunnel;
        tunnel_to_stack = snap.tunnel_to_stack;
        netstack = snap.netstack;
        last_event = last_event_of snap.recent_event d.last_event;
      });
    }

module _ (writes : Bool) where
  unfoldable pub set_service_socket : String → RuntimeTracker → RuntimeTracker
  set_service_socket path = update writes (λ rt. record rt { service_socket_path = path })

  unfoldable pub record_event : Event → RuntimeTracker → RuntimeTracker
  record_event ev = update writes (λ rt. follow_event ev (note_event ev rt))

  unfoldable pub persist_snapshot :
      (String → ℤ → Bool) → Time → Snapshot → RuntimeTracker → RuntimeTracker
  persist_snapshot probe now snap =
      update writes (λ rt. take_snapshot (probe rt.listen_host rt.listen_port) now snap rt)

  -- The reason is the text of the error that ended the runtime.
  unfoldable pub stop : String → RuntimeTracker → RuntimeTracker
  stop reason = update writes (mark_stopped reason)

-- What the runtime does with its tracker after the first snapshot, in any order: the goroutines that
-- wait for events and for the ticker go on while the runtime ends.
pub data Change : Type 0 where
  socket_set : String → Change
  told : Event → Change
  snapped : (String → ℤ → Bool) → Time → Snapshot → Change
  stopped : String → Change

unfoldable pub perform : Bool → Change → RuntimeTracker → RuntimeTracker
unfolding set_service_socket record_event persist_snapshot stop
perform writes (socket_set path) t = set_service_socket writes path t
perform writes (told ev) t = record_event writes ev t
perform writes (snapped probe now snap) t = persist_snapshot writes probe now snap t
perform writes (stopped reason) t = stop writes reason t

-- The states that the tracker comes to.
pub data Reach (sett : Settings) : RuntimeTracker → Type 0 where
  begins :
      (file : Content RuntimeStateJson) (writes : Bool) (probe : String → ℤ → Bool) (now : Time)
      (snap : Snapshot)
      → Reach sett (persist_snapshot writes probe now snap (new_runtime_tracker sett file))
  changes :
      (t : RuntimeTracker) (writes : Bool) (c : Change)
      → Reach sett t
      → Reach sett (perform writes c t)
