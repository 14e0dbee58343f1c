-- ===== src/RunNative/Tests.antt =====
-- Runs of the tracker and of the tunnel's configuration.
use cfwarp_cli.Prelude.{◌≡◌, refl, Bool, true, false, none, some, String, ℤ, pos, arith}
use cfwarp_cli.Prelude.Text.{is_space, space_code}
use cfwarp_cli.Prelude.{to_lower}
use cfwarp_cli.State.Account.{MasqueState}
use cfwarp_cli.State.Settings.{Settings, MasqueOptions, default_settings}
use cfwarp_cli.State.Runtime as Runtime
use cfwarp_cli.State.Runtime.{
  TransportStatsSnapshot, PacketPathStats, lower_runtime, fill_runtime, settle_phase,
}
use cfwarp_cli.State.Store.{absent, load_runtime, read_json}
use cfwarp_cli.Orchestrator.{mark_transport_error, mark_stopped}
use cfwarp_cli.Masque.Tunnel.{Event}
use cfwarp_cli.Masque.Endpoint.{endpoint_selected}
use cfwarp_cli.RunNative.{
  Snapshot, RuntimeTracker, told, snapped, stopped, new_runtime_tracker, update, follow_event,
  note_event, take_snapshot, snapshot_phase, persist_snapshot, record_event, stop, perform, Reach,
  begins, changes,
}
use cfwarp_cli.RunNative.Config.{
  NetIp, refused, no_tunnel_addresses, build_masque_start_config, local_prefixes, given_prefix,
}
use cfwarp_cli.RunNative.Told.{IsTold, Reach-IsTold}
use cfwarp_cli.RunNative.Stored.{Writes, perform-Writes}
use cfwarp_cli.RunNative.Announced.{NoSpaces, record_event-endpoint_selected}
use cfwarp_cli.RunNative.Usable.{IsModerate, Outcome, build_masque_start_config-Outcome}

abbrev no_path : PacketPathStats
no_path = record {
  packets = 0;
  bytes = 0;
  read_calls = 0;
  read_nanos = 0;
  write_calls = 0;
  write_nanos = 0;
  last_packet_at = 0;
}

abbrev quiet : Snapshot
quiet = record {
  transport_stats = record {
    packets_read = 0;
    packets_written = 0;
    bytes_read = 0;
    bytes_written = 0;
    last_activity_at = 0;
  };
  stack_to_tunnel = no_path;
  tunnel_to_stack = no_path;
  netstack = no_path;
  recent_event = none;
}

abbrev retry : Event
retry = record { at = 9; level = "warn"; type = "retry"; message = "MASQUE retry" }

abbrev answers : Bool → String → ℤ → Bool
answers b host port = b

unfoldable at_first : RuntimeTracker
at_first =
    persist_snapshot true (answers true) 5 quiet (new_runtime_tracker default_settings absent)

reached : Reach default_settings at_first
unfolding at_first
reached = begins absent true (answers true) 5 quiet

-- The code that computes when the tests run it.
tracker_code : Unit {0}
unfolding at_first default_settings new_runtime_tracker load_runtime read_json Runtime.normalize
    lower_runtime fill_runtime settle_phase to_lower persist_snapshot update take_snapshot
    snapshot_phase perform record_event stop note_event follow_event mark_transport_error
    mark_stopped
tracker_code = tt

connected_at_first : at_first.rt.phase ≡ "connected"
unfolding tracker_code
connected_at_first = refl

-- A listener that no longer answers leaves the phase as it was.
listener_lost :
    ((perform true (snapped (answers false) 6 quiet) at_first).rt.phase ≡ "connected")
    × ((perform true (snapped (answers false) 6 quiet) at_first).rt.local_reachable ≡ false)
unfolding tracker_code
listener_lost = (refl, refl)

-- A snapshot that comes after the stop shows a backend that is connected.
stopped_before :
    (perform true
      (snapped (answers true) 8 quiet)
      (perform true (stopped "signal") at_first)).rt.phase
    ≡ "connected"
unfolding tracker_code
stopped_before = refl

degraded : (perform true (told retry) at_first).rt.phase ≡ "degraded"
unfolding tracker_code
degraded = refl

Reach-IsTold_example : IsTold (perform true (told retry) at_first).rt
Reach-IsTold_example =
    Reach-IsTold {sett = default_settings} (changes at_first true (told retry) reached)

perform-Writes_example : Writes true at_first (perform true (told retry) at_first)
perform-Writes_example = perform-Writes true (told retry) at_first

family_NoSpaces : NoSpaces "ipv4" × NoSpaces "[::1]:443"
unfolding is_space space_code
family_NoSpaces = (
  (refl, (refl, (refl, (refl, tt)))),
  (refl, (refl, (refl, (refl, (refl, (refl, (refl, (refl, (refl, tt))))))))),
)

record_event-endpoint_selected_example :
    ((record_event true (endpoint_selected 3 "ipv4" "[::1]:443") at_first).rt.selected_address_fam
      ≡ "ipv4")
    × ((record_event true (endpoint_selected 3 "ipv4" "[::1]:443") at_first).rt.selected_endpoint
        ≡ "[::1]:443")
record_event-endpoint_selected_example =
    record_event-endpoint_selected "ipv4" "[::1]:443" family_NoSpaces.0 family_NoSpaces.1 true 3
      at_first

abbrev masque : MasqueState
masque = record {
  private_key_der_base64 = "key";
  endpoint_pub_key_pem = "pem";
  endpoint_v4 = "162.159.198.1";
  endpoint_v6 = "";
  ipv4 = "172.16.0.2";
  ipv6 = "";
}

-- Parsers that read every text.
abbrev any_text : NetIp String String
any_text = record { parse_prefix = λ s. none; parse_addr = λ s. some s; prefix_from = λ a bits. a }

abbrev options : MasqueOptions
options = record {
  sni = "";
  connect_port = pos 0;
  use_ipv6 = false;
  mtu = pos 1280;
  initial_packet_size = 0;
  keep_alive_period_seconds = pos 30;
  reconnect_delay_millis = pos 500;
}

abbrev native_settings : Settings
unfolding default_settings
native_settings = record default_settings { masque_options = some options }

options-IsModerate : IsModerate options
options-IsModerate = omega arith

build_masque_start_config-Outcome_example :
    Outcome any_text masque (build_masque_start_config any_text masque native_settings)
unfolding native_settings
build_masque_start_config-Outcome_example =
    build_masque_start_config-Outcome any_text masque native_settings options-IsModerate

no_address :
    build_masque_start_config any_text (record masque { ipv4 = "" }) native_settings
    ≡ refused no_tunnel_addresses
unfolding build_masque_start_config local_prefixes given_prefix
no_address = refl
