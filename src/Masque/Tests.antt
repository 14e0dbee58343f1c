-- ===== src/Masque/Tests.antt =====
-- Runs of the dial, the tunnel and the choice of the endpoint of internal/transport/masque/transport.go.
use cfwarp_cli.Prelude.{◌≡◌, refl, [], ◌∷◌, some, false, ℕ, true, nat_eq, pos, arith, if◌then◌else◌}
use cfwarp_cli.Masque.{Dialed, connected, refused, dial_with_retry}
use cfwarp_cli.Masque.{opened}
use cfwarp_cli.Masque.Tunnel.{
  Tunnel, Dialing, read_error, read_bytes, written, no_stats, read_packet, write_packet, reconnect,
  close, panicked,
}
use cfwarp_cli.Prelude.{String, Option, none, ◌==◌}
use cfwarp_cli.Masque.Endpoint.{
  EndpointConfig, Resolver, resolve_endpoint, resolved, unresolved, no_endpoint,
}
use cfwarp_cli.Masque.Sound.{
  IsSound, Growing, Returning, sessions, read_packet-IsSound, close-panics,
}
use cfwarp_cli.Masque.Backoff.{IsShort, IsPaced, dial_with_retry-IsPaced}

abbrev third_time : ℕ → Dialed ℕ
third_time attempt = if nat_eq attempt 3 then connected 7 else refused

second-IsShort : IsShort (pos 1000000000)
second-IsShort = omega arith

dial_with_retry-IsPaced_example :
    IsPaced 4 (dial_with_retry (pos 1000000000) third_time (λ attempt. true) (pos 5))
dial_with_retry-IsPaced_example =
    dial_with_retry-IsPaced (pos 1000000000) third_time (λ attempt. true) (pos 5) second-IsShort

abbrev tunnel : Tunnel ℕ
tunnel = record {
  bundle = some 1;
  closed_sessions = [];
  stats = no_stats;
  events = [];
  events_closed = false;
  pending_reads = [];
}

-- A dial that gives session 2.
abbrev dialing : Dialing ℕ
dialing = record {
  outcome = opened 2;
  told =
      record { at = 5; level = "info"; type = "endpoint_selected"; message = "MASQUE endpoint" }
      ∷ [];
}

tunnel-IsSound : IsSound tunnel
tunnel-IsSound = record {
  session = 1;
  current = refl;
  is_open = refl;
  events_fit = omega arith;
  pending_fit = omega arith;
}

read_packet-IsSound_example :
    Returning
      (Growing dialing tunnel)
      (read_packet 1500 7 (read_error "closed") dialing (read_bytes 40) tunnel)
read_packet-IsSound_example =
    read_packet-IsSound 1500 7 (read_error "closed") dialing (read_bytes 40) tunnel tunnel-IsSound

close-panics_example :
    Returning
      (λ u.
        (u.closed_sessions ≡ sessions tunnel)
        × (reconnect 7 "closed" dialing u ≡ panicked)
        × (write_packet "packet" 7 (written "") dialing (written "") u ≡ panicked)
        × (close u ≡ panicked))
      (close tunnel)
close-panics_example =
    close-panics 7 "closed" "packet" (written "") dialing (written "") tunnel refl

-- A net that knows one address, one name and one port.
abbrev known : Resolver ℕ
known = record {
  parse_ip = λ s. if s == "192.0.2.1" then some 1 else none;
  resolve_ip = λ s. if s == "masque" then some 2 else none;
  lookup_port = λ s. if s == "500" then some (pos 500) else none;
}

abbrev two_families : EndpointConfig
two_families = record {
  endpoint_v4 = "192.0.2.1:500";
  endpoint_v6 = "[masque]:501";
  connect_port = pos 443;
  use_ipv6 = false;
}

its_own_port : resolve_endpoint known two_families "" ≡ resolved record { ip = 1; port = pos 500 }
unfolding resolve_endpoint cfwarp_cli.Prelude.Net.split_host_port
its_own_port = refl

the_configured_port :
    resolve_endpoint known (record two_families { use_ipv6 = true }) ""
    ≡ resolved record { ip = 2; port = pos 443 }
unfolding resolve_endpoint cfwarp_cli.Prelude.Net.split_host_port
the_configured_port = refl

unknown_host : resolve_endpoint known two_families "elsewhere" ≡ unresolved "elsewhere"
unfolding resolve_endpoint cfwarp_cli.Prelude.Net.split_host_port
unknown_host = refl

no_text : resolve_endpoint known (record two_families { endpoint_v4 = "" }) "" ≡ no_endpoint
unfolding resolve_endpoint cfwarp_cli.Prelude.Net.split_host_port
no_text = refl
