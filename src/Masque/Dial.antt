-- ===== src/Masque/Dial.antt =====
-- `dial` of internal/transport/masque/transport.go: from the keys of the configuration to a session.
-- The four durations of a dial and the resolver's error are arguments; a duration is a count of
-- nanoseconds on a clock that never goes back.
use Prim.Native.Nat.{◌/◌}
use Prim.Native.String.{◌++◌, slice}
use cfwarp_cli.Prelude.{ℕ, zero, suc, ◌+◌, ◌%◌, String, List, [], ◌∷◌, ltb, true, if◌then◌else◌}
use cfwarp_cli.State.Account.{Time}
use cfwarp_cli.Masque.Tunnel.{MasqueConfig, Event}
use cfwarp_cli.Masque.Endpoint.{
  EndpointConfig, Resolver, UdpAddr, Resolution, no_endpoint, unresolved, resolved,
  resolve_endpoint, endpoint_selected,
}
use cfwarp_cli.Masque.Connect.{
  Attempt, given, failed, Crypto, TlsConfig, QuicConfig, Network, Ended, succeeded, gave_error,
  panicking, Trace, parse_private_key, parse_endpoint_public_key, generate_self_signed_cert,
  prepare_tls_config, endpoint_family, connect_tunnel,
}

pub record ConnectMetrics : Type 0 where
  pub socket_bind : ℕ
  pub quic_dial : ℕ
  pub connect_ip_dial : ℕ
  pub total : ℕ
  pub endpoint_family : String
  pub resolved_endpoint : String

-- `%d`, with fuel for the digits.
unfoldable pub decimal : ℕ → ℕ → String
decimal zero n = ""
decimal (suc k) n =
    let before = decimal k (n / 10) in
    let digit = slice "0123456789" (n % 10) (n % 10 + 1) in
    if ltb n 10 then digit else before ++ digit

-- `Milliseconds`, printed. A 64-bit duration has at most 19 digits.
abbrev milliseconds : ℕ → String
milliseconds d = decimal 19 (d / 1000000)

unfoldable pub dial_metrics_message : ConnectMetrics → String
dial_metrics_message metrics =
    "MASQUE dial endpoint="
    ++ (metrics.resolved_endpoint
        ++ (" family="
            ++ (metrics.endpoint_family
                ++ (" bind_ms="
                    ++ (milliseconds metrics.socket_bind
                        ++ (" quic_ms="
                            ++ (milliseconds metrics.quic_dial
                                ++ (" connect_ip_ms="
                                    ++ (milliseconds metrics.connect_ip_dial
                                        ++ (" total_ms=" ++ milliseconds metrics.total))))))))))

-- The fields of the configuration that `resolveEndpoint` reads, and those of `quic.Config`.
abbrev pub endpoint_config : MasqueConfig → EndpointConfig
endpoint_config cfg = record {
  endpoint_v4 = cfg.endpoint_v4;
  endpoint_v6 = cfg.endpoint_v6;
  connect_port = cfg.connect_port;
  use_ipv6 = cfg.use_ipv6;
}

abbrev pub quic_config : MasqueConfig → QuicConfig
quic_config cfg = record {
  enable_datagrams = true;
  initial_packet_size = cfg.initial_packet_size;
  keep_alive_period = cfg.keep_alive_period;
}

pub record Clock : Type 0 where
  pub now : Time
  pub socket_bind : ℕ
  pub quic_dial : ℕ
  pub connect_ip_dial : ℕ
  pub total : ℕ

-- What a dial opened and closed, how it ended, and the events that it emitted.
pub record Dial (B : Type 0) : Type 0 where
  pub trace : Trace B
  pub told : List Event

abbrev pub not_dialed : {B : Type 0} → String → Dial B
not_dialed e = record { trace = record { ended = gave_error e; ops = [] }; told = [] }

module _ {I P K Q B : Type 0} (crypto : Crypto P K) (net : Network I P Q B) (resolver : Resolver I)
    (resolve_error : String → String) (clock : Clock) (cfg : MasqueConfig) where
  abbrev metrics_of : UdpAddr I → ConnectMetrics
  metrics_of endpoint = record {
    socket_bind = clock.socket_bind;
    quic_dial = clock.quic_dial;
    connect_ip_dial = clock.connect_ip_dial;
    total = clock.total;
    endpoint_family = endpoint_family net endpoint;
    resolved_endpoint = net.addr_text endpoint;
  }

  abbrev told_metrics : ConnectMetrics → Ended B → List Event
  told_metrics metrics (succeeded b) =
      (record {
        at = clock.now;
        level = "info";
        type = "dial_metrics";
        message = dial_metrics_message metrics;
      })
      ∷ []
  told_metrics metrics (gave_error e) = []
  told_metrics metrics panicking = []

  abbrev pub to_endpoint : TlsConfig P → Resolution I → Dial B
  to_endpoint tls no_endpoint = not_dialed "MASQUE endpoint is required"
  to_endpoint tls (unresolved host) = not_dialed (resolve_error host)
  to_endpoint tls (resolved endpoint) =
      let trace = connect_tunnel net tls (quic_config cfg) cfg.connect_uri endpoint in
      record {
        trace = trace;
        told =
            endpoint_selected clock.now (endpoint_family net endpoint) (net.addr_text endpoint)
            ∷ told_metrics (metrics_of endpoint) trace.ended;
      }

  abbrev pub with_cert : String → P → K → Attempt (List String) → Dial B
  with_cert override priv peer (failed e) = not_dialed e
  with_cert override priv peer (given cert) =
      to_endpoint (prepare_tls_config crypto priv peer cert cfg.sni)
        (resolve_endpoint resolver (endpoint_config cfg) override)

  abbrev pub with_peer : String → P → Attempt K → Dial B
  with_peer override priv (failed e) = not_dialed e
  with_peer override priv (given peer) =
      with_cert override priv peer (generate_self_signed_cert crypto priv)

  abbrev pub with_key : String → Attempt P → Dial B
  with_key override (failed e) = not_dialed e
  with_key override (given priv) =
      with_peer override priv (parse_endpoint_public_key crypto cfg.endpoint_pub_key_pem)

  unfoldable pub dial : String → Dial B
  dial override = with_key override (parse_private_key crypto cfg.private_key_der_base64)
