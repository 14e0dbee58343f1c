-- ===== src/Masque/DialTests.antt =====
-- Runs of the dial of internal/transport/masque/transport.go.
use cfwarp_cli.Prelude.{
  ◌≡◌, ◌≢◌, refl, ℕ, String, Option, none, some, [], ◌∷◌, pos, nat_eq, true, false, ◌==◌, arith,
  if◌then◌else◌,
}
use cfwarp_cli.Masque.Tunnel.{MasqueConfig}
use cfwarp_cli.Masque.Endpoint.{Resolver, resolve_endpoint, endpoint_host}
use cfwarp_cli.Masque.Connect.{
  Attempt, given, failed, ecdsa, other_key, Crypto, Network, socket, opens, closes, gave_error,
  parse_private_key, parse_endpoint_public_key, generate_self_signed_cert, prepare_tls_config,
  connect_tunnel, after,
}
use cfwarp_cli.Prelude.Net.{split_host_port}
use cfwarp_cli.Masque.Dial.{Clock, dial, decimal}
use cfwarp_cli.Masque.Tidy.{IsTidy, dial-IsTidy}
use cfwarp_cli.Masque.Pinned.{Verifies, Gives, IsPinned, dial-IsPinned}

-- The certificate "leaf" has key 1, and so has the PEM block.
abbrev keys : Crypto ℕ ℕ
keys = record {
  decode_base64 = λ s. if s == "" then failed "no text" else given s;
  parse_ec_private_key = λ s. given 9;
  decode_pem = λ s. if s == "" then none else some s;
  parse_pkix_public_key = λ s. if s == "rsa" then given other_key else given (ecdsa 1);
  create_certificate = λ p. given "mine";
  parse_certificate = λ s. if s == "leaf" then given (ecdsa 1) else given (ecdsa 2);
  same_key = nat_eq;
  unsupported_algorithm = "unsupported";
  next_proto_h3 = "h3";
}

abbrev handshake : Option String → Attempt ℕ
handshake none = given 5
handshake (some e) = failed e

-- A peer that shows `leaf`, and that answers CONNECT-IP with a status.
abbrev peer_with : String → ℕ → Network ℕ ℕ ℕ ℕ
peer_with leaf status = record {
  is_nil = λ i. false;
  is_ipv4 = λ i. nat_eq i 1;
  addr_text = λ a. "192.0.2.1:500";
  listen_udp = λ v6. none;
  quic_dial = λ endpoint tls quic. handshake (tls.verify_peer_certificate (leaf ∷ []));
  presented = λ q. leaf ∷ [];
  valid_template = λ uri. true;
  connect_ip = λ q uri. given (7, record { status_code = status; status = "status" });
}

handshake_checks :
    (leaf : String) (r : Option String) (q : ℕ)
    → handshake r ≡ given q
    → (leaf ∷ [] ≢ []) × (r ≡ none)
handshake_checks leaf none q h = ((λ e. ground (arith, e)), refl)
handshake_checks leaf (some e) q h = ground arith

peer_with-Verifies : (leaf : String) (status : ℕ) → Verifies (peer_with leaf status)
peer_with-Verifies leaf status endpoint tls quic q h =
    handshake_checks leaf (tls.verify_peer_certificate (leaf ∷ [])) q h

abbrev one_address : Resolver ℕ
one_address = record {
  parse_ip = λ s. some 1;
  resolve_ip = λ s. none;
  lookup_port = λ s. some (pos 500);
}

abbrev clock : Clock
clock = record {
  now = 7;
  socket_bind = 1000000;
  quic_dial = 2500000;
  connect_ip_dial = 0;
  total = 123000000;
}

abbrev config : MasqueConfig
config = record {
  private_key_der_base64 = "key";
  endpoint_pub_key_pem = "pem";
  endpoint_v4 = "192.0.2.1:500";
  endpoint_v6 = "";
  connect_uri = "https://cloudflareaccess.com";
  sni = "consumer-masque.cloudflareclient.com";
  connect_port = pos 443;
  use_ipv6 = false;
  initial_packet_size = 1242;
  keep_alive_period = pos 30000000000;
  reconnect_delay = pos 1000000000;
}

printed : decimal 19 123 ≡ "123"
unfolding decimal
printed = refl

dial-IsTidy_example :
    IsTidy [] (dial keys (peer_with "leaf" 403) one_address (λ host. host) clock config "").trace
dial-IsTidy_example =
    dial-IsTidy keys (peer_with "leaf" 403) one_address (λ host. host) clock config ""

dial-IsPinned_example :
    Gives
      (IsPinned keys (peer_with "leaf" 200) config)
      (dial keys (peer_with "leaf" 200) one_address (λ host. host) clock config "").trace.ended
dial-IsPinned_example =
    dial-IsPinned keys (peer_with "leaf" 200) one_address (λ host. host) clock config
      (peer_with-Verifies "leaf" 200) ""

-- A peer with another key, and one that refuses CONNECT-IP.
wrong_key :
    (dial keys (peer_with "other" 200) one_address (λ host. host) clock config "").trace ≡ record {
      ended = gave_error "remote endpoint public key mismatch";
      ops = opens socket ∷ closes socket ∷ [];
    }
unfolding dial parse_private_key parse_endpoint_public_key generate_self_signed_cert
    prepare_tls_config connect_tunnel after resolve_endpoint endpoint_host split_host_port
wrong_key = refl
