-- ===== src/Masque/Connect.antt =====
-- `dial` and `connectTunnel` of internal/transport/masque/transport.go, with the TLS configuration that
-- pins the endpoint's key. What crypto/x509, net, quic-go and connect-ip-go answer is an argument; what
-- is opened and closed stands as a list, in order.
use Prim.Native.String.{◌++◌}
use cfwarp_cli.Prelude.{
  ℕ, Bool, true, not, ◌||◌, ℤ, String, Option, none, some, List, [], ◌∷◌, nat_eq, if◌then◌else◌,
}
use cfwarp_cli.Masque.Endpoint.{UdpAddr}

pub data Attempt {ℓ} (A : Type ℓ) : Type ℓ where
  given : A → Attempt A
  failed : String → Attempt A

-- The key of a certificate, or of a PEM block: one of an ECDSA pair, or of another kind.
pub data PublicKey (K : Type 0) : Type 0 where
  ecdsa : K → PublicKey K
  other_key : PublicKey K

-- The private keys are `P`, the public ECDSA keys `K`; a certificate is its DER text.
pub record Crypto (P K : Type 0) : Type 0 where
  pub decode_base64 : String → Attempt String
  pub parse_ec_private_key : String → Attempt P
  -- The bytes of the first block.
  pub decode_pem : String → Option String
  pub parse_pkix_public_key : String → Attempt (PublicKey K)
  pub create_certificate : P → Attempt String
  -- The key of a certificate that parses.
  pub parse_certificate : String → Attempt (PublicKey K)
  pub same_key : K → K → Bool
  -- `x509.ErrUnsupportedAlgorithm` and `http3.NextProtoH3`.
  pub unsupported_algorithm : String
  pub next_proto_h3 : String

pub record TlsConfig (P : Type 0) : Type 0 where
  pub certificates : List (List String × P)
  pub server_name : String
  pub next_protos : List String
  pub insecure_skip_verify : Bool
  -- The error that it reports.
  pub verify_peer_certificate : List String → Option String

pub record QuicConfig : Type 0 where
  pub enable_datagrams : Bool
  pub initial_packet_size : ℕ
  pub keep_alive_period : ℤ

pub record Response : Type 0 where
  pub status_code : ℕ
  pub status : String

-- The addresses are `I`, the QUIC connections `Q`, the sessions `B`.
pub record Network (I P Q B : Type 0) : Type 0 where
  pub is_nil : I → Bool
  pub is_ipv4 : I → Bool
  pub addr_text : UdpAddr I → String
  -- The error of listening on the zero address, of IPv6 or of IPv4.
  pub listen_udp : Bool → Option String
  pub quic_dial : UdpAddr I → TlsConfig P → QuicConfig → Attempt Q
  -- The certificates that the peer of a connection showed.
  pub presented : Q → List String
  pub valid_template : String → Bool
  pub connect_ip : Q → String → Attempt (B × Response)

-- What connectTunnel opens: the UDP socket, the QUIC connection, the HTTP/3 transport and the session.
pub data Handle : Type 0 where
  socket connection h3 session : Handle

pub data Op : Type 0 where
  opens closes : Handle → Op

pub data Ended {ℓ} (A : Type ℓ) : Type ℓ where
  succeeded : A → Ended A
  gave_error : String → Ended A
  -- `uritemplate.MustNew` panics on a text that is no template.
  panicking : Ended A

pub record Trace {ℓ} (A : Type ℓ) : Type ℓ where
  pub ended : Ended A
  pub ops : List Op

unfoldable pub after {ℓ} : {A : Type ℓ} → Op → Trace A → Trace A
after op t = record t { ops = op ∷ t.ops }

-- `sessionBundle.Close` on the bundle of a dial, which does not have the QUIC connection.
abbrev pub close_bundle : List Op
close_bundle = closes session ∷ closes h3 ∷ closes socket ∷ []

module _ {P K : Type 0} (crypto : Crypto P K) where
  abbrev as_private_key : Attempt P → Attempt P
  as_private_key (given p) = given p
  as_private_key (failed e) = failed ("parse MASQUE private key: " ++ e)

  abbrev from_base64 : Attempt String → Attempt P
  from_base64 (given raw) = as_private_key (crypto.parse_ec_private_key raw)
  from_base64 (failed e) = failed ("decode MASQUE private key: " ++ e)

  unfoldable pub parse_private_key : String → Attempt P
  parse_private_key b64 = from_base64 (crypto.decode_base64 b64)

  abbrev as_ecdsa : Attempt (PublicKey K) → Attempt K
  as_ecdsa (given (ecdsa k)) = given k
  as_ecdsa (given other_key) = failed "endpoint public key is not ECDSA"
  as_ecdsa (failed e) = failed ("parse endpoint public key: " ++ e)

  abbrev from_pem : Option String → Attempt K
  from_pem (some bytes) = as_ecdsa (crypto.parse_pkix_public_key bytes)
  from_pem none = failed "decode endpoint public key PEM"

  unfoldable pub parse_endpoint_public_key : String → Attempt K
  parse_endpoint_public_key pem = from_pem (crypto.decode_pem pem)

  abbrev as_chain : Attempt String → Attempt (List String)
  as_chain (given der) = given (der ∷ [])
  as_chain (failed e) = failed ("generate self-signed cert: " ++ e)

  unfoldable pub generate_self_signed_cert : P → Attempt (List String)
  generate_self_signed_cert priv = as_chain (crypto.create_certificate priv)

  abbrev pub compare_leaf : K → Attempt (PublicKey K) → Option String
  compare_leaf peer (failed e) = some e
  compare_leaf peer (given other_key) = some crypto.unsupported_algorithm
  compare_leaf peer (given (ecdsa remote)) =
      if crypto.same_key remote peer then none else some "remote endpoint public key mismatch"

  abbrev pub verify_peer : K → List String → Option String
  verify_peer peer [] = none
  verify_peer peer (leaf ∷ rest) = compare_leaf peer (crypto.parse_certificate leaf)

  unfoldable pub prepare_tls_config : P → K → List String → String → TlsConfig P
  prepare_tls_config priv peer cert sni = record {
    certificates = (cert, priv) ∷ [];
    server_name = sni;
    next_protos = crypto.next_proto_h3 ∷ [];
    insecure_skip_verify = true;
    verify_peer_certificate = verify_peer peer;
  }

module _ {I P Q B : Type 0} (net : Network I P Q B) where
  -- `endpointFamily` of an endpoint that is there.
  unfoldable pub endpoint_family : UdpAddr I → String
  endpoint_family endpoint =
      if net.is_nil endpoint.ip
      then "unknown"
      else if net.is_ipv4 endpoint.ip
      then "ipv4"
      else "ipv6"

  abbrev pub answered : B → Response → Trace B
  answered b rsp =
      if nat_eq rsp.status_code 200
      then record { ended = succeeded b; ops = opens session ∷ [] }
      else record {
        ended = gave_error ("connect-ip handshake returned " ++ rsp.status);
        ops = opens session ∷ close_bundle;
      }

  abbrev pub over_ip : Attempt (B × Response) → Trace B
  over_ip (given (b, rsp)) = answered b rsp
  over_ip (failed e) = record {
    ended = gave_error ("dial connect-ip: " ++ e);
    ops = closes h3 ∷ closes socket ∷ [];
  }

  abbrev pub over_quic : String → Attempt Q → Trace B
  over_quic uri (failed e) = record { ended = gave_error e; ops = closes socket ∷ [] }
  over_quic uri (given q) = after (opens connection) (
      after (opens h3) (
        if net.valid_template uri
        then over_ip (net.connect_ip q uri)
        else record { ended = panicking; ops = [] }))

  abbrev pub bound : TlsConfig P → QuicConfig → String → UdpAddr I → Option String → Trace B
  bound tls quic uri endpoint (some e) = record { ended = gave_error e; ops = [] }
  bound tls quic uri endpoint none =
      after (opens socket) (over_quic uri (net.quic_dial endpoint tls quic))

  unfoldable pub connect_tunnel : TlsConfig P → QuicConfig → String → UdpAddr I → Trace B
  connect_tunnel tls quic uri endpoint =
      bound tls quic uri endpoint
        (net.listen_udp (net.is_nil endpoint.ip || not (net.is_ipv4 endpoint.ip)))
