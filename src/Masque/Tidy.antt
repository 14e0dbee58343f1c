-- ===== src/Masque/Tidy.antt =====
-- What a dial of internal/transport/masque/transport.go leaves open.
use cfwarp_cli.Prelude.{
  ◌≡◌, refl, ℕ, Bool, String, Option, none, some, List, [], ◌∷◌, ◌++◌, nat_eq, if◌then◌else◌,
  if_elim,
}
use cfwarp_cli.Masque.Tunnel.{MasqueConfig}
use cfwarp_cli.Masque.Endpoint.{
  Resolver, UdpAddr, Resolution, no_endpoint, unresolved, resolved, resolve_endpoint,
}
use cfwarp_cli.Masque.Connect.{
  Attempt, given, failed, Crypto, TlsConfig, QuicConfig, Response, Network, Handle, socket,
  connection, h3, session, Op, opens, closes, Ended, succeeded, gave_error, panicking, Trace, after,
  close_bundle, parse_private_key, parse_endpoint_public_key, generate_self_signed_cert, answered,
  over_ip, over_quic, bound, connect_tunnel,
}
use cfwarp_cli.Masque.Dial.{
  Clock, endpoint_config, to_endpoint, with_cert, with_peer, with_key, dial,
}

abbrev rank : Handle → ℕ
rank socket = 0
rank connection = 1
rank h3 = 2
rank session = 3

abbrev same_handle : Handle → Handle → Bool
same_handle x y = nat_eq (rank x) (rank y)

abbrev beside : Handle → Option (List Handle) → Option (List Handle)
beside y none = none
beside y (some live) = some (y ∷ live)

-- A handle may be closed only once, and only while nothing that was opened after it is open but the
-- QUIC connection.
abbrev pub release : Handle → List Handle → Option (List Handle)
release x [] = none
release x (y ∷ live) =
    let others = release x live in
    if same_handle x y
    then some live
    else if same_handle y connection
    then beside y others
    else none

abbrev released : List Op → Option (List Handle) → Option (List Handle)
released ops none = none
released [] (some live) = some live
released (opens x ∷ ops) (some live) = released ops (some (x ∷ live))
released (closes x ∷ ops) (some live) = released ops (release x live)

-- What is open after the operations.
abbrev pub held : List Op → List Handle → Option (List Handle)
held ops live = released ops (some live)

-- The QUIC connections that were opened, before and by the operations.
abbrev pub connections : List Op → List Handle → List Handle
connections [] [] = []
connections [] (y ∷ live) =
    let others = connections [] live in if same_handle y connection then y ∷ others else others
connections (opens x ∷ ops) live = connections ops (x ∷ live)
connections (closes x ∷ ops) live = connections ops live

-- After a success a session, its transport, its QUIC connection and its socket are open, and closing
-- the bundle closes all but the connection; after an error nothing is open but the connection, if
-- there was one; after a panic the transport, the connection and the socket are.
abbrev pub LeavesOpen {ℓ} : {B : Type ℓ} → List Handle → Ended B → List Op → Type 0
LeavesOpen live (succeeded b) ops =
    (held ops live ≡ some (session ∷ h3 ∷ connection ∷ socket ∷ []))
    × (held (ops ++ close_bundle) live ≡ some (connection ∷ []))
LeavesOpen live (gave_error e) ops = held ops live ≡ some (connections ops live)
LeavesOpen live panicking ops = held ops live ≡ some (h3 ∷ connection ∷ socket ∷ [])

abbrev pub IsTidy {ℓ} : {B : Type ℓ} → List Handle → Trace B → Type 0
IsTidy live trace = LeavesOpen live trace.ended trace.ops

module _ {I P Q B : Type 0} (net : Network I P Q B) where
  answered-IsTidy :
      (b : B) (rsp : Response) → IsTidy (h3 ∷ connection ∷ socket ∷ []) (answered net b rsp)
  answered-IsTidy b rsp =
      if_elim (IsTidy (h3 ∷ connection ∷ socket ∷ [])) (nat_eq rsp.status_code 200) (refl, refl)
        refl

  over_ip-IsTidy :
      (r : Attempt (B × Response)) → IsTidy (h3 ∷ connection ∷ socket ∷ []) (over_ip net r)
  over_ip-IsTidy (given (b, rsp)) = answered-IsTidy b rsp
  over_ip-IsTidy (failed e) = refl

  after-IsTidy :
      (x : Handle) (live : List Handle) (trace : Trace B)
      → IsTidy (x ∷ live) trace
      → IsTidy live (after (opens x) trace)
  unfolding after
  after-IsTidy x live trace h = by_end trace.ended trace.ops h
    where
      by_end :
          (end : Ended B) (ops : List Op)
          → LeavesOpen (x ∷ live) end ops
          → LeavesOpen live end (opens x ∷ ops)
      by_end (succeeded b) ops h = h
      by_end (gave_error e) ops h = h
      by_end panicking ops h = h

  over_quic-IsTidy : (uri : String) (r : Attempt Q) → IsTidy (socket ∷ []) (over_quic net uri r)
  over_quic-IsTidy uri (failed e) = refl
  over_quic-IsTidy uri (given q) = after-IsTidy connection (socket ∷ []) _ (
      after-IsTidy h3 (connection ∷ socket ∷ []) _ (
        if_elim (IsTidy (h3 ∷ connection ∷ socket ∷ [])) (net.valid_template uri)
          (over_ip-IsTidy (net.connect_ip q uri)) refl))

  connect_tunnel-IsTidy :
      (tls : TlsConfig P) (quic : QuicConfig) (uri : String) (endpoint : UdpAddr I)
      → IsTidy [] (connect_tunnel net tls quic uri endpoint)
  unfolding connect_tunnel
  connect_tunnel-IsTidy tls quic uri endpoint = by_bind (net.listen_udp _)
    where
      by_bind : (e : Option String) → IsTidy [] (bound net tls quic uri endpoint e)
      by_bind (some e) = refl
      by_bind none =
          after-IsTidy socket [] _ (over_quic-IsTidy uri (net.quic_dial endpoint tls quic))

module _ {I P K Q B : Type 0} (crypto : Crypto P K) (net : Network I P Q B) (resolver : Resolver I)
    (resolve_error : String → String) (clock : Clock) (cfg : MasqueConfig) where
  -- Whatever the keys, the addresses and the network answer: a dial that ends with an error has closed
  -- the session, the transport and the socket, if it opened them, the latest first, and leaves open only
  -- the QUIC connection, if it got one, whose socket is closed then; one that ends with a session has
  -- the session, its transport, its QUIC connection and its socket open, and closing the bundle closes
  -- them but for the connection, the latest first; one that panics leaves the transport, the connection
  -- and the socket open.
  pub dial-IsTidy :
      (override : String)
      → IsTidy [] (dial crypto net resolver resolve_error clock cfg override).trace
  unfolding dial
  dial-IsTidy override = by_key (parse_private_key crypto cfg.private_key_der_base64)
    where
      by_address :
          (tls : TlsConfig P) (r : Resolution I)
          → IsTidy [] (to_endpoint crypto net resolver resolve_error clock cfg tls r).trace
      by_address tls no_endpoint = refl
      by_address tls (unresolved host) = refl
      by_address tls (resolved endpoint) = connect_tunnel-IsTidy net tls _ cfg.connect_uri endpoint

      by_cert :
          (priv : P) (peer : K) (r : Attempt (List String))
          → IsTidy []
              (with_cert crypto net resolver resolve_error clock cfg override priv peer r).trace
      by_cert priv peer (failed e) = refl
      by_cert priv peer (given cert) =
          by_address _ (resolve_endpoint resolver (endpoint_config cfg) override)

      by_peer :
          (priv : P) (r : Attempt K)
          → IsTidy [] (with_peer crypto net resolver resolve_error clock cfg override priv r).trace
      by_peer priv (failed e) = refl
      by_peer priv (given peer) = by_cert priv peer (generate_self_signed_cert crypto priv)

      by_key :
          (r : Attempt P)
          → IsTidy [] (with_key crypto net resolver resolve_error clock cfg override r).trace
      by_key (failed e) = refl
      by_key (given priv) = by_peer priv (parse_endpoint_public_key crypto cfg.endpoint_pub_key_pem)
