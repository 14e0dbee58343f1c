-- ===== src/Masque/Pinned.antt =====
-- Whose key a dial of internal/transport/masque/transport.go accepts.
use cfwarp_cli.Prelude.{
  ◌≡◌, ◌≢◌, refl, true, String, Option, none, some, List, [], ◌∷◌, nat_eq, if_elim, if_cases, arith,
}
use cfwarp_cli.Masque.Tunnel.{MasqueConfig}
use cfwarp_cli.Masque.Endpoint.{
  Resolver, UdpAddr, Resolution, no_endpoint, unresolved, resolved, resolve_endpoint,
}
use cfwarp_cli.Masque.Connect.{
  Attempt, given, failed, PublicKey, ecdsa, other_key, Crypto, TlsConfig, QuicConfig, Response,
  Network, Ended, succeeded, gave_error, panicking, Trace, after, parse_private_key,
  parse_endpoint_public_key, compare_leaf, verify_peer, generate_self_signed_cert,
  prepare_tls_config, over_ip, over_quic, bound, connect_tunnel,
}
use cfwarp_cli.Masque.Dial.{
  Clock, endpoint_config, to_endpoint, with_cert, with_peer, with_key, dial,
}

-- `quic.Dial` gives a connection only if the peer showed certificates and the configuration's check
-- of them reported no error.
abbrev pub Verifies : {I P Q B : Type 0} → Network I P Q B → Type 0
Verifies {I} {P} {Q} net =
    (endpoint : UdpAddr I) (tls : TlsConfig P) (quic : QuicConfig) (q : Q)
    → net.quic_dial endpoint tls quic ≡ given q
    → (net.presented q ≢ []) × (tls.verify_peer_certificate (net.presented q) ≡ none)

module _ {I P K Q B : Type 0} (crypto : Crypto P K) (net : Network I P Q B) where
  -- The first of the certificates has the ECDSA key `peer`.
  pub record Shows (peer : K) (chain : List String) : Type 0 where
    pub leaf : String
    pub rest : List String
    pub remote : K
    pub shown : chain ≡ leaf ∷ rest
    pub its_key : crypto.parse_certificate leaf ≡ given (ecdsa remote)
    pub same : crypto.same_key remote peer ≡ true

  leaf-Shows :
      (peer : K) (leaf : String) (rest : List String) (r : Attempt (PublicKey K))
      → crypto.parse_certificate leaf ≡ r
      → compare_leaf crypto peer r ≡ none
      → Shows peer (leaf ∷ rest)
  leaf-Shows peer leaf rest (failed e) p = λ h. ground arith
  leaf-Shows peer leaf rest (given other_key) p = λ h. ground arith
  leaf-Shows peer leaf rest (given (ecdsa remote)) p =
      if_cases (λ o. o ≡ none → Shows peer (leaf ∷ rest)) (crypto.same_key remote peer)
        (λ same h. record {
          leaf = leaf;
          rest = rest;
          remote = remote;
          shown = refl;
          its_key = p;
          same = same;
        })
        (λ e h. ground arith)

  verify_peer-Shows :
      (peer : K) (chain : List String)
      → chain ≢ []
      → verify_peer crypto peer chain ≡ none
      → Shows peer chain
  verify_peer-Shows peer [] there h = elim (there refl) [ ]
  verify_peer-Shows peer (leaf ∷ rest) there h =
      leaf-Shows peer leaf rest (crypto.parse_certificate leaf) refl h

  -- The session `b` runs over a connection whose peer showed the key that the configuration gives.
  pub record IsPinned (cfg : MasqueConfig) (b : B) : Type 0 where
    pub q : Q
    pub response : Response
    pub peer : K
    pub over : net.connect_ip q cfg.connect_uri ≡ given (b, response)
    pub accepted : response.status_code ≡ 200
    pub configured : parse_endpoint_public_key crypto cfg.endpoint_pub_key_pem ≡ given peer
    pub its_peer : Shows peer (net.presented q)

-- What holds of the session of a dial that ends with one.
abbrev pub Gives {ℓ κ} : {B : Type ℓ} → (B → Type κ) → Ended B → Type κ
Gives R (succeeded b) = R b
Gives R (gave_error e) = Unit
Gives R panicking = Unit

module _ {I P K Q B : Type 0} (crypto : Crypto P K) (net : Network I P Q B) (cfg : MasqueConfig)
    (peer : K)
    (configured : parse_endpoint_public_key crypto cfg.endpoint_pub_key_pem ≡ given peer) where
  over_ip-IsPinned :
      (q : Q) (r : Attempt (B × Response))
      → net.connect_ip q cfg.connect_uri ≡ r
      → Shows crypto net peer (net.presented q)
      → Gives (IsPinned crypto net cfg) (over_ip net r).ended
  over_ip-IsPinned q (failed e) over its_peer = tt
  over_ip-IsPinned q (given (b, rsp)) over its_peer =
      if_cases (λ (t : Trace B). Gives (IsPinned crypto net cfg) t.ended)
        (nat_eq rsp.status_code 200)
        (λ e. record {
          q = q;
          response = rsp;
          peer = peer;
          over = over;
          accepted = ground (arith, e);
          configured = configured;
          its_peer = its_peer;
        })
        (λ e. tt)

  over_quic-IsPinned :
      Verifies net
      → (priv : P) (cert : List String) (quic : QuicConfig) (endpoint : UdpAddr I) → (r : Attempt Q)
      → net.quic_dial endpoint (prepare_tls_config crypto priv peer cert cfg.sni) quic ≡ r
      → Gives (IsPinned crypto net cfg) (over_quic net cfg.connect_uri r).ended
  unfolding prepare_tls_config after
  over_quic-IsPinned verifies priv cert quic endpoint (failed e) dialed = tt
  over_quic-IsPinned verifies priv cert quic endpoint (given q) dialed =
      let checked =
        verifies endpoint (prepare_tls_config crypto priv peer cert cfg.sni) quic q dialed in
      if_elim (λ (t : Trace B). Gives (IsPinned crypto net cfg) t.ended)
        (net.valid_template cfg.connect_uri)
        (over_ip-IsPinned q (net.connect_ip q cfg.connect_uri) refl
          (verify_peer-Shows crypto net peer (net.presented q) checked.0 checked.1))
        tt

  connect_tunnel-IsPinned :
      Verifies net
      → (priv : P) (cert : List String) (quic : QuicConfig) (endpoint : UdpAddr I)
      → Gives
          (IsPinned crypto net cfg)
          (connect_tunnel net
            (prepare_tls_config crypto priv peer cert cfg.sni)
            quic
            cfg.connect_uri
            endpoint).ended
  unfolding connect_tunnel after
  connect_tunnel-IsPinned verifies priv cert quic endpoint = by_bind (net.listen_udp _)
    where
      by_bind :
          (e : Option String)
          → Gives
              (IsPinned crypto net cfg)
              (bound net
                (prepare_tls_config crypto priv peer cert cfg.sni)
                quic
                cfg.connect_uri
                endpoint
                e).ended
      by_bind (some e) = tt
      by_bind none =
          over_quic-IsPinned verifies priv cert quic endpoint (net.quic_dial endpoint _ quic) refl

module _ {I P K Q B : Type 0} (crypto : Crypto P K) (net : Network I P Q B) (resolver : Resolver I)
    (resolve_error : String → String) (clock : Clock) (cfg : MasqueConfig) where
  -- If QUIC dials succeed only on certificates that the configuration's check accepts, then the session
  -- that a dial gives runs over a connection whose peer showed, as the key of its first certificate, the
  -- ECDSA key of the configured PEM text, and was given with status 200.
  pub dial-IsPinned :
      Verifies net
      → (override : String)
      → Gives
          (IsPinned crypto net cfg)
          (dial crypto net resolver resolve_error clock cfg override).trace.ended
  unfolding dial
  dial-IsPinned verifies override = by_key (parse_private_key crypto cfg.private_key_der_base64)
    where
      by_address :
          (priv : P) (peer : K) (cert : List String) (r : Resolution I)
          → parse_endpoint_public_key crypto cfg.endpoint_pub_key_pem ≡ given peer
          → Gives
              (IsPinned crypto net cfg)
              (to_endpoint crypto net resolver resolve_error clock cfg
                (prepare_tls_config crypto priv peer cert cfg.sni)
                r).trace.ended
      by_address priv peer cert no_endpoint p = tt
      by_address priv peer cert (unresolved host) p = tt
      by_address priv peer cert (resolved endpoint) p =
          connect_tunnel-IsPinned crypto net cfg peer p verifies priv cert _ endpoint

      by_cert :
          (priv : P) (peer : K) (r : Attempt (List String))
          → parse_endpoint_public_key crypto cfg.endpoint_pub_key_pem ≡ given peer
          → Gives
              (IsPinned crypto net cfg)
              (with_cert crypto net resolver resolve_error clock cfg override priv peer
                r).trace.ended
      by_cert priv peer (failed e) p = tt
      by_cert priv peer (given cert) p =
          by_address priv peer cert (resolve_endpoint resolver (endpoint_config cfg) override) p

      by_peer :
          (priv : P) (r : Attempt K)
          → parse_endpoint_public_key crypto cfg.endpoint_pub_key_pem ≡ r
          → Gives
              (IsPinned crypto net cfg)
              (with_peer crypto net resolver resolve_error clock cfg override priv r).trace.ended
      by_peer priv (failed e) p = tt
      by_peer priv (given peer) p = by_cert priv peer (generate_self_signed_cert crypto priv) p

      by_key :
          (r : Attempt P)
          → Gives
              (IsPinned crypto net cfg)
              (with_key crypto net resolver resolve_error clock cfg override r).trace.ended
      by_key (failed e) = tt
      by_key (given priv) =
          by_peer priv (parse_endpoint_public_key crypto cfg.endpoint_pub_key_pem) refl
