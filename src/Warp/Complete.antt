-- ===== src/Warp/Complete.antt =====
-- What a registration result holds.
use mathlib.Core.Path.{subst}
use cfwarp_cli.Prelude.{
  ◌≡◌, ◌≢◌, refl, sym, ap, ◌∙◌, ◌⊎◌, inl, inr, true, false, String, ◌==◌, eq_iff, Option, none,
  some, List, [], ◌∷◌, ℤ, is_positive, arith, if_elim, if_cases,
}
use cfwarp_cli.Prelude.Net.{split_host_port, atoi}
use cfwarp_cli.Service.Host.{RegistrationResult}
use cfwarp_cli.Warp.{
  Peer, RegistrationResponse, ResponseError, lacks_peer_key, validate_response, first_positive_port,
  port_or, endpoint_of, normalize_peer_endpoint, first_endpoint, select_peer_endpoint, result_of,
  registered_with, register,
}

first_positive_port-positive : (ports : List ℤ) → is_positive (first_positive_port ports) ≡ true
unfolding first_positive_port
first_positive_port-positive [] = refl
first_positive_port-positive (port ∷ rest) =
    if_cases (λ p. is_positive p ≡ true) (is_positive port) (λ e. e)
      (λ _. first_positive_port-positive rest)

port_or-positive : (ports : List ℤ) (o : Option ℤ) → is_positive (port_or ports o) ≡ true
port_or-positive ports none = first_positive_port-positive ports
port_or-positive ports (some port) =
    if_cases (λ p. is_positive p ≡ true) (is_positive port) (λ e. e)
      (λ _. first_positive_port-positive ports)

abbrev value_or : {A : Type 0} → A → Option A → A
value_or a none = a
value_or a (some b) = b

nonempty : (s : String) → (s == "") ≡ false → s ≢ ""
nonempty s e h = ground (arith, eq_iff s "", e, h)

validate_response-none :
    (r : RegistrationResponse)
    → validate_response r ≡ none
    → ((r.id == "") ≡ false)
      × ((r.token == "") ≡ false)
      × (lacks_peer_key r.peers ≡ false)
      × ((r.v4 == "") ≡ false)
      × ((r.v6 == "") ≡ false)
unfolding validate_response
validate_response-none r v = ground (arith, v)

-- The fields that a registered device needs.
pub record IsComplete (r : RegistrationResult) : Type 0 where
  pub has_id : r.account_id ≢ ""
  pub has_token : r.token ≢ ""
  pub has_peer_key : r.peer_public_key ≢ ""
  pub has_ipv4 : r.ipv4 ≢ ""
  pub has_ipv6 : r.ipv6 ≢ ""

-- A host and a positive port, joined.
abbrev pub IsEndpoint : (String → String → String) → (ℤ → String) → String → Type 0
IsEndpoint join print_int e =
    (host : String) × (port : ℤ) × (is_positive port ≡ true) × (e ≡ join host (print_int port))

module _ (join : String → String → String) (print_int : ℤ → String) where
  endpoint_of-IsEndpoint :
      (raw : String) (ports : List ℤ) (o : Option (String × String))
      → IsEndpoint join print_int (endpoint_of join print_int raw ports o)
  endpoint_of-IsEndpoint raw ports none =
      (raw, first_positive_port ports, first_positive_port-positive ports, refl)
  endpoint_of-IsEndpoint raw ports (some (host, port)) =
      (host, port_or ports (atoi port), port_or-positive ports (atoi port), refl)

  normalize_peer_endpoint-IsEndpoint :
      (raw : String) (ports : List ℤ)
      → (normalize_peer_endpoint join print_int raw ports ≡ "")
        ⊎ IsEndpoint join print_int (normalize_peer_endpoint join print_int raw ports)
  unfolding normalize_peer_endpoint
  normalize_peer_endpoint-IsEndpoint raw ports =
      if_elim (λ e. (e ≡ "") ⊎ IsEndpoint join print_int e) (raw == "") (inl refl)
        (inr (endpoint_of-IsEndpoint raw ports (split_host_port raw)))

  first_endpoint-IsEndpoint :
      (candidates : List String) (ports : List ℤ)
      → (first_endpoint join print_int candidates ports ≡ "")
        ⊎ IsEndpoint join print_int (first_endpoint join print_int candidates ports)
  unfolding first_endpoint
  first_endpoint-IsEndpoint [] ports = inl refl
  first_endpoint-IsEndpoint (c ∷ rest) ports =
      if_elim (λ e. (e ≡ "") ⊎ IsEndpoint join print_int e)
        (normalize_peer_endpoint join print_int c ports == "")
        (first_endpoint-IsEndpoint rest ports) (normalize_peer_endpoint-IsEndpoint c ports)

  result_of-IsComplete :
      (r : RegistrationResponse) (peer : Peer) (rest : List Peer)
      → r.peers ≡ peer ∷ rest
      → validate_response r ≡ none
      → IsComplete (result_of join print_int r peer)
        × (((result_of join print_int r peer).peer_endpoint ≡ "")
            ⊎ IsEndpoint join print_int (result_of join print_int r peer).peer_endpoint)
  unfolding result_of select_peer_endpoint
  result_of-IsComplete r peer rest e v =
      let h = validate_response-none r v in
      (
        record {
          has_id = nonempty r.id h.0;
          has_token = nonempty r.token h.1;
          has_peer_key = nonempty peer.public_key (ap lacks_peer_key (sym e) ∙ h.2);
          has_ipv4 = nonempty r.v4 h.3;
          has_ipv6 = nonempty r.v6 h.4;
        },
        first_endpoint-IsEndpoint (peer.host ∷ peer.v4 ∷ peer.v6 ∷ []) peer.ports,
      )

  registered_with-IsComplete :
      (r : RegistrationResponse) (peers : List Peer) (v : Option ResponseError)
      (result : RegistrationResult)
      → r.peers ≡ peers
      → validate_response r ≡ v
      → registered_with join print_int r peers v ≡ some result
      → IsComplete result
        × ((result.peer_endpoint ≡ "") ⊎ IsEndpoint join print_int result.peer_endpoint)
  registered_with-IsComplete r peers (some reason) result ep ev e = ground (arith, e)
  registered_with-IsComplete r [] none result ep ev e = ground (arith, e)
  registered_with-IsComplete r (peer ∷ rest) none result ep ev e =
      subst
        (λ (x : RegistrationResult).
          IsComplete x × ((x.peer_endpoint ≡ "") ⊎ IsEndpoint join print_int x.peer_endpoint))
        (ap (value_or result) e) (result_of-IsComplete r peer rest ep ev)

  -- A registration that gives a result gives a complete one, with a peer endpoint that is empty or a
  -- host with a positive port.
  pub register-IsComplete :
      (r : RegistrationResponse) (result : RegistrationResult)
      → register join print_int r ≡ some result
      → IsComplete result
        × ((result.peer_endpoint ≡ "") ⊎ IsEndpoint join print_int result.peer_endpoint)
  unfolding register
  register-IsComplete r result e =
      registered_with-IsComplete r r.peers (validate_response r) result refl refl e
