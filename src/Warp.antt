-- ===== src/Warp.antt =====
-- internal/warp/client.go: what a registration response is checked for, and the result that is taken
-- from it. `join` and `print_int` are `net.JoinHostPort` and `strconv.Itoa`.
pub mod Complete
mod Tests
use cfwarp_cli.Prelude.{
  ℕ, Bool, true, false, String, ◌==◌, Option, none, some, List, [], ◌∷◌, ℤ, pos, is_positive,
  if◌then◌else◌,
}
use cfwarp_cli.Prelude.Net.{split_host_port, atoi}
use cfwarp_cli.State.Account.{Reserved}
use cfwarp_cli.Service.Host.{RegistrationResult}

pub record Peer : Type 0 where
  pub public_key : String
  pub host : String
  pub v4 : String
  pub v6 : String
  pub ports : List ℤ

pub record RegistrationResponse : Type 0 where
  pub id : String
  pub token : String
  pub license : String
  pub client_id : String
  pub reserved : Reserved
  pub peers : List Peer
  pub v4 : String
  pub v6 : String

pub data ResponseError : Type 0 where
  no_account_id no_token no_peer_key no_ipv4 no_ipv6 : ResponseError

-- Whether the first peer lacks a key.
abbrev pub lacks_peer_key : List Peer → Bool
lacks_peer_key [] = true
lacks_peer_key (p ∷ rest) = p.public_key == ""

unfoldable pub validate_response : RegistrationResponse → Option ResponseError
validate_response r =
    if r.id == ""
    then some no_account_id
    else if r.token == ""
    then some no_token
    else if lacks_peer_key r.peers
    then some no_peer_key
    else if r.v4 == ""
    then some no_ipv4
    else if r.v6 == ""
    then some no_ipv6
    else none

unfoldable pub first_positive_port : List ℤ → ℤ
first_positive_port [] = pos 2408
first_positive_port (port ∷ rest) = if is_positive port then port else first_positive_port rest

-- The port that is written out, or one of the others if that is none.
abbrev pub port_or : List ℤ → Option ℤ → ℤ
port_or ports none = first_positive_port ports
port_or ports (some port) = if is_positive port then port else first_positive_port ports

module _ (join : String → String → String) (print_int : ℤ → String) where
  abbrev pub endpoint_of : String → List ℤ → Option (String × String) → String
  endpoint_of raw ports none = join raw (print_int (first_positive_port ports))
  endpoint_of raw ports (some (host, port)) = join host (print_int (port_or ports (atoi port)))

  unfoldable pub normalize_peer_endpoint : String → List ℤ → String
  normalize_peer_endpoint raw ports =
      if raw == "" then "" else endpoint_of raw ports (split_host_port raw)

  unfoldable pub first_endpoint : List String → List ℤ → String
  first_endpoint [] ports = ""
  first_endpoint (candidate ∷ rest) ports =
      let normalized = normalize_peer_endpoint candidate ports in
      if normalized == "" then first_endpoint rest ports else normalized

  unfoldable pub select_peer_endpoint : String → String → String → List ℤ → String
  select_peer_endpoint host ipv4 ipv6 ports = first_endpoint (host ∷ ipv4 ∷ ipv6 ∷ []) ports

  unfoldable pub result_of : RegistrationResponse → Peer → RegistrationResult
  result_of r peer = record {
    account_id = r.id;
    token = r.token;
    license = r.license;
    client_id = r.client_id;
    reserved = r.reserved;
    peer_public_key = peer.public_key;
    peer_endpoint = select_peer_endpoint peer.host peer.v4 peer.v6 peer.ports;
    ipv4 = r.v4;
    ipv6 = r.v6;
  }

  -- What `Register` makes of a response that was read.
  abbrev pub registered_with :
      RegistrationResponse → List Peer → Option ResponseError → Option RegistrationResult
  registered_with r peers (some e) = none
  registered_with r [] none = none
  registered_with r (peer ∷ rest) none = some (result_of r peer)

  unfoldable pub register : RegistrationResponse → Option RegistrationResult
  register r = registered_with r r.peers (validate_response r)
