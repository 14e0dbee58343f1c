-- ===== src/Warp/Tests.antt =====
-- A registration at a concrete response.
use cfwarp_cli.Prelude.{◌≡◌, refl, ◌⊎◌, [], ◌∷◌, some, pos, String, ℤ}
use cfwarp_cli.State.Account.{no_reserved}
use cfwarp_cli.Warp.{Peer, RegistrationResponse, register, result_of, validate_response}
use cfwarp_cli.Warp.Complete.{IsComplete, IsEndpoint, register-IsComplete}

abbrev peer : Peer
peer = record {
  public_key = "key";
  host = "engage.example.org";
  v4 = "192.0.2.1";
  v6 = "";
  ports = pos 0 ∷ pos 500 ∷ [];
}

abbrev response : RegistrationResponse
response = record {
  id = "device";
  token = "secret";
  license = "";
  client_id = "";
  reserved = no_reserved;
  peers = peer ∷ [];
  v4 = "172.16.0.2";
  v6 = "2001:db8::2";
}

abbrev join : String → String → String
join host port = host

abbrev print_int : ℤ → String
print_int n = "500"

accepted : register join print_int response ≡ some (result_of join print_int response peer)
unfolding register validate_response
accepted = refl

register-IsComplete_example :
    IsComplete (result_of join print_int response peer)
    × (((result_of join print_int response peer).peer_endpoint ≡ "")
        ⊎ IsEndpoint join print_int (result_of join print_int response peer).peer_endpoint)
register-IsComplete_example =
    register-IsComplete join print_int response (result_of join print_int response peer) accepted
