-- ===== src/Service/Registration.antt =====
-- cmd/account_helpers.go: registering a device and saving its account.
use cfwarp_cli.Prelude.{Bool, true, false, String, none, some, pos, if◌then◌else◌}
use cfwarp_cli.State.Account.{Time, AccountState, AccountStateJson, MasqueState}
use cfwarp_cli.State.Store.{
  Content, Loading, found, missing, unreadable, save_account, load_account, exists,
}
use cfwarp_cli.Service.Action.{
  corrupt, write_failed, no_directories, account_registered, account_exists, Result, ok, err,
  Action, ⊤, pure, gets, of_result, ◌>>=◌, ◌>>◌, raise_unless, under,
}
use cfwarp_cli.Service.Host.{
  Machine, Keypair, RegistrationResult, MasqueEnrollmentResult, Host, asks, outside_call,
  loaded_or_error,
}

-- `BuildMasqueState` of internal/cloudflare/client.go.
unfoldable pub build_masque_state : String → MasqueEnrollmentResult → MasqueState
build_masque_state private_key result = record {
  private_key_der_base64 = private_key;
  endpoint_pub_key_pem = result.endpoint_pub_key_pem;
  endpoint_v4 = result.endpoint_v4;
  endpoint_v6 = result.endpoint_v6;
  ipv4 = result.ipv4;
  ipv6 = result.ipv6;
}

-- The account that a registration gives.
unfoldable pub registered_account : Keypair → RegistrationResult → Time → AccountState
registered_account kp result now = record {
  schema_version = pos 0;
  account_id = result.account_id;
  token = result.token;
  license = result.license;
  client_id = result.client_id;
  wireguard = none;
  masque = none;
  created_at = now;
  source = "register";
  warp_private_key = kp.private_key;
  warp_peer_pub_key = result.peer_public_key;
  warp_ipv4 = result.ipv4;
  warp_ipv6 = result.ipv6;
  warp_reserved = result.reserved;
  warp_peer_endpoint = result.peer_endpoint;
}

-- The guard on the account that is there.
abbrev pub check_existing : Bool → Loading AccountState → Result ⊤
check_existing true (found acc) = ok tt
check_existing false (found acc) = err account_registered
check_existing force missing = ok tt
check_existing force unreadable = err corrupt

-- The error of a save of the account: a file that is there and not forced, or a write that fails.
abbrev pub saved : Bool → Content AccountStateJson → Bool → Result ⊤
saved force old true = ok tt
saved true old false = err write_failed
saved false old false = if exists old then err account_exists else err write_failed

module _ {W : Type 0} (host : Host W) where
  -- `SaveAccount` on the account's file.
  unfoldable pub write_account : Bool → AccountState → Action (Machine W) ⊤
  write_account force acc m =
      let (writes, w) = host.writes m.world in
      let (done, file) = save_account force writes acc m.files.account in
      (
        saved force m.files.account done,
        record { files = record m.files { account = file }; world = w },
      )

  unfoldable pub read_account : Action (Machine W) AccountState
  read_account m = (loaded_or_error (load_account m.files.account), m)

  -- The account with MASQUE keys, if they are asked for.
  unfoldable pub enroll_masque :
      Bool → RegistrationResult → AccountState → Action (Machine W) AccountState
  enroll_masque false result acc = pure acc
  enroll_masque true result acc = do
    keys ← under "generate MASQUE keypair" (outside_call host.generate_masque_keypair)
    enrollment ←
        under "MASQUE enrollment failed"
          (outside_call (host.enroll_masque_key result.account_id result.token keys.1))
    pure (record acc { masque = some (build_masque_state keys.0 enrollment) })

  unfoldable pub register_account : Bool → Bool → Action (Machine W) ⊤
  register_account force masque = do
    made ← asks host.makes_directories
    raise_unless no_directories made
    files ← gets (λ m. m.files)
    of_result (check_existing force (load_account files.account))
    kp ← under "generate keypair" (outside_call host.generate_keypair)
    result ← under "registration failed" (outside_call (host.register_consumer kp.public_key))
    now ← asks host.now
    acc ← enroll_masque masque result (registered_account kp result now)
    under "save account" (write_account force acc)
