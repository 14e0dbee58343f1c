-- ===== src/Rotation/Tests.antt =====
-- Recording an account twice.
use cfwarp_cli.Prelude.{
  ◌+◌, ◌^◌, ◌<◌, ◌≡◌, ◌≢◌, refl, true, none, some, String, eq_iff, pos, arith, tidy,
}
use cfwarp_cli.State.Account.{AccountState, no_reserved}
use cfwarp_cli.State.Account as Account
use cfwarp_cli.State.Settings.{Settings, default_settings}
use cfwarp_cli.State.History.{
  RotationFingerprint, RotationHistory, built, normalize, tally, build_with,
  build_rotation_fingerprint, evaluate_rotation_novelty, remember_rotation_fingerprint,
}
use cfwarp_cli.State.History.Novelty.{times_seen}
use cfwarp_cli.Rotation.{
  no_history, found, ensure_fingerprint, ensure_rotation_account, rotation_history_size,
}
use cfwarp_cli.Rotation.Memory.{ensure_rotation_account-again}

abbrev account : AccountState
account = record {
  schema_version = pos 2;
  account_id = "id";
  token = "token";
  license = "";
  client_id = "";
  wireguard = none;
  masque = some (record {
    private_key_der_base64 = "key";
    endpoint_pub_key_pem = "pem";
    endpoint_v4 = "162.159.198.1";
    endpoint_v6 = "";
    ipv4 = "172.16.0.2";
    ipv6 = "";
  });
  created_at = 7;
  source = "register";
  warp_private_key = "";
  warp_peer_pub_key = "";
  warp_ipv4 = "";
  warp_ipv6 = "";
  warp_reserved = no_reserved;
  warp_peer_endpoint = "";
}

abbrev settings : Settings
settings = record default_settings { transport = "masque" }

-- A hash for the example: any function into texts that are not empty will do.
abbrev marked : String → String
marked v = "#"

marked-ne-nil : (v : String) → marked v ≢ ""
marked-ne-nil v e = ground (arith, eq_iff "#" "", e)

abbrev account_fingerprint : RotationFingerprint
account_fingerprint = record {
  transport = "masque";
  fingerprint = "#";
  ipv4_hash = "#";
  ipv6_hash = "";
}

account-built :
    build_rotation_fingerprint marked account settings.transport ≡ built account_fingerprint
unfolding build_rotation_fingerprint build_with default_settings Account.normalize tidy
account-built = refl

unseen : times_seen account_fingerprint (normalize no_history).entries + 1 < 2 ^ 63
unfolding times_seen normalize
unseen = omega arith

abbrev after_first : RotationHistory
after_first =
    remember_rotation_fingerprint 5 no_history account_fingerprint 5
      (rotation_history_size settings)

first_written :
    (ensure_rotation_account (λ h. true) 5 marked (found no_history) account settings).written
    ≡ some after_first
unfolding ensure_rotation_account ensure_fingerprint build_rotation_fingerprint build_with
    Account.normalize tidy evaluate_rotation_novelty normalize tally default_settings
first_written = refl

ensure_rotation_account-again_example :
    (ensure_rotation_account (λ h. true) 6 marked (found after_first) account settings).written
    ≡ none
ensure_rotation_account-again_example =
    ensure_rotation_account-again marked marked-ne-nil (λ h. true) (λ h. true) 5 6 no_history
      after_first account settings account_fingerprint account-built unseen first_written
