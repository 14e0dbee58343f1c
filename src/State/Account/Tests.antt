-- ===== src/State/Account/Tests.antt =====
-- The account's theorems at a concrete account.
use cfwarp_cli.Prelude.{◌≡◌, false, none, pos, is_zero}
use cfwarp_cli.State.Account.{AccountState, no_reserved, normalize, marshal, unmarshal}
use cfwarp_cli.State.Account.Laws.{Agrees, Taken, normalize-Agrees, unmarshal-marshal_account}

-- An account of the first schema, with the aliases only.
abbrev old_account : AccountState
old_account = record {
  schema_version = pos 0;
  account_id = "id";
  token = "token";
  license = "";
  client_id = "";
  wireguard = none;
  masque = none;
  created_at = 7;
  source = "register";
  warp_private_key = "key";
  warp_peer_pub_key = "peer";
  warp_ipv4 = "172.16.0.2";
  warp_ipv6 = "";
  warp_reserved = no_reserved;
  warp_peer_endpoint = "engage.cloudflareclient.com:2408";
}

normalize-Agrees_example :
    (is_zero (normalize old_account).schema_version ≡ false)
    × Taken old_account old_account.wireguard (normalize old_account).wireguard
    × Agrees (normalize old_account).wireguard (normalize old_account)
normalize-Agrees_example = normalize-Agrees old_account

unmarshal-marshal_account_example : unmarshal (marshal old_account) ≡ normalize old_account
unmarshal-marshal_account_example = unmarshal-marshal_account old_account
