-- ===== src/State/Store/Tests.antt =====
-- The state files at concrete contents.
use cfwarp_cli.Prelude.{
  ◌≡◌, refl, Bool, true, false, String, ◌==◌, Option, none, some, if◌then◌else◌, pos,
}
use cfwarp_cli.State.Account.{AccountState, no_reserved}
use cfwarp_cli.State.Store.{put}
use cfwarp_cli.State.Store.Atomic.{Disk, no_fault, encode_fails, write_secure}
use cfwarp_cli.State.Store.Refinement.{
  IsWhole, succeeds, content, write_secure-IsWhole, write_secure-put,
}
use cfwarp_cli.Prelude.Lists.{All}

abbrev disk : Disk
disk p = if p == "account.json" then some "{old}" else none

write_secure-IsWhole_example :
    let r = write_secure encode_fails "{ne" "account.json" "{new}" disk in
    IsWhole "{ne" "account.json" "{new}" disk r.final
    × All (IsWhole "{ne" "account.json" "{new}" disk) r.earlier
write_secure-IsWhole_example = write_secure-IsWhole "{ne" "account.json" "{new}" disk encode_fails

abbrev encode : Bool → String
encode true = "true"
encode false = "false"

abbrev decode : String → Option Bool
decode text = if text == "true" then some true else if text == "false" then some false else none

decode-encode : (b : Bool) → decode (encode b) ≡ some b
decode-encode true = refl
decode-encode false = refl

write_secure-put_example :
    let r = write_secure no_fault "" "account.json" (encode true) disk in
    (r.success, content encode decode (r.final "account.json"))
    ≡ put (succeeds no_fault) true (content encode decode (disk "account.json"))
write_secure-put_example =
    write_secure-put encode decode decode-encode no_fault "" "account.json" true disk

abbrev account : AccountState
account = record {
  schema_version = pos 0;
  account_id = "device";
  token = "secret";
  license = "";
  client_id = "";
  wireguard = none;
  masque = none;
  created_at = 5;
  source = "register";
  warp_private_key = "private";
  warp_peer_pub_key = "peer";
  warp_ipv4 = "172.16.0.2";
  warp_ipv6 = "";
  warp_reserved = no_reserved;
  warp_peer_endpoint = "";
}
