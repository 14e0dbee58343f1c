-- ===== src/State/Account.antt =====
-- internal/state/models.go: the device registration kept in account.json. Times are numbers, 0 for
-- Go's zero time; the payload of `MarshalJSON` is the struct handed to encoding/json.
pub mod Laws
mod Tests
use cfwarp_cli.Prelude.{
  ℕ, Bool, true, false, not, ◌&&◌, ◌||◌, String, ◌==◌, Option, none, some, ℤ, pos, is_zero,
  if◌then◌else◌,
}

abbrev pub current_account_schema_version : ℤ
current_account_schema_version = pos 2

abbrev pub Time : Type 0
Time = ℕ

-- `[3]int`.
pub record Reserved : Type 0 where
  pub first : ℤ
  pub second : ℤ
  pub third : ℤ

abbrev pub no_reserved : Reserved
no_reserved = record { first = pos 0; second = pos 0; third = pos 0 }

abbrev pub is_no_reserved : Reserved → Bool
is_no_reserved r = is_zero r.first && is_zero r.second && is_zero r.third

pub record WireGuardState : Type 0 where
  pub private_key : String
  pub peer_pub_key : String
  pub ipv4 : String
  pub ipv6 : String
  pub reserved : Reserved
  pub peer_endpoint : String

pub record MasqueState : Type 0 where
  pub private_key_der_base64 : String
  pub endpoint_pub_key_pem : String
  pub endpoint_v4 : String
  pub endpoint_v6 : String
  pub ipv4 : String
  pub ipv6 : String

pub record AccountState : Type 0 where
  pub schema_version : ℤ
  pub account_id : String
  pub token : String
  pub license : String
  pub client_id : String
  pub wireguard : Option WireGuardState
  pub masque : Option MasqueState
  pub created_at : Time
  pub source : String
  pub warp_private_key : String
  pub warp_peer_pub_key : String
  pub warp_ipv4 : String
  pub warp_ipv6 : String
  pub warp_reserved : Reserved
  pub warp_peer_endpoint : String

-- The struct that encoding/json writes and reads. A field left out by `omitempty` is read back as
-- its zero value, so the payload stands for the text.
pub record AccountStateJson : Type 0 where
  pub schema_version : ℤ
  pub account_id : String
  pub token : String
  pub license : String
  pub client_id : String
  pub wireguard : Option WireGuardState
  pub masque : Option MasqueState
  pub created_at : Time
  pub source : String
  pub warp_private_key : String
  pub warp_peer_pub_key : String
  pub warp_ipv4 : String
  pub warp_ipv6 : String
  pub warp_reserved : Reserved
  pub warp_peer_endpoint : String

unfoldable pub has_legacy_wireguard_fields : AccountState → Bool
has_legacy_wireguard_fields a =
    not (a.warp_private_key == "")
    || not (a.warp_peer_pub_key == "")
    || not (a.warp_ipv4 == "")
    || not (a.warp_ipv6 == "")
    || not (a.warp_peer_endpoint == "")
    || not (is_no_reserved a.warp_reserved)

-- The WireGuard material that the deprecated fields spell.
abbrev pub legacy_wireguard : AccountState → WireGuardState
legacy_wireguard a = record {
  private_key = a.warp_private_key;
  peer_pub_key = a.warp_peer_pub_key;
  ipv4 = a.warp_ipv4;
  ipv6 = a.warp_ipv6;
  reserved = a.warp_reserved;
  peer_endpoint = a.warp_peer_endpoint;
}

-- The first two `if` blocks of `Normalize`.
unfoldable pub default_schema : AccountState → AccountState
default_schema a =
    if is_zero a.schema_version
    then record a { schema_version = current_account_schema_version }
    else a

unfoldable pub adopt_legacy : AccountState → AccountState
unfolding has_legacy_wireguard_fields
adopt_legacy a = elim a.wireguard [
  | some w ↦ a
  | none ↦
      if has_legacy_wireguard_fields a
      then record a { wireguard = some (legacy_wireguard a) }
      else a
]

-- The last block: the aliases follow the WireGuard material.
unfoldable pub sync_aliases : AccountState → AccountState
sync_aliases a = elim a.wireguard [
  | none ↦ a
  | some w ↦ record a {
    warp_private_key = w.private_key;
    warp_peer_pub_key = w.peer_pub_key;
    warp_ipv4 = w.ipv4;
    warp_ipv6 = w.ipv6;
    warp_reserved = w.reserved;
    warp_peer_endpoint = w.peer_endpoint;
  }
]

unfoldable pub normalize : AccountState → AccountState
unfolding default_schema adopt_legacy sync_aliases
normalize a = sync_aliases (adopt_legacy (default_schema a))

-- The six aliases are not written: in the payload they have their zero values.
unfoldable pub marshal : AccountState → AccountStateJson
unfolding normalize
marshal a =
    let aa = normalize a in
    record {
      schema_version = aa.schema_version;
      account_id = aa.account_id;
      token = aa.token;
      license = aa.license;
      client_id = aa.client_id;
      wireguard = aa.wireguard;
      masque = aa.masque;
      created_at = aa.created_at;
      source = aa.source;
      warp_private_key = "";
      warp_peer_pub_key = "";
      warp_ipv4 = "";
      warp_ipv6 = "";
      warp_reserved = no_reserved;
      warp_peer_endpoint = "";
    }

-- The assignment to `*a` in `UnmarshalJSON`.
unfoldable pub from_payload : AccountStateJson → AccountState
from_payload raw = record {
  schema_version = raw.schema_version;
  account_id = raw.account_id;
  token = raw.token;
  license = raw.license;
  client_id = raw.client_id;
  wireguard = raw.wireguard;
  masque = raw.masque;
  created_at = raw.created_at;
  source = raw.source;
  warp_private_key = raw.warp_private_key;
  warp_peer_pub_key = raw.warp_peer_pub_key;
  warp_ipv4 = raw.warp_ipv4;
  warp_ipv6 = raw.warp_ipv6;
  warp_reserved = raw.warp_reserved;
  warp_peer_endpoint = raw.warp_peer_endpoint;
}

unfoldable pub unmarshal : AccountStateJson → AccountState
unfolding normalize from_payload
unmarshal raw = normalize (from_payload raw)
