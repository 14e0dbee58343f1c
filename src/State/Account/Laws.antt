-- ===== src/State/Account/Laws.antt =====
-- What `AccountState.Normalize` establishes, and the JSON round trip (internal/state/models.go).
use cfwarp_cli.Prelude.{
  ◌≡◌, ◌≢◌, ◌⊎◌, inl, inr, refl, sym, ap, ◌∙◌, Bool, true, false, Option, none, some, arith,
  is_zero, is_zero-eq, eq_iff, pos,
}
use cfwarp_cli.State.Account.{
  AccountState, WireGuardState, Reserved, no_reserved, is_no_reserved, has_legacy_wireguard_fields,
  legacy_wireguard, normalize, marshal, unmarshal, from_payload,
}

-- WireGuard material all of whose fields are empty.
abbrev pub no_wireguard : WireGuardState
no_wireguard = record {
  private_key = "";
  peer_pub_key = "";
  ipv4 = "";
  ipv6 = "";
  reserved = no_reserved;
  peer_endpoint = "";
}

no_reserved_lem : (r : Reserved) → is_no_reserved r ≡ true → r ≡ no_reserved
no_reserved_lem r e =
    let p : r.first ≡ pos 0 = is_zero-eq r.first (ground (arith, e)) in
    let q : r.second ≡ pos 0 = is_zero-eq r.second (ground (arith, e)) in
    let s : r.third ≡ pos 0 = is_zero-eq r.third (ground (arith, e)) in
    λ i. record { first = p i; second = q i; third = s i }

empty_aliases :
    (a : AccountState) → has_legacy_wireguard_fields a ≡ false → legacy_wireguard a ≡ no_wireguard
unfolding has_legacy_wireguard_fields
empty_aliases a e =
    let p1 : a.warp_private_key ≡ "" = ground (arith, e, eq_iff a.warp_private_key "") in
    let p2 : a.warp_peer_pub_key ≡ "" = ground (arith, e, eq_iff a.warp_peer_pub_key "") in
    let p3 : a.warp_ipv4 ≡ "" = ground (arith, e, eq_iff a.warp_ipv4 "") in
    let p4 : a.warp_ipv6 ≡ "" = ground (arith, e, eq_iff a.warp_ipv6 "") in
    let p5 : a.warp_peer_endpoint ≡ "" = ground (arith, e, eq_iff a.warp_peer_endpoint "") in
    let p6 : a.warp_reserved ≡ no_reserved = no_reserved_lem a.warp_reserved (ground (arith, e)) in
    λ i. record {
      private_key = p1 i;
      peer_pub_key = p2 i;
      ipv4 = p3 i;
      ipv6 = p4 i;
      reserved = p6 i;
      peer_endpoint = p5 i;
    }

-- The account with the aliases that spell the material.
abbrev pub spelling : AccountState → WireGuardState → AccountState
spelling a w = record a {
  warp_private_key = w.private_key;
  warp_peer_pub_key = w.peer_pub_key;
  warp_ipv4 = w.ipv4;
  warp_ipv6 = w.ipv6;
  warp_reserved = w.reserved;
  warp_peer_endpoint = w.peer_endpoint;
}

has_none :
    (a : AccountState) → legacy_wireguard a ≡ no_wireguard → has_legacy_wireguard_fields a ≡ false
unfolding has_legacy_wireguard_fields
has_none a e = ap (λ w. has_legacy_wireguard_fields (spelling a w)) e

-- The WireGuard material that an account has, or that its aliases spell when one of them is not empty.
abbrev pub Taken : AccountState → Option WireGuardState → Option WireGuardState → Type 0
Taken a (some w) out = out ≡ some w
Taken a none out =
    ((legacy_wireguard a ≡ no_wireguard) × (out ≡ none))
    ⊎ ((legacy_wireguard a ≢ no_wireguard) × (out ≡ some (legacy_wireguard a)))

-- The aliases repeat the material; without it they are all empty.
abbrev pub Agrees : Option WireGuardState → AccountState → Type 0
Agrees none a = legacy_wireguard a ≡ no_wireguard
Agrees (some w) a = legacy_wireguard a ≡ w

agrees :
    (a : AccountState) (o : Option WireGuardState)
    → (normalize a).wireguard ≡ o
    → Agrees o (normalize a)
unfolding normalize
agrees a none e = empty_aliases (normalize a) (ground (arith, e))
agrees a (some w) e = ground (arith, e)

adopted :
    (a : AccountState) (b : Bool)
    → a.wireguard ≡ none
    → has_legacy_wireguard_fields a ≡ b
    → Taken a none (normalize a).wireguard
unfolding normalize
adopted a true e h = inr ((λ z. ground (arith, h, has_none a z)), (ground (arith, e, h)))
adopted a false e h = inl (empty_aliases a h, ground (arith, e, h))

taken :
    (a : AccountState) (o : Option WireGuardState)
    → a.wireguard ≡ o
    → Taken a o (normalize a).wireguard
unfolding normalize
taken a none e = adopted a (has_legacy_wireguard_fields a) e refl
taken a (some w) e = ground (arith, e)

-- A normalised account has a schema version, keeps its WireGuard material or, when it has none and an
-- alias is not empty, takes it from the aliases; its aliases repeat its material, and are all empty
-- without any.
pub normalize-Agrees :
    (a : AccountState)
    → (is_zero (normalize a).schema_version ≡ false)
      × Taken a a.wireguard (normalize a).wireguard
      × Agrees (normalize a).wireguard (normalize a)
unfolding normalize
normalize-Agrees a = (ground arith, taken a a.wireguard refl, agrees a (normalize a).wireguard refl)

-- On an account that is normalised `Normalize` changes nothing.
normalize_fixed :
    (a : AccountState) (o : Option WireGuardState)
    → a.wireguard ≡ o
    → is_zero a.schema_version ≡ false
    → Agrees o a
    → normalize a ≡ a
unfolding normalize
normalize_fixed a none e v h = ground (arith, e, v, has_none a h)
normalize_fixed a (some w) e v h = ground (arith, e, v, h)

-- `Normalize` gives an account that is normalised its aliases back.
normalize-spelling :
    (a : AccountState) (o : Option WireGuardState)
    → a.wireguard ≡ o
    → is_zero a.schema_version ≡ false
    → Agrees o a
    → normalize (spelling a no_wireguard) ≡ a
unfolding normalize
normalize-spelling a none e v h =
    normalize_fixed (spelling a no_wireguard) none e v refl ∙ ap (spelling a) (sym h)
normalize-spelling a (some w) e v h =
    let restored : normalize (spelling a no_wireguard) ≡ spelling a w = ground (arith, e, v) in
    restored ∙ ap (spelling a) (sym h)

pub normalize_idem : (a : AccountState) → normalize (normalize a) ≡ normalize a
normalize_idem a =
    let (versioned, _, agreed) = normalize-Agrees a in
    normalize_fixed (normalize a) (normalize a).wireguard refl versioned agreed

-- Reading back what was written, which has none of the aliases, gives the normalised account with them.
pub unmarshal-marshal_account : (a : AccountState) → unmarshal (marshal a) ≡ normalize a
unfolding unmarshal marshal from_payload
unmarshal-marshal_account a =
    let (versioned, _, agreed) = normalize-Agrees a in
    normalize-spelling (normalize a) (normalize a).wireguard refl versioned agreed
