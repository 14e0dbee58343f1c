-- ===== src/Masque/Endpoint.antt =====
-- `resolveEndpoint` of internal/transport/masque/transport.go. What the package net answers about
-- addresses, names and ports is an argument; of the configuration only the fields it reads stand here.
use Prim.Native.String.{◌++◌}
use cfwarp_cli.Prelude.{
  ◌≡◌, ◌≢◌, refl, ◌⊎◌, inl, inr, Bool, true, false, ◌==◌, eq_iff, String, Option, none, some, ℤ,
  is_positive, arith, if◌then◌else◌,
}
use cfwarp_cli.Prelude.Net.{split_host_port}
use cfwarp_cli.State.Account.{Time}
use cfwarp_cli.Masque.Tunnel.{Event}

pub record EndpointConfig : Type 0 where
  pub endpoint_v4 : String
  pub endpoint_v6 : String
  pub connect_port : ℤ
  pub use_ipv6 : Bool

-- `net.ParseIP`, `net.ResolveIPAddr("ip", ·)` and `net.LookupPort("udp", ·)`.
pub record Resolver (I : Type 0) : Type 0 where
  pub parse_ip : String → Option I
  pub resolve_ip : String → Option I
  pub lookup_port : String → Option ℤ

pub record UdpAddr (I : Type 0) : Type 0 where
  pub ip : I
  pub port : ℤ

pub data Resolution (I : Type 0) : Type 0 where
  no_endpoint : Resolution I
  unresolved : String → Resolution I
  resolved : UdpAddr I → Resolution I

abbrev pub endpoint_text : EndpointConfig → String → String
endpoint_text cfg override =
    if override == "" then (if cfg.use_ipv6 then cfg.endpoint_v6 else cfg.endpoint_v4) else override

abbrev host_in : String → Option (String × String) → String
host_in raw none = raw
host_in raw (some (h, p)) = h

-- A port that is not found, or is not positive, is not taken.
abbrev usable_port : ℤ → Option ℤ → ℤ
usable_port fallback none = fallback
usable_port fallback (some n) = if is_positive n then n else fallback

abbrev port_in : {I : Type 0} → Resolver I → ℤ → Option (String × String) → ℤ
port_in net fallback none = fallback
port_in net fallback (some (h, p)) = usable_port fallback (net.lookup_port p)

unfoldable pub endpoint_host : String → String
endpoint_host raw = host_in raw (split_host_port raw)

abbrev ip_or : {I : Type 0} → Option I → Option I → Option I
ip_or none resolved_ip = resolved_ip
ip_or (some ip) resolved_ip = some ip

abbrev pub at_address : {I : Type 0} → String → ℤ → Option I → Resolution I
at_address host port none = unresolved host
at_address host port (some ip) = resolved record { ip = ip; port = port }

unfoldable pub resolve_endpoint : {I : Type 0} → Resolver I → EndpointConfig → String → Resolution I
unfolding endpoint_host
resolve_endpoint net cfg override =
    let raw = endpoint_text cfg override in
    let host = endpoint_host raw in
    if raw == ""
    then no_endpoint
    else at_address host (port_in net cfg.connect_port (split_host_port raw))
        (ip_or (net.parse_ip host) (net.resolve_ip host))

-- The text of the event by which `dial` tells the endpoint that it selected.
unfoldable pub endpoint_message : String → String → String
endpoint_message family addr = "MASQUE endpoint family=" ++ (family ++ (" addr=" ++ addr))

-- The event itself.
abbrev pub endpoint_selected : Time → String → String → Event
endpoint_selected now family addr = record {
  at = now;
  level = "info";
  type = "endpoint_selected";
  message = endpoint_message family addr;
}

-- Where an outcome leads: to an address of the host with a port that is positive, to a host without
-- an address, or nowhere when there is no text.
pub Leads : {I : Type 0} → Resolver I → String → Resolution I → Type 0
Leads net raw no_endpoint = raw ≡ ""
Leads net raw (unresolved host) =
    (raw ≢ "")
    × (host ≡ endpoint_host raw)
    × (net.parse_ip host ≡ none)
    × (net.resolve_ip host ≡ none)
Leads net raw (resolved addr) =
    (raw ≢ "")
    × (is_positive addr.port ≡ true)
    × ((net.parse_ip (endpoint_host raw) ≡ some addr.ip)
        ⊎ (net.resolve_ip (endpoint_host raw) ≡ some addr.ip))

module _ {I : Type 0} (net : Resolver I) (fallback : ℤ) (usable : is_positive fallback ≡ true) where
  chosen_port :
      (n : ℤ) (b : Bool) → is_positive n ≡ b → is_positive (if b then n else fallback) ≡ true
  chosen_port n true e = e
  chosen_port n false e = usable

  port_in_Positive :
      (parts : Option (String × String)) → is_positive (port_in net fallback parts) ≡ true
  port_in_Positive none = usable
  port_in_Positive (some (h, p)) = looked_up (net.lookup_port p)
    where
      looked_up : (found : Option ℤ) → is_positive (usable_port fallback found) ≡ true
      looked_up none = usable
      looked_up (some n) = chosen_port n (is_positive n) refl

  at_address-Leads :
      (raw : String) (port : ℤ) (parsed found : Option I)
      → raw ≢ ""
      → is_positive port ≡ true
      → net.parse_ip (endpoint_host raw) ≡ parsed
      → net.resolve_ip (endpoint_host raw) ≡ found
      → Leads net raw (at_address (endpoint_host raw) port (ip_or parsed found))
  unfolding Leads
  at_address-Leads raw port (some ip) found h positive p r = (h, positive, inl p)
  at_address-Leads raw port none (some ip) h positive p r = (h, positive, inr r)
  at_address-Leads raw port none none h positive p r = (h, refl, p, r)

  given_text :
      (raw : String) (b : Bool)
      → (raw == "") ≡ b
      → Leads net raw (
          if b
          then no_endpoint
          else at_address
              (endpoint_host raw)
              (port_in net fallback (split_host_port raw))
              (ip_or (net.parse_ip (endpoint_host raw)) (net.resolve_ip (endpoint_host raw))))
  unfolding Leads
  given_text raw true e = ground (arith, eq_iff raw "", e)
  given_text raw false e =
      at_address-Leads raw _ (net.parse_ip (endpoint_host raw)) (net.resolve_ip (endpoint_host raw))
        (ground (arith, eq_iff raw "", e)) (port_in_Positive (split_host_port raw)) refl refl

-- With a ConnectPort that is positive, the endpoint is missing only when neither the override nor
-- the configured endpoint of the chosen family is given, is unresolved only when its host is no
-- address and no known name, and otherwise is an address of its host with a port that is positive.
pub resolve_endpoint-Leads :
    {I : Type 0} (net : Resolver I) (cfg : EndpointConfig) (override : String)
    → is_positive cfg.connect_port ≡ true
    → Leads net (endpoint_text cfg override) (resolve_endpoint net cfg override)
unfolding resolve_endpoint
resolve_endpoint-Leads net cfg override usable =
    given_text net cfg.connect_port usable (endpoint_text cfg override)
      (endpoint_text cfg override == "") refl
