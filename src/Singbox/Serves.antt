-- ===== src/Singbox/Serves.antt =====
-- What a configuration of internal/backend/singbox/renderer.go serves.
use cfwarp_cli.Prelude.{
  ◌≡◌, ◌≢◌, ◌⊎◌, inl, inr, refl, sym, ap, ◌∙◌, ℕ, suc, false, String, ◌==◌, eq_iff, none, some,
  List, [], ◌∷◌, map, All, ℤ, pos, arith, tidy, if_cases,
}
use mathlib.Core.Path.{subst}
use cfwarp_cli.Prelude.Net.{split_host_port, atoi}
use cfwarp_cli.State.Account.{AccountState}
use cfwarp_cli.State.Settings.{Settings, AccessConfig, default_string}
use cfwarp_cli.State.Settings.Normalize.{normalize, normalize_access}
use cfwarp_cli.State.Settings.Normal.Fixed.{IsNormal, access-listed}
use cfwarp_cli.State.Settings.Normal.Reached.{normalize-IsNormal}
use cfwarp_cli.Settings.Validate.{validate}
use cfwarp_cli.Settings.Validate.Spec.{IsEndpoint, IsListener, IsValid}
use cfwarp_cli.Settings.Validate.Options.{validate_endpoint_iff}
use cfwarp_cli.Settings.Validate.Valid.{validate_iff}
use cfwarp_cli.Settings.Stored.{trim_space-mode}
use cfwarp_cli.Singbox.{
  ◌>>=◌, Inbound, WgPeer, WgEndpoint, SingboxConfig, Rendered, rendered, peer_text,
  default_peer_endpoint, resolve_peer_endpoint, build_local_addresses, inbound_type_for,
  build_users, build_inbounds, render,
}

-- A listener of the settings and the inbound that stands for it.
pub record Serves (a : AccessConfig) (i : Inbound) : Type 0 where
  pub typed : ((a.type ≡ "socks5") × (i.type ≡ "socks")) ⊎ ((a.type ≡ "http") × (i.type ≡ "http"))
  pub listened : (i.listen ≡ a.listen_host) × (i.listen_port ≡ a.listen_port)
  pub guarded :
      ((a.username ≡ "") × (i.users ≡ []))
      ⊎ ((a.username ≢ "")
          × (i.users ≡ record { username = a.username; password = a.password } ∷ []))

-- One inbound for each listener, in their order.
pub ServeAll : List AccessConfig → List Inbound → Type 0
ServeAll [] [] = Unit
ServeAll [] (i ∷ is) = ⊥
ServeAll (a ∷ l) [] = ⊥
ServeAll (a ∷ l) (i ∷ is) = Serves a i × ServeAll l is

-- The peer that is dialled: the host and the port of a text.
pub record Dials (text : String) (p : WgPeer) : Type 0 where
  pub endpoint : IsEndpoint text
  pub hosted : p.address ≡ endpoint.host
  pub ported : p.port ≡ endpoint.number

-- The text of the peer: the override, what the account has without one, or the default without either.
abbrev pub IsPeerText : Settings → AccountState → String → Type 0
IsPeerText s a text =
    ((s.endpoint_override ≢ "") × (text ≡ s.endpoint_override))
    ⊎ (((s.endpoint_override ≡ "") × ((a.warp_peer_endpoint ≢ "") × (text ≡ a.warp_peer_endpoint)))
        ⊎ ((s.endpoint_override ≡ "")
            × ((a.warp_peer_endpoint ≡ "") × (text ≡ "engage.cloudflareclient.com:2408"))))

pub record IsTunnelOf (s : Settings) (a : AccountState) (e : WgEndpoint) : Type 0 where
  pub keyed : e.private_key ≡ a.warp_private_key
  pub peer : WgPeer
  pub peered : e.peers ≡ peer ∷ []
  pub trusted : peer.public_key ≡ a.warp_peer_pub_key
  pub text : String
  pub chosen : IsPeerText s a text
  pub dialled : Dials text peer

pub record Renders (s : Settings) (a : AccountState) (c : SingboxConfig) : Type 0 where
  pub served : ServeAll s.access c.inbounds
  pub endpoint : WgEndpoint
  pub alone : c.endpoints ≡ endpoint ∷ []
  pub tunnelled : IsTunnelOf s a endpoint

pub data Yields {A : Type 0} (P : A → Type 0) : Rendered A → Type 0 where
  yields : (a : A) → P a → Yields P (rendered a)

Yields->>= :
    {A B : Type 0} {P : A → Type 0} {Q : B → Type 0} (m : Rendered A) (f : A → Rendered B)
    → Yields P m
    → ((a : A) → P a → Yields Q (f a))
    → Yields Q (m >>= f)
Yields->>= m f (yields a p) k = k a p

abbrev IsProxied : AccessConfig → Type 0
IsProxied a = (a.type ≡ "socks5") ⊎ (a.type ≡ "http")

listener-IsProxied : (a : AccessConfig) → normalize_access a ≡ a → IsListener a → IsProxied a
unfolding normalize_access
listener-IsProxied a e v =
    let fixed : tidy a.type ≡ a.type = ap (λ (b : AccessConfig). b.type) e in
    elim v.proxied [
      | inl p ↦ inl (sym fixed ∙ p)
      | inr (inl p) ↦ inr (sym fixed ∙ p)
      | inr (inr p) ↦ elim p [ ]
    ]

listeners-IsProxied :
    (l : List AccessConfig) → map normalize_access l ≡ l → All IsListener l → All IsProxied l
listeners-IsProxied [] e v = tt
listeners-IsProxied (a ∷ l) e (v, vs) = (listener-IsProxied a (cc) v, listeners-IsProxied l (cc) vs)

not_empty : (t : String) → t ≢ "" → (t == "") ≡ false
not_empty t h = ground (arith, eq_iff t "", h)

build_users_lem :
    (a : AccessConfig)
    → ((a.username ≡ "") × (build_users a.username a.password ≡ []))
      ⊎ ((a.username ≢ "")
          × (build_users a.username a.password
              ≡ record { username = a.username; password = a.password } ∷ []))
unfolding build_users
build_users_lem a = ground (arith, eq_iff a.username "")

inbound_type_for-Typed :
    (a : AccessConfig)
    → IsProxied a
    → Yields
        (λ type. ((a.type ≡ "socks5") × (type ≡ "socks")) ⊎ ((a.type ≡ "http") × (type ≡ "http")))
        (inbound_type_for a.type)
unfolding inbound_type_for
inbound_type_for-Typed a (inl e) = rw (ap (λ t. t == "socks5") e) (yields "socks" (inl (e, refl)))
inbound_type_for-Typed a (inr e) =
    rw (ap (λ t. t == "socks5") e, ap (λ t. t == "http") e) (yields "http" (inr (e, refl)))

listeners_fixed : (s : Settings) → IsNormal s → map normalize_access s.access ≡ s.access
listeners_fixed s n =
    subst (λ l. map normalize_access l ≡ l) (sym (access-listed s n)) n.access_fixed

default_peer_endpoint-IsEndpoint : IsEndpoint default_peer_endpoint
unfolding split_host_port atoi
default_peer_endpoint-IsEndpoint = record {
  host = "engage.cloudflareclient.com";
  port = "2408";
  number = pos 2408;
  split = read_default.0;
  named = ground (arith, eq_iff "engage.cloudflareclient.com" "");
  read = read_default.1;
  bounded = omega arith;
}
  where
    read_default :
        (split_host_port default_peer_endpoint ≡ some ("engage.cloudflareclient.com", "2408"))
        × (atoi "2408" ≡ some (pos 2408))
    read_default = (refl, refl)

-- The first text if it is not empty, else the second.
default_string_elim :
    (P : String → Type 0) (v w : String) → (v ≡ "") ⊎ P v → P w → P (default_string v w)
unfolding default_string
default_string_elim P v w (inl e) q = rw (ap (λ t. t == "") e) q
default_string_elim P v w (inr p) q = if_cases P (v == "") (λ _. q) (λ _. p)

peer_text-IsPeerText : (s : Settings) (a : AccountState) → IsPeerText s a (peer_text s a)
unfolding default_string
peer_text-IsPeerText s a =
    ground (arith, eq_iff s.endpoint_override "", eq_iff a.warp_peer_endpoint "")

peer_text-IsEndpoint :
    (s : Settings) (a : AccountState)
    → (s.endpoint_override ≡ "") ⊎ IsEndpoint s.endpoint_override
    → (a.warp_peer_endpoint ≡ "") ⊎ IsEndpoint a.warp_peer_endpoint
    → IsEndpoint (peer_text s a)
peer_text-IsEndpoint s a o p =
    default_string_elim IsEndpoint _ default_peer_endpoint
      (default_string_elim (λ t. (t ≡ "") ⊎ IsEndpoint t) s.endpoint_override a.warp_peer_endpoint
        (elim o [ inl e ↦ inl e | inr e ↦ inr (inr e) ]) p)
      default_peer_endpoint-IsEndpoint

resolve_peer_endpoint-Parts :
    (s : Settings) (a : AccountState)
    → (s.endpoint_override ≡ "") ⊎ IsEndpoint s.endpoint_override
    → (a.warp_peer_endpoint ≡ "") ⊎ IsEndpoint a.warp_peer_endpoint
    → Yields
        (λ parts. (e : IsEndpoint (peer_text s a)) × (parts.0 ≡ e.host) × (parts.1 ≡ e.number))
        (resolve_peer_endpoint s a)
unfolding resolve_peer_endpoint
resolve_peer_endpoint-Parts s a o p =
    let e = peer_text-IsEndpoint s a o p in
    rw ((validate_endpoint_iff (peer_text s a)).1 e, e.split, e.read) (yields _ (e, refl, refl))

build_local_addresses-Yields :
    (ipv4 ipv6 : String) → ipv4 ≢ "" → Yields (λ _. Unit {0}) (build_local_addresses ipv4 ipv6)
unfolding build_local_addresses
build_local_addresses-Yields ipv4 ipv6 h = rw (not_empty ipv4 h) (yields _ tt)

module _ (print_int : ℤ → String) where
  build_inbounds-ServeAll :
      (i : ℕ) (l : List AccessConfig)
      → All IsProxied l
      → Yields (ServeAll l) (build_inbounds print_int i l)
  unfolding build_inbounds ServeAll
  build_inbounds-ServeAll i [] h = yields [] tt
  build_inbounds-ServeAll i (a ∷ l) (h, hs) =
      Yields->>= (inbound_type_for a.type) _ (inbound_type_for-Typed a h) λ type typed.
        Yields->>= (build_inbounds print_int (suc i) l) _ (build_inbounds-ServeAll (suc i) l hs)
          λ others rest.
            yields _
              (record { typed = typed; listened = (refl, refl); guarded = build_users_lem a }, rest)

  render-Yields :
      (s : Settings) (a : AccountState)
      → IsValid (normalize s)
      → IsNormal (normalize s)
      → a.warp_ipv4 ≢ ""
      → (a.warp_peer_endpoint ≡ "") ⊎ IsEndpoint a.warp_peer_endpoint
      → Yields (Renders (normalize s) a) (render print_int a s)
  unfolding render
  render-Yields s a v n given peer =
      Yields->>= (resolve_peer_endpoint (normalize s) a) _
        (resolve_peer_endpoint-Parts (normalize s) a v.overridden peer)
        λ parts (e, host, port).
          Yields->>= (build_local_addresses a.warp_ipv4 a.warp_ipv6) _
            (build_local_addresses-Yields a.warp_ipv4 a.warp_ipv6 given)
            λ addresses _.
              Yields->>= (build_inbounds print_int 0 (normalize s).access) _
                (build_inbounds-ServeAll 0 (normalize s).access (
                  listeners-IsProxied (normalize s).access (listeners_fixed (normalize s) n)
                    v.listening))
                λ inbounds served. yields _ (record {
                  served = served;
                  endpoint = _;
                  alone = refl;
                  tunnelled = record {
                    keyed = refl;
                    peer = _;
                    peered = refl;
                    trusted = refl;
                    text = peer_text (normalize s) a;
                    chosen = peer_text-IsPeerText (normalize s) a;
                    dialled = record { endpoint = e; hosted = host; ported = port };
                  };
                })

  -- From settings that pass validation and an account with an IPv4 address, whose peer endpoint is
  -- absent or well formed, a configuration is rendered. It has one inbound for each listener, in
  -- their order, with the listener's type, host, port and credentials, and one tunnel with the
  -- account's keys, to the host and port of the override, of the account's endpoint without one, or
  -- of the default without either.
  pub render-Renders :
      (s : Settings) (a : AccountState)
      → validate s ≡ none
      → a.warp_ipv4 ≢ ""
      → (a.warp_peer_endpoint ≡ "") ⊎ IsEndpoint a.warp_peer_endpoint
      → Yields (Renders (normalize s) a) (render print_int a s)
  render-Renders s a h given peer =
      let v = (validate_iff s).0 h in
      render-Yields s a v (normalize-IsNormal s (trim_space-mode _ v.proxied)) given peer
