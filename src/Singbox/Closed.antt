-- ===== src/Singbox/Closed.antt =====
-- The names that a configuration of internal/backend/singbox/renderer.go uses and declares.
use text.Mathlib.TextLemmas.{append_cancel_left}
use cfwarp_cli.Prelude.{
  ◌≡◌, ◌≢◌, ◌⊎◌, inl, inr, refl, ap, ℕ, suc, ◌≤◌, not, String, ◌==◌, Option, none, some, List, [],
  ◌∷◌, map, All, ℤ, pos, arith, if_cases, if_elim,
}
use cfwarp_cli.State.Account.{AccountState}
use cfwarp_cli.State.Settings.{Settings, AccessConfig, DnsOptions}
use cfwarp_cli.State.Settings.Normalize.{normalize}
use cfwarp_cli.Settings.Validate.Spec.{Among}
use cfwarp_cli.Singbox.{
  ◌>>=◌, Inbound, WgEndpoint, DnsServer, DnsConfig, RouteRule, SingboxConfig, Rendered, rendered,
  failed, inbound_tag, inbound_of, inbound_type_for, build_dns_config, build_route_rules,
  resolve_peer_endpoint, build_local_addresses, build_inbounds, render,
}

-- The tags of the DNS servers.
abbrev pub server_tags : Option DnsConfig → List String
server_tags none = []
server_tags (some d) = map (λ (s : DnsServer). s.tag) d.servers

-- No resolver, or one that is declared.
abbrev pub Resolves : Option DnsConfig → String → Type 0
Resolves dns tag = (tag ≡ "") ⊎ Among (server_tags dns) tag

-- No two inbounds share a tag.
abbrev pub AreTagged : List Inbound → Type 0
AreTagged [] = Unit
AreTagged (i ∷ is) = All (λ (j : Inbound). j.tag ≢ i.tag) is × AreTagged is

pub record IsClosed (c : SingboxConfig) : Type 0 where
  pub routed : Among (map (λ (e : WgEndpoint). e.tag) c.endpoints) c.route.final
  pub resolved : Resolves c.dns c.route.default_domain_resolver
  pub ruled : All (λ (r : RouteRule). Among (server_tags c.dns) r.server) c.route.rules
  pub dialled : All (λ (e : WgEndpoint). Resolves c.dns e.domain_resolver) c.endpoints
  pub tagged : AreTagged c.inbounds

-- What holds of a result, if there is one.
abbrev pub Each : {A : Type 0} → (A → Type 0) → Rendered A → Type 0
Each P (rendered a) = P a
Each P (failed e) = Unit

Each->>= :
    {A B : Type 0} (P : A → Type 0) (Q : B → Type 0) (m : Rendered A) (f : A → Rendered B)
    → Each P m
    → ((a : A) → P a → Each Q (f a))
    → Each Q (m >>= f)
Each->>= P Q (rendered a) f p k = k a p
Each->>= P Q (failed e) f p k = tt

nothing_of_Each : {A : Type 0} (m : Rendered A) → Each (λ _. Unit {0}) m
nothing_of_Each (rendered a) = tt
nothing_of_Each (failed e) = tt

abbrev NamesResolver : Option DnsConfig × String → Type 0
NamesResolver (dns, tag) = Resolves dns tag

build_dns_config-Resolves :
    (o : Option DnsOptions) → Resolves (build_dns_config o).0 (build_dns_config o).1
unfolding build_dns_config
build_dns_config-Resolves none = inl refl
build_dns_config-Resolves (some d) =
    if_elim NamesResolver (d.mode == "") (inl refl)
      (if_elim NamesResolver (not (d.mode == "local")) (inr (inl refl)) (inr (inl refl)))

rules_named :
    (dns : Option DnsConfig) (tag : String) (o : Option DnsOptions)
    → Resolves dns tag
    → All (λ (r : RouteRule). Among (server_tags dns) r.server) (build_route_rules tag o)
unfolding build_route_rules
rules_named dns tag o (inl e) = rw (ap (λ t. t == "") e) tt
rules_named dns tag o (inr h) =
    if_cases (All (λ (r : RouteRule). Among (server_tags dns) r.server)) (tag == "") (λ _. tt)
      (λ _. (h, tt))

module _ (print_int : ℤ → String) (injective : (a b : ℤ) → print_int a ≡ print_int b → a ≡ b) where
  -- The tag of a later number.
  abbrev IsLater : ℕ → Inbound → Type 0
  IsLater i inbound = (k : ℕ) × (i ≤ k) × (inbound.tag ≡ inbound_tag print_int k)

  tags_apart : (i k : ℕ) → suc i ≤ k → inbound_tag print_int k ≢ inbound_tag print_int i
  tags_apart i k h e =
      let same = injective (pos (suc k)) (pos (suc i)) (append_cancel_left "proxy-in-" _ _ e) in
      ground arith

  later_apart :
      (i : ℕ) (inbound : Inbound)
      → inbound.tag ≡ inbound_tag print_int i
      → (is : List Inbound) → All (IsLater (suc i)) is
      → All (λ (j : Inbound). j.tag ≢ inbound.tag) is
  later_apart i inbound e [] h = tt
  later_apart i inbound e (j ∷ is) ((k, le, t), hs) =
      (λ same. tags_apart i k le (cc), later_apart i inbound e is hs)

  weaker : (i : ℕ) (is : List Inbound) → All (IsLater (suc i)) is → All (IsLater i) is
  weaker i [] h = tt
  weaker i (j ∷ is) ((k, le, t), hs) = ((k, omega arith, t), weaker i is hs)

  build_inbounds-AreTagged :
      (i : ℕ) (l : List AccessConfig)
      → Each (λ is. All (IsLater i) is × AreTagged is) (build_inbounds print_int i l)
  unfolding build_inbounds
  build_inbounds-AreTagged i [] = (tt, tt)
  build_inbounds-AreTagged i (a ∷ l) =
      Each->>= (λ _. Unit {0}) _ (inbound_type_for a.type) _
        (nothing_of_Each (inbound_type_for a.type))
        λ type _.
          Each->>= _ _ (build_inbounds print_int (suc i) l) _ (build_inbounds-AreTagged (suc i) l)
            λ is (later, tagged). (
              ((i, omega arith, refl), weaker i is later),
              (later_apart i (inbound_of print_int i type a) refl is later, tagged),
            )

  -- Whatever the account and the settings, a configuration that is rendered uses no name that it does
  -- not declare: the final route is an endpoint of it, and the resolvers of the route, of its rules
  -- and of the endpoint are DNS servers of it or absent. No two inbounds share a tag. `%d` prints
  -- different numbers differently.
  pub render-IsClosed : (a : AccountState) (s : Settings) → Each IsClosed (render print_int a s)
  unfolding render
  render-IsClosed a s =
      let n = normalize s in
      Each->>= (λ _. Unit {0}) IsClosed (resolve_peer_endpoint n a) _
        (nothing_of_Each (resolve_peer_endpoint n a))
        λ peer _.
          Each->>= (λ _. Unit {0}) IsClosed (build_local_addresses a.warp_ipv4 a.warp_ipv6) _
            (nothing_of_Each (build_local_addresses a.warp_ipv4 a.warp_ipv6))
            λ addresses _.
              Each->>= _ IsClosed (build_inbounds print_int 0 n.access) _
                (build_inbounds-AreTagged 0 n.access)
                λ is (later, tagged). record {
                  routed = inl refl;
                  resolved = build_dns_config-Resolves n.dns;
                  ruled = rules_named _ _ n.dns (build_dns_config-Resolves n.dns);
                  dialled = (build_dns_config-Resolves n.dns, tt);
                  tagged = tagged;
                }
