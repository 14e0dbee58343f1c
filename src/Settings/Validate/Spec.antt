-- ===== src/Settings/Validate/Spec.antt =====
-- What valid settings are, said without the order of the checks in internal/settings/validate.go.
use cfwarp_cli.Prelude.{
  ℕ, ◌≤◌, ◌≡◌, ◌≢◌, ◌↔◌, ◌⊎◌, String, Option, none, some, List, [], ◌∷◌, All, ℤ, pos, negsuc,
  is_empty, false, trim_space, tidy,
}
use cfwarp_cli.Prelude.Net.{split_host_port, atoi}
use cfwarp_cli.State.Settings.{
  Settings, AccessConfig, CapCheck, CapsOptions, DnsOptions, RotationOptions,
}

abbrev pub Among : List String → String → Type 0
Among [] v = ⊥
Among (k ∷ ks) v = (v ≡ k) ⊎ Among ks v

-- Bounds on Go's `int`.
abbrev pub InRange : ℕ → ℕ → ℤ → Type 0
InRange lo hi (pos n) = (lo ≤ n) × (n ≤ hi)
InRange lo hi (negsuc n) = ⊥

abbrev pub AtLeast : ℕ → ℤ → Type 0
AtLeast lo (pos n) = lo ≤ n
AtLeast lo (negsuc n) = ⊥

-- A host and a port that `net.SplitHostPort` and `strconv.Atoi` read off the text.
pub record IsEndpoint (ep : String) : Type 0 where
  pub host : String
  pub port : String
  pub number : ℤ
  pub split : split_host_port ep ≡ some (host, port)
  pub named : host ≢ ""
  pub read : atoi port ≡ some number
  pub bounded : InRange 1 65535 number

pub record IsListener (a : AccessConfig) : Type 0 where
  pub proxied : Among ("socks5" ∷ "http" ∷ []) (tidy a.type)
  pub hosted : a.listen_host ≢ ""
  pub bounded : InRange 1 65535 a.listen_port
  pub credentials : (a.username ≡ "") ↔ (a.password ≡ "")

abbrev pub SameKey : AccessConfig → AccessConfig → Type 0
SameKey a b = (a.listen_host ≡ b.listen_host) × (a.listen_port ≡ b.listen_port)

-- No two listeners share a host and a port.
abbrev pub AreDistinct : List AccessConfig → Type 0
AreDistinct [] = Unit
AreDistinct (a ∷ rest) = All (λ b. ¬ SameKey b a) rest × AreDistinct rest

pub record IsCheck (c : CapCheck) : Type 0 where
  pub probed :
      Among
        ("internet" ∷ "warp" ∷ "gemini" ∷ "chatgpt" ∷ "claude" ∷ "netflix" ∷ "youtube" ∷ [])
        c.probe
  pub timed : AtLeast 1 c.timeout_seconds

pub record IsCaps (c : CapsOptions) : Type 0 where
  pub spaced : AtLeast 1 c.interval_seconds
  pub checked : All IsCheck c.checks

-- A local resolver has no server; a remote one has, and only HTTPS has a path.
pub data IsResolver (d : DnsOptions) : Type 0 where
  local : d.mode ≡ "local" → d.server ≡ "" → d.server_port ≡ pos 0 → d.path ≡ "" → IsResolver d
  udp :
      d.mode ≡ "udp"
      → trim_space d.server ≢ ""
      → InRange 0 65535 d.server_port
      → d.path ≡ ""
      → IsResolver d
  https : d.mode ≡ "https" → trim_space d.server ≢ "" → InRange 0 65535 d.server_port → IsResolver d

pub record IsDns (d : DnsOptions) : Type 0 where
  pub resolver : IsResolver d
  pub strategic :
      Among ("" ∷ "prefer_ipv4" ∷ "prefer_ipv6" ∷ "ipv4_only" ∷ "ipv6_only" ∷ []) d.strategy

pub record IsRotation (r : RotationOptions) : Type 0 where
  pub distinct : Among ("" ∷ "either" ∷ "ipv4" ∷ "ipv6" ∷ "both" ∷ []) r.distinctness
  pub budgeted :
      (r.enabled ≡ false)
      ⊎ (AtLeast 1 r.max_attempts_per_incident
          × AtLeast 1 r.settle_time_seconds
          × AtLeast 1 r.history_size)
  pub cooled : AtLeast 0 r.cooldown_seconds
  pub remembered : AtLeast 0 r.history_size

abbrev pub Every {ℓ κ} : {A : Type ℓ} → (A → Type κ) → Option A → Type κ
Every P none = Unit
Every P (some a) = P a

pub record IsValid (s : Settings) : Type 0 where
  pub runtime :
      ((s.runtime_family ≡ "legacy") × (s.transport ≡ "wireguard"))
      ⊎ ((s.runtime_family ≡ "native") × (s.transport ≡ "masque"))
  pub proxied : (s.mode ≡ "socks5") ⊎ (s.mode ≡ "http")
  pub logged : Among ("debug" ∷ "info" ∷ "warn" ∷ "error" ∷ []) s.log_level
  pub overridden : (s.endpoint_override ≡ "") ⊎ IsEndpoint s.endpoint_override
  pub served : is_empty s.access ≡ false
  pub listening : All IsListener s.access
  pub distinct : AreDistinct s.access
  pub caps_valid : Every IsCaps s.caps
  pub dns_valid : Every IsDns s.dns
  pub rotation_valid : Every IsRotation s.rotation
