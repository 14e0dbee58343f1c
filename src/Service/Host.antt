-- ===== src/Service/Host.antt =====
-- What the calls work on: the state files and a world of type `W`, which stands for everything
-- outside the repository (clock, network, processes, file system, terminal). A `Host` is what that
-- world answers; the answers of internal/caps, internal/health and of the registration clients, which
-- come from the network, belong to it.
use cfwarp_cli.Prelude.{ℕ, Bool, String, ◌==◌, Option, List, [], ◌∷◌, ℤ, if◌then◌else◌}
use cfwarp_cli.State.Account.{Time, Reserved, AccountState, AccountStateJson}
use cfwarp_cli.State.Settings.{Settings, CapCheck}
use cfwarp_cli.State.Settings.Json.{SettingsJson}
use cfwarp_cli.State.Runtime.{RuntimeStateJson}
use cfwarp_cli.State.History.{RotationHistory}
use cfwarp_cli.State.Store.{Content, Loading, found, missing, unreadable}
use cfwarp_cli.Orchestrator.{RuntimeInfo}
use cfwarp_cli.Settings.Load.{Overrides, Read}
use cfwarp_cli.Daemon.{CheckResult}
use cfwarp_cli.Service.Action.{
  Error, not_found, corrupt, unsupported_backend, Result, ok, err, Action, ⊤,
}

pub record Files : Type 0 where
  pub account : Content AccountStateJson
  pub last_good : Content AccountStateJson
  pub history : Content RotationHistory
  pub runtime : Content RuntimeStateJson

pub record Machine (W : Type 0) : Type 0 where
  pub files : Files
  pub world : W

-- `backend.RenderResult`; the configuration is text.
pub record RenderResult : Type 0 where
  pub config_json : String
  pub config_path : String

-- `backend.Backend` of internal/backend/backend.go, as far as the calls use it.
pub record Backend (W : Type 0) : Type 0 where
  pub name : String
  pub validate_prereqs : W → Result ⊤ × W
  pub render_config : AccountState → Settings → W → Result RenderResult × W
  pub start : RenderResult → Bool → W → (RuntimeInfo × Option Error) × W
  pub stop : RuntimeInfo → W → Result ⊤ × W

-- `warp.Keypair`, `warp.RegistrationResult` and `cloudflare.MasqueEnrollmentResult`.
pub record Keypair : Type 0 where
  pub private_key : String
  pub public_key : String

pub record RegistrationResult : Type 0 where
  pub account_id : String
  pub token : String
  pub license : String
  pub client_id : String
  pub reserved : Reserved
  pub peer_public_key : String
  pub peer_endpoint : String
  pub ipv4 : String
  pub ipv6 : String

pub record MasqueEnrollmentResult : Type 0 where
  pub endpoint_pub_key_pem : String
  pub endpoint_v4 : String
  pub endpoint_v6 : String
  pub ipv4 : String
  pub ipv6 : String

-- `caps.ProbeTarget`.
pub record ProbeTarget : Type 0 where
  pub type : String
  pub address : String
  pub username : String
  pub password : String

pub record Host (W : Type 0) : Type 0 where
  -- The clock, in nanoseconds, and `time.Sleep`.
  pub now : W → Time × W
  pub sleep : ℕ → W → W
  -- Whether a write, a removal or the making of the directories goes through.
  pub writes : W → Bool × W
  pub removes : W → Bool × W
  pub makes_directories : W → Bool × W
  -- What the settings are made from.
  pub getenv : String → String
  pub overrides : Overrides
  pub settings_file : W → Content SettingsJson
  pub read_settings : W → String → Read
  -- The registration service.
  pub generate_keypair : W → Result Keypair × W
  pub register_consumer : String → W → Result RegistrationResult × W
  pub generate_masque_keypair : W → Result (String × String) × W
  pub enroll_masque_key : String → String → String → W → Result MasqueEnrollmentResult × W
  -- The running backend: `ServiceSocketPath`, `os.Stat` on it, `supervisor.IsRunning`.
  pub socket : String
  pub socket_exists : W → String → Bool
  pub alive : W → ℤ → Bool
  pub registry : List (Backend W)
  -- Hashes, addresses and probes.
  pub hash : String → String
  pub print_int : ℤ → String
  pub join_host_port : String → String → String
  pub probe_local : String → ℤ → W → Bool × W
  pub probe_check : ProbeTarget → CapCheck → W → CheckResult × W
  pub message : Error → String

module _ {W : Type 0} where
  -- An answer of the world.
  abbrev pub asks : {A : Type 0} → (W → A × W) → Action (Machine W) A
  asks f m = let (a, w) = f m.world in (ok a, record m { world = w })

  abbrev pub outside_call : {A : Type 0} → (W → Result A × W) → Action (Machine W) A
  outside_call f m = let (r, w) = f m.world in (r, record m { world = w })

-- The value that loading found, or its error.
abbrev pub loaded_or_error : {A : Type 0} → Loading A → Result A
loaded_or_error (found a) = ok a
loaded_or_error missing = err not_found
loaded_or_error unreadable = err corrupt

-- `backend.Lookup`: the registry is a map, whose names are distinct.
unfoldable pub lookup : {W : Type 0} → String → List (Backend W) → Result (Backend W)
lookup name [] = err (unsupported_backend name)
lookup name (b ∷ rest) = if b.name == name then ok b else lookup name rest
