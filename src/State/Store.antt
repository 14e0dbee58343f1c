-- ===== src/State/Store.antt =====
-- internal/state/store.go: the state files. `Content` is what a file holds once encoding/json has
-- decoded it; `writes` says whether the directory is made and the write of the file goes through.
-- The steps of a write are in State/Store/Atomic.
pub mod Atomic
pub mod Refinement
pub mod Laws
mod Tests
use cfwarp_cli.Prelude.{Bool, true, false, if◌then◌else◌}
use cfwarp_cli.State.Account as Account
use cfwarp_cli.State.Account.{AccountState, AccountStateJson}
use cfwarp_cli.State.Settings.{Settings}
use cfwarp_cli.State.Settings.Normalize as Normalize
use cfwarp_cli.State.Settings.Json as Json
use cfwarp_cli.State.Settings.Json.{SettingsJson}
use cfwarp_cli.State.Runtime as Runtime
use cfwarp_cli.State.Runtime.{RuntimeState, RuntimeStateJson}
use cfwarp_cli.State.History as History
use cfwarp_cli.State.History.{RotationHistory}

pub data Content {ℓ} (A : Type ℓ) : Type ℓ where
  absent garbled : Content A
  holds : A → Content A

-- A value, `ErrNotFound`, or any other error.
pub data Loading {ℓ} (A : Type ℓ) : Type ℓ where
  found : A → Loading A
  missing unreadable : Loading A

-- `readJSON`, with what is done to the decoded value.
unfoldable pub read_json {ℓ κ} : {P : Type ℓ} {A : Type κ} → (P → A) → Content P → Loading A
read_json f absent = missing
read_json f garbled = unreadable
read_json f (holds p) = found (f p)

abbrev pub exists {ℓ} : {P : Type ℓ} → Content P → Bool
exists absent = false
exists garbled = true
exists (holds p) = true

-- Whether the write went through, and the file afterwards.
abbrev pub put {ℓ} : {P : Type ℓ} → Bool → P → Content P → Bool × Content P
put true p old = (true, holds p)
put false p old = (false, old)

unfoldable pub save_account :
    Bool → Bool → AccountState → Content AccountStateJson → Bool × Content AccountStateJson
save_account force writes acc old =
    let written = put writes (Account.marshal (Account.normalize acc)) old in
    if force then written else if exists old then (false, old) else written

unfoldable pub load_account : Content AccountStateJson → Loading AccountState
load_account = read_json (λ p. Account.normalize (Account.unmarshal p))

unfoldable pub save_last_good_account :
    Bool → AccountState → Content AccountStateJson → Bool × Content AccountStateJson
save_last_good_account writes acc old = put writes (Account.marshal (Account.normalize acc)) old

unfoldable pub load_last_good_account : Content AccountStateJson → Loading AccountState
load_last_good_account = read_json (λ p. Account.normalize (Account.unmarshal p))

unfoldable pub save_rotation_history :
    Bool → RotationHistory → Content RotationHistory → Bool × Content RotationHistory
save_rotation_history writes h old = put writes (History.normalize h) old

unfoldable pub load_rotation_history : Content RotationHistory → Loading RotationHistory
load_rotation_history = read_json History.normalize

unfoldable pub save_settings : Bool → Settings → Content SettingsJson → Bool × Content SettingsJson
save_settings writes s old = put writes (Json.marshal (Normalize.normalize s)) old

-- `LoadSettingsFile`, and `LoadSettings` on the file of the state directory.
unfoldable pub load_settings_file : Content SettingsJson → Loading Settings
load_settings_file = read_json (λ p. Normalize.normalize (Json.unmarshal p))

unfoldable pub save_runtime :
    Bool → RuntimeState → Content RuntimeStateJson → Bool × Content RuntimeStateJson
save_runtime writes rt old = put writes (Runtime.marshal (Runtime.normalize rt)) old

unfoldable pub load_runtime : Content RuntimeStateJson → Loading RuntimeState
load_runtime = read_json (λ p. Runtime.normalize (Runtime.unmarshal p))

-- `ClearRuntime`: the removal of a file that is not there is no error. `removes` is for the runtime
-- file, `removes_config` for the backend's configuration, which nothing reads back.
unfoldable pub clear_runtime :
    Bool → Bool → Content RuntimeStateJson → Bool × Content RuntimeStateJson
clear_runtime removes removes_config old =
    if exists old
    then if removes then (removes_config, absent) else (false, old)
    else (removes_config, absent)
