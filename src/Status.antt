-- ===== src/Status.antt =====
-- cmd/status.go: the report, from what the files hold and what the world answers while it is made, and
-- the requirements that decide how the command ends. Printing is left out.
pub mod Required
pub mod Connected
mod Tests
use Prim.Native.String.{◌++◌}
use cfwarp_cli.Prelude.{
  Bool, true, false, not, ◌&&◌, ◌||◌, String, ◌==◌, Option, none, some, ℤ, pos, nat_eq,
  if◌then◌else◌,
}
use cfwarp_cli.State.Account.{Time, AccountState}
use cfwarp_cli.State.Settings.{Settings}
use cfwarp_cli.State.Runtime.{RuntimeState, RuntimeDiagnostics}
use cfwarp_cli.State.Store.{Loading, found, missing, unreadable}
use cfwarp_cli.Orchestrator.{RuntimeInfo, derive_phase}
use cfwarp_cli.Service.Action.{Error, Result, ok, err}
use cfwarp_cli.Service.Backend.{runtime_info}

pub record StatusReport : Type 0 where
  pub account_configured : Bool
  pub backend_running : Bool
  pub local_reachable : Bool
  pub pid : ℤ
  pub backend : String
  pub runtime_family : String
  pub transport : String
  pub mode : String
  pub phase : String
  pub listen_addr : String
  pub started_at : String
  pub selected_endpoint : String
  pub selected_address_family : String
  pub last_error : String
  pub last_transport_error : String
  pub diagnostics : Option RuntimeDiagnostics
  pub warp_verified : Option Bool

-- `backend.BackendStatus`.
pub record BackendStatus : Type 0 where
  pub running : Bool
  pub local_reachable : Bool
  pub last_error : String

pub record Flags : Type 0 where
  pub json : Bool
  pub trace : Bool
  pub require_account : Bool
  pub require_running : Bool
  pub require_reachable : Bool
  pub require_warp : Bool

-- What is asked: `health.ProbeLocal`, the backend of a name with its `Status`, `IsRuntimeActive`,
-- `health.ProbeTrace`, and texts.
pub record Answers : Type 0 where
  pub probe_local : String → ℤ → Bool
  pub backend : String → Result (RuntimeInfo → Settings → Result BackendStatus)
  pub active : RuntimeState → Bool
  pub probe_trace : String → String → String → String → Result Bool
  pub message : Error → String
  pub rfc3339 : Time → String
  pub print_int : ℤ → String

abbrev pub no_report : StatusReport
no_report = record {
  account_configured = false;
  backend_running = false;
  local_reachable = false;
  pid = pos 0;
  backend = "";
  runtime_family = "";
  transport = "";
  mode = "";
  phase = "";
  listen_addr = "";
  started_at = "";
  selected_endpoint = "";
  selected_address_family = "";
  last_error = "";
  last_transport_error = "";
  diagnostics = none;
  warp_verified = none;
}

abbrev pub is_found : {A : Type 0} → Loading A → Bool
is_found (found a) = true
is_found missing = false
is_found unreadable = false

-- The error that was there first stays.
abbrev pub note_error : String → StatusReport → StatusReport
note_error text r = record r { last_error = if r.last_error == "" then text else r.last_error }

module _ (ans : Answers) where
  unfoldable pub with_runtime : Loading RuntimeState → StatusReport → StatusReport
  with_runtime missing r = r
  with_runtime unreadable r = r
  with_runtime (found rt) r = record r {
    pid = rt.pid;
    backend = rt.backend;
    runtime_family = rt.runtime_family;
    transport = rt.transport;
    mode = rt.mode;
    phase = rt.phase;
    selected_endpoint = rt.selected_endpoint;
    selected_address_family = rt.selected_address_fam;
    last_error = rt.last_error;
    last_transport_error = rt.last_transport_error;
    diagnostics = rt.diagnostics;
    started_at = if nat_eq rt.started_at 0 then r.started_at else ans.rfc3339 rt.started_at;
  }

  abbrev pub listen_address : Settings → String
  listen_address sett = sett.listen_host ++ (":" ++ ans.print_int sett.listen_port)

  unfoldable pub with_listener : Result Settings → StatusReport → StatusReport
  with_listener (err e) r = r
  with_listener (ok sett) r = record r {
    listen_addr = listen_address sett;
    local_reachable = ans.probe_local sett.listen_host sett.listen_port;
  }

  unfoldable pub with_status : RuntimeState → Result BackendStatus → StatusReport → StatusReport
  with_status rt (err e) r = note_error (ans.message e) r
  with_status rt (ok st) r = note_error st.last_error (record r {
    backend_running = st.running;
    local_reachable = st.local_reachable;
    phase = derive_phase rt st.running st.local_reachable;
  })

  abbrev pub ask_backend :
      RuntimeState
      → Settings
      → Result (RuntimeInfo → Settings → Result BackendStatus)
      → StatusReport
      → StatusReport
  ask_backend rt sett (err e) r = note_error (ans.message e) r
  ask_backend rt sett (ok status) r = with_status rt (status (runtime_info rt) sett) r

  unfoldable pub with_backend : Loading RuntimeState → Result Settings → StatusReport → StatusReport
  with_backend missing sett r = r
  with_backend unreadable sett r = r
  with_backend (found rt) (ok sett) r = ask_backend rt sett (ans.backend rt.backend) r
  with_backend (found rt) (err e) r = record r {
    backend_running = ans.active rt;
    phase = derive_phase rt (ans.active rt) r.local_reachable;
  }

  -- Without --json a failed trace is only printed.
  abbrev pub traced : Bool → Result Bool → StatusReport → StatusReport
  traced json (ok on) r = record r { warp_verified = some on }
  traced true (err e) r = record r { last_error = "trace probe failed: " ++ ans.message e }
  traced false (err e) r = r

  unfoldable pub with_trace : Flags → Result Settings → StatusReport → StatusReport
  with_trace flags (err e) r = r
  with_trace flags (ok sett) r =
      if flags.trace || flags.require_warp
      then traced flags.json
          (ans.probe_trace sett.mode (listen_address sett) sett.proxy_username sett.proxy_password)
          r
      else r

  unfoldable pub report :
      Flags → Loading AccountState → Loading RuntimeState → Result Settings → StatusReport
  report flags acc rt sett = with_trace flags sett (
      with_backend rt sett (
        with_listener sett
          (with_runtime rt (record no_report { account_configured = is_found acc }))))

pub data Unmet : Type 0 where
  account_not_configured backend_not_running not_reachable warp_not_verified : Unmet
  verification_unavailable : String → Unmet

abbrev pub require_verified : StatusReport → Option Bool → Option Unmet
require_verified r none = some (verification_unavailable r.last_error)
require_verified r (some true) = none
require_verified r (some false) = some warp_not_verified

unfoldable pub require_status : Flags → StatusReport → Option Unmet
require_status flags r =
    if flags.require_account && not r.account_configured
    then some account_not_configured
    else if flags.require_running && not r.backend_running
    then some backend_not_running
    else if flags.require_reachable && not r.local_reachable
    then some not_reachable
    else if flags.require_warp
    then require_verified r r.warp_verified
    else none
