-- ===== src/Service/Backend.antt =====
-- cmd/backend_helpers.go and cmd/runtime_helpers.go: starting and stopping the backend.
use cfwarp_cli.Prelude.{
  Bool, false, not, ◌&&◌, ◌||◌, String, ◌==◌, Option, none, some, if◌then◌else◌, tidy,
}
use cfwarp_cli.State.Account.{AccountState}
use cfwarp_cli.State.Settings.{Settings, runtime_family_native, transport_masque}
use cfwarp_cli.State.Settings.Normalize as Normalize
use cfwarp_cli.State.Runtime.{RuntimeState}
use cfwarp_cli.State.Store.{
  Loading, found, missing, unreadable, load_runtime, save_runtime, clear_runtime, exists,
}
use cfwarp_cli.Orchestrator.{RuntimeInfo, build_runtime_state, is_runtime_active, mark_stopped}
use cfwarp_cli.Service.Action.{
  Error, not_found, corrupt, wrap, remove_failed, backend_running, Result, ok, err, Action, ⊤, pure,
  raise, gets, of_result, ◌>>=◌, ◌>>◌, attempt, under,
}
use cfwarp_cli.Service.Host.{Machine, RenderResult, Backend, Host, asks, outside_call, lookup}
use cfwarp_cli.Service.Registration.{read_account, register_account}

-- `runtimeInfo`.
unfoldable pub runtime_info : RuntimeState → RuntimeInfo
runtime_info rt = record {
  pid = rt.pid;
  config_path = rt.config_path;
  stdout_log_path = rt.stdout_log_path;
  stderr_log_path = rt.stderr_log_path;
  started_at = 0;
  last_error = "";
}

-- `autoRegisterOnStart` of cmd/up.go.
unfoldable pub auto_register_on_start : (String → String) → Bool
auto_register_on_start getenv =
    let v = tidy (getenv "CFWARP_REGISTER_ON_START") in
    v == "1" || v == "true" || v == "yes" || v == "on"

module _ {W : Type 0} (host : Host W) where
  unfoldable pub configured_backend : Settings → Result (Backend W)
  configured_backend sett = lookup (Normalize.normalize sett).backend host.registry

  unfoldable pub runtime_backend : RuntimeState → Result (Backend W)
  runtime_backend rt = lookup rt.backend host.registry

  abbrev pub active : RuntimeState → W → Bool
  active rt w = is_runtime_active (host.socket_exists w) (host.alive w) rt

  -- `ClearRuntime`.
  unfoldable pub forget_runtime : Action (Machine W) ⊤
  forget_runtime m =
      let (removes, w1) = host.removes m.world in
      let (removes_config, w2) = host.removes w1 in
      let (done, file) = clear_runtime removes removes_config m.files.runtime in
      (
        if done then ok tt else err remove_failed,
        record {
          files = record m.files { runtime = file };
          world = if exists m.files.runtime && not removes then w1 else w2;
        },
      )

  -- `SaveRuntime`; whether it went through is only printed.
  unfoldable pub write_runtime : RuntimeState → Action (Machine W) ⊤
  write_runtime rt m =
      let (writes, w) = host.writes m.world in
      (
        ok tt,
        record {
          files = record m.files { runtime = (save_runtime writes rt m.files.runtime).1 };
          world = w;
        },
      )

  -- The account to start with: a device is registered if there is none and the environment asks for it.
  abbrev pub account_or_register : Settings → Result AccountState → Action (Machine W) AccountState
  account_or_register sett (ok acc) = pure acc
  account_or_register sett (err not_found) =
      if auto_register_on_start host.getenv
      then (do
        under "auto-register on start" (
            register_account host false
              (sett.runtime_family == runtime_family_native && sett.transport == transport_masque))
        under "load account" (read_account host))
      else under "load account" (raise not_found)
  account_or_register sett (err e) = under "load account" (raise e)

  -- The stored runtime: an error if it is active, and otherwise it is removed.
  abbrev pub claim_runtime : Loading RuntimeState → Action (Machine W) ⊤
  claim_runtime (found rt) m =
      if active rt m.world then (err (backend_running rt.pid), m) else (ok tt, (forget_runtime m).1)
  claim_runtime missing m = (ok tt, m)
  claim_runtime unreadable m = (ok tt, m)

  -- The runtime record of a start, stopped if the start reports an error.
  abbrev pub started_state : Settings → RuntimeInfo × Option Error → RuntimeState
  started_state sett (info, none) = build_runtime_state host.socket sett info
  started_state sett (info, some e) =
      mark_stopped (host.message e) (build_runtime_state host.socket sett info)

  abbrev pub start_result : RuntimeState → Option Error → Result RuntimeState
  start_result rt none = ok rt
  start_result rt (some e) = err (wrap "backend exited" e)

  unfoldable pub launch :
      Settings → Bool → Backend W → RenderResult → Action (Machine W) RuntimeState
  launch sett foreground b rendered = do
    started ← asks (b.start rendered foreground)
    let rt = started_state sett started
    write_runtime rt
    of_result (start_result rt started.1)

  -- The start with an account and a backend.
  unfoldable pub start_backend :
      Settings → Bool → AccountState → Backend W → Action (Machine W) RuntimeState
  start_backend sett foreground acc b = do
    outside_call b.validate_prereqs
    files ← gets (λ m. m.files)
    claim_runtime (load_runtime files.runtime)
    rendered ← under "render config" (outside_call (b.render_config acc sett))
    launch sett foreground b rendered

  unfoldable pub start_backend_runtime : Settings → Bool → Action (Machine W) RuntimeState
  start_backend_runtime sett foreground = do
    loaded ← attempt (read_account host)
    acc ← account_or_register sett loaded
    b ← of_result (configured_backend sett)
    start_backend sett foreground acc b

  abbrev pub stop_active : RuntimeState → Action (Machine W) ⊤
  stop_active rt = do
    b ← of_result (runtime_backend rt)
    under "stop backend" (outside_call (b.stop (runtime_info rt)))
    under "clear runtime state" forget_runtime

  abbrev pub stop_loaded : Loading RuntimeState → Action (Machine W) ⊤
  stop_loaded missing m = (ok tt, m)
  stop_loaded unreadable m = (err (wrap "load runtime state" corrupt), m)
  stop_loaded (found rt) m = if active rt m.world then stop_active rt m else forget_runtime m

  unfoldable pub stop_backend_runtime : Action (Machine W) ⊤
  stop_backend_runtime m = stop_loaded (load_runtime m.files.runtime) m
