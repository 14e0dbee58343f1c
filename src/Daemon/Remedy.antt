-- ===== src/Daemon/Remedy.antt =====
-- cmd/daemon.go: what the daemon does about its backend, `ensureBackendRunning` to `reload`, and the
-- answers of the control socket.
use cfwarp_cli.Prelude.{
  ℕ, zero, suc, Bool, true, false, not, ◌&&◌, ◌||◌, String, ◌==◌, Option, none, some, List,
  is_empty, ℤ, pos, is_positive, pos_part, if◌then◌else◌, tidy,
}
use cfwarp_cli.State.Account.{AccountState}
use cfwarp_cli.State.Settings.{Settings, CapCheck, RotationOptions, transport_masque}
use cfwarp_cli.State.Runtime.{RuntimeState}
use cfwarp_cli.State.History.{RotationNovelty}
use cfwarp_cli.State.Store.{
  Loading, found, missing, unreadable, load_last_good_account, load_runtime, save_last_good_account,
}
use cfwarp_cli.Daemon.{Failures, check_failure_policy}
use cfwarp_cli.Daemon.Manager.{
  Daemon, DaemonStatus, snapshot, on_machine, set_rotation, set_error, in_cooldown, set_cooldown,
  refresh_settings, checks_of, run_checks,
}
use cfwarp_cli.Service.Action.{
  Error, not_new, not_reachable, still_failing, required_failed, remediation_failed, Result, ok,
  err, Action, ⊤, pure, raise, gets, of_result, ◌>>=◌, ◌>>◌, attempt, raise_unless,
}
use cfwarp_cli.Service.Host.{Machine, Host, asks, loaded_or_error}
use cfwarp_cli.Service.Access.{seconds, wait_for_primary_access}
use cfwarp_cli.Service.Registration.{read_account, write_account, register_account}
use cfwarp_cli.Service.Backend.{active, start_backend_runtime, stop_backend_runtime}
use cfwarp_cli.Service.Resolve.{ensure_rotation_account, remember_rotation_account}

-- What `remediate` reads from the rotation options: nanoseconds for the times.
pub record Plan : Type 0 where
  pub attempts : ℕ
  pub settle : ℤ
  pub cooldown : ℤ
  pub restore_last_good : Bool

unfoldable pub plan_of : Option RotationOptions → Plan
plan_of none = record {
  attempts = 1;
  settle = pos 12000000000;
  cooldown = pos 0;
  restore_last_good = false;
}
plan_of (some r) = record {
  attempts =
      if is_positive r.max_attempts_per_incident then pos_part r.max_attempts_per_incident else 1;
  settle =
      if is_positive r.settle_time_seconds then seconds r.settle_time_seconds else pos 12000000000;
  cooldown = if is_positive r.cooldown_seconds then seconds r.cooldown_seconds else pos 0;
  restore_last_good = r.restore_last_good;
}

abbrev pub rotation_enabled : Option RotationOptions → Bool
rotation_enabled none = false
rotation_enabled (some r) = r.enabled

abbrev pub rotation_enrolls : Option RotationOptions → Bool
rotation_enrolls none = false
rotation_enrolls (some r) = r.enroll_masque

module _ {W : Type 0} (host : Host W) where
  abbrev pub start_again : Settings → Action (Daemon W) ⊤
  start_again sett = on_machine (start_backend_runtime host sett false) >> pure tt

  abbrev pub is_active : Loading RuntimeState → W → Bool
  is_active (found rt) w = active host rt w
  is_active missing w = false
  is_active unreadable w = false

  unfoldable pub ensure_backend_running : Action (Daemon W) ⊤
  ensure_backend_running = do
    running ← gets (λ d. is_active (load_runtime d.machine.files.runtime) d.machine.world)
    if running then pure tt else (refresh_settings host >>= start_again)

  -- `SaveLastGoodAccount`; its error is dropped.
  unfoldable pub write_last_good : AccountState → Action (Machine W) ⊤
  write_last_good acc m =
      let (writes, w) = host.writes m.world in
      (
        ok tt,
        record {
          files = record m.files {
            last_good = (save_last_good_account writes acc m.files.last_good).1;
          };
          world = w;
        },
      )

  abbrev pub note_rotation : Result RotationNovelty → Action (Daemon W) ⊤
  note_rotation (ok status) = set_rotation status
  note_rotation (err e) = pure tt

  abbrev pub mark_account : Result AccountState → Action (Daemon W) ⊤
  mark_account (err e) = pure tt
  mark_account (ok acc) = do
    sett ← gets (λ d. d.manager.settings)
    noted ← attempt (on_machine (ensure_rotation_account host acc sett))
    note_rotation noted
    on_machine (write_last_good acc)

  unfoldable pub mark_last_good : Action (Daemon W) ⊤
  mark_last_good = attempt (on_machine (read_account host)) >>= mark_account

  unfoldable pub restore_last_good : Action (Daemon W) ⊤
  restore_last_good = do
    stored ← gets (λ d. load_last_good_account d.machine.files.last_good)
    acc ← of_result (loaded_or_error stored)
    on_machine (write_account host true acc)
    on_machine (stop_backend_runtime host)
    sett ← refresh_settings host
    start_again sett

  unfoldable pub rotate_once : Action (Daemon W) ⊤
  rotate_once = do
    sett ← refresh_settings host
    on_machine (stop_backend_runtime host)
    on_machine (
        register_account host true
          (sett.transport == transport_masque || rotation_enrolls sett.rotation))
    acc ← on_machine (read_account host)
    status ← on_machine (remember_rotation_account host acc sett)
    set_rotation status
    raise_unless (not_new status.distinctness) status.qualifies
    start_again sett

  -- What has to hold after a rotation: the proxy is reached, and no check that matters fails.
  unfoldable pub settled : Settings → Plan → Action (Daemon W) ⊤
  settled sett plan = do
    reached ← on_machine (asks (wait_for_primary_access host sett plan.settle))
    raise_unless (not_reachable plan.settle) reached
    if is_empty (checks_of host sett) then pure tt else (do
      results ← run_checks host
      raise_unless still_failing
          (not (check_failure_policy (checks_of host sett) results).active_failed))

  -- One round of the loop, up to its error.
  unfoldable pub round : Settings → Plan → Action (Daemon W) ⊤
  round sett plan = rotate_once >> settled sett plan

  abbrev pub recovered : Action (Daemon W) ⊤
  recovered = mark_last_good >> set_cooldown host (pos 0)

  abbrev pub after_round : (Error → Action (Daemon W) ⊤) → Result ⊤ → Action (Daemon W) ⊤
  after_round again (ok _) = recovered
  after_round again (err e) = set_error host e >> again e

  -- The loop: the error of the last round, or none when a round went well.
  unfoldable pub attempt_rounds : ℕ → Settings → Plan → Error → Action (Daemon W) ⊤
  attempt_rounds zero sett plan last = raise last
  attempt_rounds (suc n) sett plan last = do
    tried ← attempt (round sett plan)
    after_round (attempt_rounds n sett plan) tried

  abbrev pub checks_after : Result ⊤ → Action (Daemon W) ⊤
  checks_after (ok _) = attempt (run_checks host) >> pure tt
  checks_after (err e) = pure tt

  abbrev pub try_last_good : Bool → Action (Daemon W) ⊤
  try_last_good false = pure tt
  try_last_good true = attempt restore_last_good >>= checks_after

  -- What follows the loop.
  abbrev pub give_up : Plan → Result ⊤ → Action (Daemon W) ⊤
  give_up plan (ok _) = pure tt
  give_up plan (err e) = do
    try_last_good plan.restore_last_good
    set_cooldown host plan.cooldown
    raise e

  unfoldable pub remedy : Settings → Action (Daemon W) ⊤
  remedy sett = do
    let plan = plan_of sett.rotation
    tried ← attempt (attempt_rounds plan.attempts sett plan remediation_failed)
    give_up plan tried

  unfoldable pub remediate : Bool → Action (Daemon W) ⊤
  remediate force = do
    sett ← refresh_settings host
    if not force && not (rotation_enabled sett.rotation) then pure tt else remedy sett

  -- An error of the call is noted and handed on.
  abbrev pub noting : {A : Type 0} → Action (Daemon W) A → Action (Daemon W) A
  noting f = attempt f >>= λ r. elim r [ ok a ↦ pure a | err e ↦ set_error host e >> raise e ]

  abbrev pub second_check : List CapCheck → Action (Daemon W) Failures
  second_check checks = do
    attempt (remediate false)
    results ← noting (run_checks host)
    let failures = check_failure_policy checks results
    if failures.active_failed
        then pure failures
        else (mark_last_good >> pure (record failures { required_failed = false }))

  abbrev pub judge : List CapCheck → Failures → Action (Daemon W) ⊤
  judge checks failures =
      if failures.active_failed
      then (do
        cooling ← if failures.any_rotate then in_cooldown host else pure true
        after ← if failures.any_rotate && not cooling then second_check checks else pure failures
        raise_unless required_failed (not after.required_failed))
      else recovered

  unfoldable pub scheduled_check : Action (Daemon W) ⊤
  scheduled_check = do
    noting ensure_backend_running
    results ← noting (run_checks host)
    sett ← gets (λ d. d.manager.settings)
    let checks = checks_of host sett
    if is_empty checks then pure tt else judge checks (check_failure_policy checks results)

  unfoldable pub reload : Action (Daemon W) ⊤
  reload = do sett ← refresh_settings host; on_machine (stop_backend_runtime host); start_again sett

-- `daemonCtlResponse`.
pub record Response : Type 0 where
  pub ok : Bool
  pub message : String
  pub status : Option DaemonStatus

module _ {W : Type 0} (host : Host W) (unsupported : String → String) where
  abbrev pub answer : Result ⊤ → Daemon W → Response
  answer (ok _) d = record { ok = true; message = ""; status = some (snapshot d.manager) }
  answer (err e) d = record {
    ok = false;
    message = host.message e;
    status = some (snapshot d.manager);
  }

  abbrev pub answer_call : Action (Daemon W) ⊤ → Daemon W → Response × Daemon W
  answer_call f d = let (r, d') = f d in (answer r d', d')

  -- `handleControlConn` on a request that is read; `unsupported` prints its message.
  unfoldable pub handle_control : String → Daemon W → Response × Daemon W
  handle_control given d =
      let action = tidy given in
      if action == "status"
      then answer_call (pure tt) d
      else if action == "check"
      then answer_call (scheduled_check host) d
      else if action == "rotate"
      then answer_call (remediate host true) d
      else if action == "reload"
      then answer_call (reload host) d
      else (record { ok = false; message = unsupported action; status = none }, d)
