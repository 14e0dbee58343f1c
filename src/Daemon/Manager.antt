-- ===== src/Daemon/Manager.antt =====
-- cmd/daemon.go: the state of `daemonManager` and the operations that read or write one part of it.
-- A call of the manager works on the manager and the machine; the calls are taken one after another.
use cfwarp_cli.Prelude.{
  ℕ, Bool, false, String, Option, none, some, List, [], ◌∷◌, ℤ, is_positive, nat_eq, ltb,
  if◌then◌else◌,
}
use cfwarp_cli.State.Account.{Time}
use cfwarp_cli.State.Settings.{Settings, AccessConfig, CapCheck, CapsOptions}
use cfwarp_cli.State.History.{RotationNovelty}
use cfwarp_cli.Daemon.{CheckResult}
use cfwarp_cli.Service.Action.{Error, Action, ⊤, pure, gets, modify, of_result, ◌>>=◌, ◌>>◌}
use cfwarp_cli.Service.Host.{Machine, Host, ProbeTarget, asks}
use cfwarp_cli.Service.Access.{add_time, probe_target_from_settings}
use cfwarp_cli.Service.Resolve.{resolve_settings}

pub record Manager : Type 0 where
  pub settings : Settings
  pub last_results : List CheckResult
  pub last_checked : Time
  pub cooldown_until : Time
  pub last_error : String
  pub last_rotation : Option RotationNovelty
  pub rotation_history_count : ℕ

pub record Daemon (W : Type 0) : Type 0 where
  pub manager : Manager
  pub machine : Machine W

-- `newDaemonManager`.
unfoldable pub new_daemon_manager : Settings → Manager
new_daemon_manager sett = record {
  settings = sett;
  last_results = [];
  last_checked = 0;
  cooldown_until = 0;
  last_error = "";
  last_rotation = none;
  rotation_history_count = 0;
}

module _ {W : Type 0} where
  -- A call of the machine.
  abbrev pub on_machine : {A : Type 0} → Action (Machine W) A → Action (Daemon W) A
  on_machine f d = let (r, m) = f d.machine in (r, record d { machine = m })

  abbrev pub update : (Manager → Manager) → Action (Daemon W) ⊤
  update f = modify (λ d. record d { manager = f d.manager })

  abbrev pub set_settings : Settings → Action (Daemon W) ⊤
  set_settings sett = update (λ g. record g { settings = sett })

  abbrev pub set_rotation : RotationNovelty → Action (Daemon W) ⊤
  set_rotation status = update (λ g. record g {
    last_rotation = some status;
    rotation_history_count = status.history_entries;
  })

-- What `snapshot` shows, with the times still as numbers.
pub record DaemonStatus : Type 0 where
  pub runtime_family : String
  pub transport : String
  pub access : List AccessConfig
  pub last_results : List CheckResult
  pub last_checked_at : Option Time
  pub cooldown_until : Option Time
  pub last_error : String
  pub last_rotation : Option RotationNovelty
  pub rotation_history_count : ℕ

abbrev shown_time : Time → Option Time
shown_time t = if nat_eq t 0 then none else some t

unfoldable pub snapshot : Manager → DaemonStatus
snapshot g = record {
  runtime_family = g.settings.runtime_family;
  transport = g.settings.transport;
  access = g.settings.access;
  last_results = g.last_results;
  last_checked_at = shown_time g.last_checked;
  cooldown_until = shown_time g.cooldown_until;
  last_error = g.last_error;
  last_rotation = g.last_rotation;
  rotation_history_count = g.rotation_history_count;
}

module _ {W : Type 0} (host : Host W) where
  unfoldable pub set_results : List CheckResult → Action (Daemon W) ⊤
  set_results results = do
    t ← on_machine (asks host.now)
    update (λ g. record g { last_results = results; last_checked = t; last_error = "" })

  unfoldable pub set_error : Error → Action (Daemon W) ⊤
  set_error e = update (λ g. record g { last_error = host.message e })

  unfoldable pub in_cooldown : Action (Daemon W) Bool
  in_cooldown = do
    until ← gets (λ d. d.manager.cooldown_until)
    if nat_eq until 0 then pure false else (do t ← on_machine (asks host.now); pure (ltb t until))

  unfoldable pub set_cooldown : ℤ → Action (Daemon W) ⊤
  set_cooldown d =
      if is_positive d
      then (do
        t ← on_machine (asks host.now)
        update (λ g. record g { cooldown_until = add_time t d }))
      else update (λ g. record g { cooldown_until = 0 })

  -- `resolveSettings` and `setSettings`.
  unfoldable pub refresh_settings : Action (Daemon W) Settings
  refresh_settings = do sett ← on_machine (resolve_settings host); set_settings sett; pure sett

  abbrev pub checks_of : Settings → List CapCheck
  checks_of sett = checks_in sett.caps
    where
      checks_in : Option CapsOptions → List CapCheck
      checks_in none = []
      checks_in (some caps) = caps.checks

  -- The probes of the checks, in order.
  unfoldable pub probe_all : ProbeTarget → List CapCheck → W → List CheckResult × W
  probe_all target [] w = ([], w)
  probe_all target (check ∷ rest) w =
      let (result, w1) = host.probe_check target check w in
      let (results, w2) = probe_all target rest w1 in (result ∷ results, w2)

  abbrev pub run_probes : Settings → List CapCheck → Action (Daemon W) (List CheckResult)
  run_probes sett [] = pure []
  run_probes sett (check ∷ rest) = do
    target ← of_result (probe_target_from_settings host sett)
    results ← on_machine (asks (probe_all target (check ∷ rest)))
    set_results results
    pure results

  unfoldable pub run_checks : Action (Daemon W) (List CheckResult)
  run_checks = do sett ← refresh_settings; run_probes sett (checks_of sett)
