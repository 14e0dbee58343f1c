-- ===== src/Daemon/Tests.antt =====
-- The policy at concrete checks.
use cfwarp_cli.Prelude.{ℕ, refl, ap, some, ◌≡◌, true, false, ◌||◌, List, [], ◌∷◌, pos}
use cfwarp_cli.State.Account as Account
use cfwarp_cli.State.Account.{AccountState, AccountStateJson}
use cfwarp_cli.State.Store.{Content, absent, holds, found, load_last_good_account, read_json}
use cfwarp_cli.State.Store.Laws.{account_read_back}
use cfwarp_cli.State.Settings.{CapCheck, Settings, RotationOptions, default_settings}
use cfwarp_cli.Service.Action.{⊤, Ends}
use cfwarp_cli.Service.Registration.{registered_account}
use cfwarp_cli.Service.Sample.{sample_host, sample_registration}
use cfwarp_cli.Daemon.Manager.{Daemon, new_daemon_manager}
use cfwarp_cli.Daemon.Remedy.{plan_of, remedy}
use cfwarp_cli.Daemon.Restore.{Restored, remedy-Restored}
use cfwarp_cli.Daemon.{CheckResult, check_failure_policy}
use cfwarp_cli.Daemon.Policy.{any_failed, check_failure_policy_lem}

abbrev two_checks : List CapCheck
two_checks =
    record { probe = "internet"; required = true; rotate_on_fail = false; timeout_seconds = pos 15 }
    ∷ record { probe = "gemini"; required = false; rotate_on_fail = true; timeout_seconds = pos 15 }
    ∷ []

abbrev second_fails : List CheckResult
second_fails = record { ok = true } ∷ record { ok = false } ∷ []

check_failure_policy_lem_example :
    let p = check_failure_policy two_checks second_fails in
    (p.required_failed ≡ any_failed (λ c. c.required) two_checks second_fails)
    × (p.any_rotate ≡ any_failed (λ c. c.rotate_on_fail) two_checks second_fails)
    × (p.active_failed ≡ p.required_failed || p.any_rotate)
check_failure_policy_lem_example = check_failure_policy_lem two_checks second_fails

abbrev options : RotationOptions
options = record {
  enabled = true;
  max_attempts_per_incident = pos 2;
  settle_time_seconds = pos 3;
  cooldown_seconds = pos 60;
  restore_last_good = true;
  enroll_masque = false;
  distinctness = "either";
  history_size = pos 8;
}

abbrev settings : Settings
settings = record default_settings { rotation = some options }

abbrev device : AccountState
device =
    registered_account (record { private_key = "private"; public_key = "public" })
      sample_registration 5

abbrev stored : Content AccountStateJson
stored = holds (Account.marshal (Account.normalize device))

abbrev daemon : Daemon ℕ
daemon = record {
  manager = new_daemon_manager settings;
  machine = record {
    files = record { account = absent; last_good = stored; history = absent; runtime = absent };
    world = 9;
  };
}

loaded_last_good : load_last_good_account stored ≡ found (Account.normalize device)
unfolding load_last_good_account read_json
loaded_last_good = ap found (account_read_back device)

restores : (plan_of settings.rotation).restore_last_good ≡ true
unfolding plan_of
restores = refl

remedy-Restored_example :
    Ends
      (λ _ _. ⊤)
      (λ d'. Restored sample_host (λ w. refl) (Account.normalize device) stored d'.machine.files)
      (remedy sample_host settings daemon)
remedy-Restored_example =
    remedy-Restored sample_host (λ w. refl) (Account.normalize device) stored settings daemon
      loaded_last_good refl restores
