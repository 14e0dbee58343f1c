-- ===== src/Status/Tests.antt =====
-- Reports of a backend that runs.
use cfwarp_cli.Prelude.{◌≡◌, refl, true, false, none, some}
use cfwarp_cli.State.Account.{AccountState}
use cfwarp_cli.State.Settings.{default_settings}
use cfwarp_cli.State.Runtime.{RuntimeState}
use cfwarp_cli.State.Store.{Loading, missing, found}
use cfwarp_cli.Orchestrator.{build_runtime_state}
use cfwarp_cli.Service.Action.{ok, err, outside}
use cfwarp_cli.Service.Sample.{sample_info}
use cfwarp_cli.Status.{
  Answers, Flags, report, require_status, account_not_configured, with_trace, with_backend,
  with_listener, with_runtime, with_status,
}
use cfwarp_cli.Status.Connected.{require_status-report}

-- A backend that runs, and a trace that fails.
abbrev answers : Answers
answers = record {
  probe_local = λ host port. true;
  backend = λ name.
      ok (λ info sett. ok (record { running = true; local_reachable = true; last_error = "" }));
  active = λ rt. true;
  probe_trace = λ mode addr user password. err (outside "timeout");
  message = λ e. "failed";
  rfc3339 = λ t. "2025-01-01T00:00:00Z";
  print_int = λ n. "1080";
}

abbrev strict : Flags
strict = record {
  json = false;
  trace = true;
  require_account = false;
  require_running = true;
  require_reachable = true;
  require_warp = false;
}

abbrev no_account : Loading AccountState
no_account = missing

running : Loading RuntimeState
running = found (build_runtime_state "/run/socket" default_settings sample_info)

-- The code that computes when the tests run it.
status_code : Unit {0}
unfolding running report with_trace with_backend with_listener with_runtime with_status
    require_status
status_code = tt

strict_met :
    require_status strict (report answers strict no_account running (ok default_settings)) ≡ none
unfolding status_code
strict_met = refl

account_required :
    require_status
      (record strict { require_account = true })
      (report answers strict no_account running (ok default_settings))
    ≡ some account_not_configured
unfolding status_code
account_required = refl

require_status-report_example :
    (report answers strict no_account running (ok default_settings)).phase ≡ "connected"
require_status-report_example =
    require_status-report answers strict no_account running (ok default_settings) refl refl
      strict_met
