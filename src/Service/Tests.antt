-- ===== src/Service/Tests.antt =====
-- The calls at a concrete host.
use cfwarp_cli.Prelude.{
  some, [], ◌∷◌, false, ℕ, ◌≡◌, refl, ap, to_lower, ◌⊎◌, true, false, none, pos, arith,
}
use cfwarp_cli.State.Account as Account
use cfwarp_cli.State.Account.{AccountState}
use cfwarp_cli.State.Settings.{default_settings}
use cfwarp_cli.State.Runtime as Runtime
use cfwarp_cli.State.Store.{absent, holds, load_account, load_runtime, found, read_json}
use cfwarp_cli.State.Store.Laws.{account_read_back, runtime_read_back}
use cfwarp_cli.State.Runtime.{RuntimeState}
use cfwarp_cli.Orchestrator.{is_runtime_active}
use cfwarp_cli.Service.Action.{Ends, ok}
use cfwarp_cli.Service.Host.{Machine, Backend}
use cfwarp_cli.Service.Registration.{register_account, registered_account}
use cfwarp_cli.Service.Backend.{active, configured_backend, start_backend_runtime}
use cfwarp_cli.Service.Access.{wait_for}
use cfwarp_cli.Service.Registry.{register_backend}
use cfwarp_cli.Service.Frame.{with_account, register_account-Ends}
use cfwarp_cli.Service.Running.{start_backend_runtime-running}
use cfwarp_cli.Service.Waiting.{Answers, wait_for-some}
use cfwarp_cli.Service.Sample.{sample_backend, sample_host, sample_registration}

abbrev registered : AccountState
registered =
    registered_account (record { private_key = "private"; public_key = "public" })
      sample_registration 5

abbrev device : AccountState
device = Account.normalize registered

abbrev running : RuntimeState
running = record {
  schema_version = pos 3;
  pid = pos 41;
  backend = "singbox-wireguard";
  runtime_family = "legacy";
  transport = "wireguard";
  mode = "socks5";
  phase = "connected";
  listen_host = "0.0.0.0";
  listen_port = pos 1080;
  selected_endpoint = "";
  selected_address_fam = "";
  service_socket_path = "/run/service.sock";
  config_path = "/run/backend.json";
  stdout_log_path = "";
  stderr_log_path = "";
  started_at = 5;
  last_reconnect_at = 0;
  last_reconnect_reason = "";
  last_transport_error = "";
  last_error = "";
  local_reachable = true;
  last_trace_summary = "";
  diagnostics = none;
}

abbrev runtime : RuntimeState
runtime = Runtime.normalize running

abbrev machine : Machine ℕ
machine = record {
  files = record {
    account = holds (Account.marshal device);
    last_good = absent;
    history = absent;
    runtime = holds (Runtime.marshal runtime);
  };
  world = 9;
}

register_account-Ends_example :
    Ends
      (λ _ m'. (acc : AccountState) × (m'.files ≡ with_account acc machine.files))
      (λ m'. m'.files ≡ machine.files)
      (register_account sample_host true false machine)
register_account-Ends_example =
    register_account-Ends sample_host true false machine machine.files refl

loaded : load_account machine.files.account ≡ found device
unfolding load_account read_json
loaded = ap found (account_read_back registered)

loaded_runtime : load_runtime machine.files.runtime ≡ found runtime
unfolding load_runtime read_json
loaded_runtime = ap found (runtime_read_back running)

still_active : (b : Backend ℕ) → active sample_host runtime (b.validate_prereqs 9).1 ≡ true
unfolding is_runtime_active Runtime.normalize Runtime.settle_phase Runtime.fill_runtime
    Runtime.lower_runtime to_lower
still_active b = refl

start_backend_runtime-running_example :
    Ends
      (λ _ _. ⊥)
      (λ m'.
        (m'.files ≡ machine.files)
        × ((m'.world ≡ 9)
            ⊎ ((b : Backend ℕ) × (configured_backend sample_host default_settings ≡ ok b)
                × (m'.world ≡ (b.validate_prereqs 9).1))))
      (start_backend_runtime sample_host default_settings false machine)
start_backend_runtime-running_example =
    start_backend_runtime-running sample_host default_settings false device runtime machine loaded
      loaded_runtime (λ b _. still_active b)

wait_for-some_example : Answers (wait_for sample_host (λ w. (false, w)) (pos 1000000000) 3)
wait_for-some_example =
    wait_for-some sample_host (λ w. (false, w)) (λ w. omega arith) (λ w. omega arith)
      (λ d w. omega arith) (pos 1000000000) 3

-- A registry of one backend, and a second one.
abbrev native_backend : Backend ℕ
native_backend = record sample_backend { name = "native-masque" }

registered_backends :
    register_backend native_backend (sample_backend ∷ [])
    ≡ some (native_backend ∷ sample_backend ∷ [])
unfolding register_backend
registered_backends = refl
