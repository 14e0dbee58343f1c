-- ===== src/Service/Sample.antt =====
-- A host to evaluate the calls on: its world is the clock, every call of the network succeeds.
use Prim.Native.Nat.{◌+◌}
use cfwarp_cli.Prelude.{ℕ, suc, true, false, none, [], ◌∷◌, pos}
use cfwarp_cli.State.Account.{no_reserved}
use cfwarp_cli.State.Store.{absent}
use cfwarp_cli.Orchestrator.{RuntimeInfo}
use cfwarp_cli.Settings.Load.{Overrides, not_found}
use cfwarp_cli.Service.Action.{ok}
use cfwarp_cli.Service.Host.{Host, Backend, RegistrationResult, MasqueEnrollmentResult}

abbrev pub no_overrides : Overrides
no_overrides = record {
  backend = none;
  runtime_family = none;
  transport = none;
  proxy_mode = none;
  mode = none;
  listen_host = none;
  listen_port = none;
  proxy_username = none;
  proxy_password = none;
  endpoint_override = none;
  log_level = none;
  settings_file = none;
}

abbrev pub sample_info : RuntimeInfo
sample_info = record {
  pid = pos 41;
  config_path = "/run/backend.json";
  stdout_log_path = "";
  stderr_log_path = "";
  started_at = 7;
  last_error = "";
}

abbrev pub sample_backend : Backend ℕ
sample_backend = record {
  name = "singbox-wireguard";
  validate_prereqs = λ w. (ok tt, suc w);
  render_config =
      λ acc sett w. (ok (record { config_json = "{}"; config_path = "/run/backend.json" }), w);
  start = λ rendered foreground w. ((sample_info, none), suc w);
  stop = λ info w. (ok tt, suc w);
}

abbrev pub sample_registration : RegistrationResult
sample_registration = record {
  account_id = "device";
  token = "secret";
  license = "";
  client_id = "";
  reserved = no_reserved;
  peer_public_key = "peer";
  peer_endpoint = "192.0.2.1:2408";
  ipv4 = "172.16.0.2";
  ipv6 = "2001:db8::2";
}

abbrev pub sample_enrollment : MasqueEnrollmentResult
sample_enrollment = record {
  endpoint_pub_key_pem = "pem";
  endpoint_v4 = "192.0.2.1";
  endpoint_v6 = "";
  ipv4 = "172.16.0.2";
  ipv6 = "";
}

abbrev pub sample_host : Host ℕ
sample_host = record {
  now = λ w. (w, suc w);
  sleep = λ d w. w + d;
  writes = λ w. (true, w);
  removes = λ w. (true, w);
  makes_directories = λ w. (true, w);
  getenv = λ name. "";
  overrides = no_overrides;
  settings_file = λ w. absent;
  read_settings = λ w path. not_found;
  generate_keypair = λ w. (ok (record { private_key = "private"; public_key = "public" }), w);
  register_consumer = λ key w. (ok sample_registration, suc w);
  generate_masque_keypair = λ w. (ok ("private", "public"), w);
  enroll_masque_key = λ id token key w. (ok sample_enrollment, suc w);
  socket = "/run/service.sock";
  socket_exists = λ w path. false;
  alive = λ w pid. true;
  registry = sample_backend ∷ [];
  hash = λ text. text;
  print_int = λ n. "1080";
  join_host_port = λ host port. "127.0.0.1:1080";
  probe_local = λ name port w. (false, suc w);
  probe_check = λ target check w. (record { ok = false }, suc w);
  message = λ e. "failed";
}
