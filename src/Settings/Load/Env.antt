-- ===== src/Settings/Load/Env.antt =====
-- The blocks of options that `applyEnv` of internal/settings/load.go sets from CFWARP_* variables.
use cfwarp_cli.Prelude.{
  ℕ, Bool, true, false, not, ◌&&◌, ◌||◌, String, ◌==◌, Option, none, some, List, [], ◌∷◌, ℤ, pos,
  negsuc, nat_eq, leb, is_zero, if◌then◌else◌, to_lower, tidy,
}
use mathlib.Core.Option as Opt
use cfwarp_cli.Prelude.Net.{atoi, split_commas}
use cfwarp_cli.State.Settings.{
  MasqueOptions, CapCheck, CapsOptions, DnsOptions, RotationOptions, DaemonOptions,
}
use cfwarp_cli.State.Settings.Json.{zero_dns}

abbrev pub given {ℓ} : {A : Type ℓ} → Option A → Bool
given none = false
given (some v) = true

abbrev pub or_given {ℓ} : {A : Type ℓ} → Option A → A → A
or_given none kept = kept
or_given (some v) kept = v

abbrev pub lowered : Option String → Option String
lowered none = none
lowered (some v) = some (to_lower v)

unfoldable pub parse_bool : String → Option Bool
parse_bool v =
    let t = tidy v in
    if t == "1" || t == "true" || t == "yes" || t == "on"
    then some true
    else if t == "0" || t == "false" || t == "no" || t == "off"
    then some false
    else none

-- A variable that is set, and one that reads as a number or a Boolean too.
abbrev pub env_text : (String → String) → String → Option String
env_text getenv name = if getenv name == "" then none else some (getenv name)

abbrev pub env_int : (String → String) → String → Option ℤ
env_int getenv name = if getenv name == "" then none else atoi (getenv name)

abbrev pub env_bool : (String → String) → String → Option Bool
env_bool getenv name = if getenv name == "" then none else parse_bool (getenv name)

-- A value that is given is set in the block, which is made when it is not there.
abbrev pub set {ℓ κ} : {O : Type ℓ} {V : Type κ} → O → (O → V → O) → Option V → Option O → Option O
set zero f none block = block
set zero f (some v) none = some (f zero v)
set zero f (some v) (some o) = some (f o v)

abbrev pub no_masque_options : MasqueOptions
no_masque_options = record {
  sni = "";
  connect_port = pos 0;
  use_ipv6 = false;
  mtu = pos 0;
  initial_packet_size = 0;
  keep_alive_period_seconds = pos 0;
  reconnect_delay_millis = pos 0;
}

unfoldable pub is_zero_masque_options : MasqueOptions → Bool
is_zero_masque_options o =
    o.sni == ""
    && is_zero o.connect_port
    && not o.use_ipv6
    && is_zero o.mtu
    && nat_eq o.initial_packet_size 0
    && is_zero o.keep_alive_period_seconds
    && is_zero o.reconnect_delay_millis

-- `uint16(size)` for a size in range.
abbrev uint16_size : Option ℤ → Option ℕ
uint16_size none = none
uint16_size (some (pos n)) = if leb n 65535 then some n else none
uint16_size (some (negsuc n)) = none

abbrev drop_zero_masque : Bool → Option MasqueOptions → Option MasqueOptions
drop_zero_masque touched none = none
drop_zero_masque touched (some o) = if not touched && is_zero_masque_options o then none else some o

unfoldable pub apply_masque_env : (String → String) → Option MasqueOptions → Option MasqueOptions
apply_masque_env getenv o0 =
    let sni = env_text getenv "CFWARP_MASQUE_SNI" in
    let port = env_int getenv "CFWARP_MASQUE_CONNECT_PORT" in
    let ipv6 = env_bool getenv "CFWARP_MASQUE_USE_IPV6" in
    let mtu = env_int getenv "CFWARP_MASQUE_MTU" in
    let size = uint16_size (env_int getenv "CFWARP_MASQUE_INITIAL_PACKET_SIZE") in
    let alive = env_int getenv "CFWARP_MASQUE_KEEPALIVE_SECONDS" in
    let delay = env_int getenv "CFWARP_MASQUE_RECONNECT_DELAY_MILLIS" in
    let touched =
      given sni
      || given port
      || given ipv6
      || given mtu
      || given size
      || given alive
      || given delay in
    let z = no_masque_options in
    let o1 = set z (λ o v. record o { sni = v }) sni o0 in
    let o2 = set z (λ o v. record o { connect_port = v }) port o1 in
    let o3 = set z (λ o v. record o { use_ipv6 = v }) ipv6 o2 in
    let o4 = set z (λ o v. record o { mtu = v }) mtu o3 in
    let o5 = set z (λ o v. record o { initial_packet_size = v }) size o4 in
    let o6 = set z (λ o v. record o { keep_alive_period_seconds = v }) alive o5 in
    let o7 = set z (λ o v. record o { reconnect_delay_millis = v }) delay o6 in
    drop_zero_masque touched o7

abbrev no_caps : CapsOptions
no_caps = record { interval_seconds = pos 0; checks = [] }

abbrev env_check : String → CapCheck
env_check probe = record {
  probe = probe;
  required = false;
  rotate_on_fail = true;
  timeout_seconds = pos 15;
}

unfoldable pub env_checks : List String → List CapCheck
env_checks [] = []
env_checks (part ∷ parts) =
    let rest = env_checks parts in if tidy part == "" then rest else env_check (tidy part) ∷ rest

unfoldable pub apply_caps_env : (String → String) → Option CapsOptions → Option CapsOptions
apply_caps_env getenv c0 =
    let c1 =
      set no_caps (λ c v. record c { interval_seconds = v })
        (env_int getenv "CFWARP_CAPS_INTERVAL_SECONDS") c0 in
    set no_caps (λ c v. record c { checks = env_checks (split_commas v) })
      (env_text getenv "CFWARP_CAPS_CHECKS") c1

abbrev no_dns : DnsOptions
no_dns = record { mode = ""; server = ""; server_port = pos 0; path = ""; strategy = "" }

abbrev drop_zero_dns : Option DnsOptions → Option DnsOptions
drop_zero_dns none = none
drop_zero_dns (some d) = if zero_dns d then none else some d

unfoldable pub apply_dns_env : (String → String) → Option DnsOptions → Option DnsOptions
apply_dns_env getenv d0 =
    let z = no_dns in
    let d1 = set z (λ d v. record d { mode = v }) (env_text getenv "CFWARP_DNS_MODE") d0 in
    let d2 = set z (λ d v. record d { server = v }) (env_text getenv "CFWARP_DNS_SERVER") d1 in
    let d3 =
      set z (λ d v. record d { server_port = v }) (env_int getenv "CFWARP_DNS_SERVER_PORT") d2 in
    let d4 = set z (λ d v. record d { path = v }) (env_text getenv "CFWARP_DNS_PATH") d3 in
    drop_zero_dns
      (set z (λ d v. record d { strategy = v }) (env_text getenv "CFWARP_DNS_STRATEGY") d4)

abbrev no_rotation : RotationOptions
no_rotation = record {
  enabled = false;
  max_attempts_per_incident = pos 0;
  settle_time_seconds = pos 0;
  cooldown_seconds = pos 0;
  restore_last_good = false;
  enroll_masque = false;
  distinctness = "";
  history_size = pos 0;
}

unfoldable pub apply_rotation_env :
    (String → String) → Option RotationOptions → Option RotationOptions
apply_rotation_env getenv r0 =
    let z = no_rotation in
    let enabled = env_bool getenv "CFWARP_ROTATION_ENABLED" in
    let attempts = env_int getenv "CFWARP_ROTATION_MAX_ATTEMPTS_PER_INCIDENT" in
    let settle = env_int getenv "CFWARP_ROTATION_SETTLE_TIME_SECONDS" in
    let cooldown = env_int getenv "CFWARP_ROTATION_COOLDOWN_SECONDS" in
    let restore = env_bool getenv "CFWARP_ROTATION_RESTORE_LAST_GOOD" in
    let enroll = env_bool getenv "CFWARP_ROTATION_ENROLL_MASQUE" in
    let distinctness = Opt.map tidy (env_text getenv "CFWARP_ROTATION_DISTINCTNESS") in
    let size = env_int getenv "CFWARP_ROTATION_HISTORY_SIZE" in
    let r1 = set z (λ r v. record r { enabled = v }) enabled r0 in
    let r2 = set z (λ r v. record r { max_attempts_per_incident = v }) attempts r1 in
    let r3 = set z (λ r v. record r { settle_time_seconds = v }) settle r2 in
    let r4 = set z (λ r v. record r { cooldown_seconds = v }) cooldown r3 in
    let r5 = set z (λ r v. record r { restore_last_good = v }) restore r4 in
    let r6 = set z (λ r v. record r { enroll_masque = v }) enroll r5 in
    let r7 = set z (λ r v. record r { distinctness = v }) distinctness r6 in
    set z (λ r v. record r { history_size = v }) size r7

unfoldable pub apply_daemon_env : (String → String) → Option DaemonOptions → Option DaemonOptions
apply_daemon_env getenv d =
    set (record { control_socket = "" }) (λ d v. record d { control_socket = v })
      (env_text getenv "CFWARP_DAEMON_CONTROL_SOCKET") d
