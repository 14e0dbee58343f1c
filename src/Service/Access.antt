-- ===== src/Service/Access.antt =====
-- cmd/access_helpers.go, and `netProbe` and `waitForPrimaryAccess` of cmd/daemon.go: the listener that
-- the probes go through. Durations are in nanoseconds.
use Prim.Native.Nat.{◌+◌, ◌-◌, ◌*◌, ◌%◌, ◌^◌}
use cfwarp_cli.Prelude.{
  ℕ, zero, suc, Bool, true, false, ◌||◌, String, ◌==◌, Option, none, some, List, [], ◌∷◌, ℤ, pos,
  negsuc, pos_part, to_int, ltb, if◌then◌else◌, trim_space,
}
use cfwarp_cli.Prelude.Net.{split_host_port, atoi}
use cfwarp_cli.State.Account.{Time}
use cfwarp_cli.State.Settings.{Settings, AccessConfig, mode_socks5, mode_http}
use cfwarp_cli.State.Settings.Normalize.{normalize}
use cfwarp_cli.Service.Action.{no_proxy_access, Result, ok, err}
use cfwarp_cli.Service.Host.{Host, ProbeTarget}

unfoldable pub first_proxy : List AccessConfig → Result AccessConfig
first_proxy [] = err no_proxy_access
first_proxy (a ∷ rest) =
    if a.type == mode_socks5 || a.type == mode_http then ok a else first_proxy rest

unfoldable pub first_proxy_access : Settings → Result AccessConfig
first_proxy_access sett = first_proxy (normalize sett).access

-- The address to dial for a listener's.
unfoldable pub dial_host : String → String
dial_host host =
    let trimmed = trim_space host in
    if trimmed == "" || trimmed == "0.0.0.0"
    then "127.0.0.1"
    else if trimmed == "::" || trimmed == "[::]"
    then "::1"
    else host

-- `time.Duration(seconds) * time.Second`, which wraps around.
unfoldable pub seconds : ℤ → ℤ
seconds s = to_int ((pos_part s * 1000000000) % 2 ^ 64)

-- `t.Add(d)`.
abbrev pub add_time : Time → ℤ → Time
add_time t (pos d) = t + d
add_time t (negsuc d) = t - suc d

abbrev pub half_second : ℕ
half_second = 500000000

module _ {W : Type 0} (host : Host W) where
  unfoldable pub target_of : AccessConfig → ProbeTarget
  target_of access = record {
    type = access.type;
    address =
        host.join_host_port (dial_host access.listen_host) (host.print_int access.listen_port);
    username = access.username;
    password = access.password;
  }

  abbrev pub map_result : {A B : Type 0} → (A → B) → Result A → Result B
  map_result f (ok a) = ok (f a)
  map_result f (err e) = err e

  unfoldable pub probe_target_from_settings : Settings → Result ProbeTarget
  probe_target_from_settings sett = map_result target_of (first_proxy_access sett)

  -- The probe of a host and a port that is written out.
  abbrev pub probe_port : String → Option ℤ → W → Bool × W
  probe_port name none w = (false, w)
  probe_port name (some port) w = host.probe_local name port w

  abbrev pub probe_split : Option (String × String) → W → Bool × W
  probe_split none w = (false, w)
  probe_split (some (name, port)) w = probe_port name (atoi port) w

  unfoldable pub net_probe : AccessConfig → W → Bool × W
  net_probe access w =
      probe_split
        (split_host_port
          (host.join_host_port access.listen_host (host.print_int access.listen_port)))
        w

  -- The loop until `end`: `none` when the fuel is used up.
  unfoldable pub wait_until : ℕ → Time → (W → Bool × W) → W → Option Bool × W
  wait_until zero end probe w = (none, w)
  wait_until (suc fuel) end probe w =
      let (t, w1) = host.now w in
      let (reached, w2) = probe w1 in
      let again = wait_until fuel end probe (host.sleep half_second w2) in
      if ltb t end then if reached then (some true, w2) else again else (some false, w1)

  -- The rounds that a deadline leaves time for, with the one that finds it has passed.
  unfoldable pub rounds : ℤ → ℕ
  rounds deadline = suc (suc (pos_part deadline))

  abbrev pub was_reached : Option Bool → Bool
  was_reached none = false
  was_reached (some b) = b

  unfoldable pub wait_for : (W → Bool × W) → ℤ → W → Option Bool × W
  wait_for probe deadline w =
      let (t, w1) = host.now w in wait_until (rounds deadline) (add_time t deadline) probe w1

  abbrev pub wait_access : ℤ → Result AccessConfig → W → Bool × W
  wait_access deadline (err e) w = (false, w)
  wait_access deadline (ok access) w =
      let (r, w') = wait_for (net_probe access) deadline w in (was_reached r, w')

  unfoldable pub wait_for_primary_access : Settings → ℤ → W → Bool × W
  wait_for_primary_access sett deadline w = wait_access deadline (first_proxy_access sett) w

  -- `waitForProxyReachable` of cmd/runtime_helpers.go.
  unfoldable pub wait_for_proxy_reachable : Settings → ℤ → W → Bool × W
  wait_for_proxy_reachable sett deadline w =
      let (r, w') = wait_for (host.probe_local sett.listen_host sett.listen_port) deadline w in
      (was_reached r, w')
