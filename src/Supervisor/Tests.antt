-- ===== src/Supervisor/Tests.antt =====
-- Stopping a process that ignores SIGTERM.
use Prim.Native.Nat.{◌+◌, ◌≤◌}
use cfwarp_cli.Prelude.{
  ◌≡◌, refl, sym, ap, ◌∙◌, ℕ, Bool, true, false, Option, none, some, ltb, pos, arith,
}
use cfwarp_cli.Supervisor.{ProcessHost, blocked, is_running, poll, await, stop}
use cfwarp_cli.Supervisor.Gone.{IsSystem, Later, now_already, slept, Ended, stop-Ended}

-- The clock, and the time at which the process ends, once it is killed.
pub record World : Type 0 where
  pub time : ℕ
  pub ends : Option ℕ

abbrev lives : Option ℕ → ℕ → Bool
lives none t = true
lives (some end) t = ltb t end

-- A process that is no child, so that no `Wait` blocks, and that ends a second after it is killed.
abbrev host : ProcessHost World
host = record {
  now = λ w. (w.time, w);
  sleep = λ d w. record w { time = w.time + d };
  finds = λ w. true;
  answers = λ w. lives w.ends w.time;
  terminate = λ w. (lives w.ends w.time, w);
  kill = λ w. record w { ends = some (w.time + 1000000000) };
  reap = λ w. some w;
}

ends-Later : (w v : World) → Later host w v → v.ends ≡ w.ends
ends-Later w v now_already = refl
ends-Later w v (slept d later) = ends-Later w _ later

ended_later :
    (t : ℕ) (w' v : World)
    → some (record { time = t; ends = some (t + 1000000000) }) ≡ some w'
    → v.ends ≡ w'.ends
    → w'.time + 3000000000 ≤ v.time
    → lives v.ends v.time ≡ false
ended_later t w' v e f h =
    let same : record { time = t; ends = some (t + 1000000000) } ≡ w' =
      ap (λ o. elim o [ none ↦ w' | some x ↦ x ]) e in
    let dated : t ≡ w'.time = ap (λ (w : World). w.time) same in
    let ending : v.ends ≡ some (t + 1000000000) = f ∙ sym (ap (λ (w : World). w.ends) same) in
    rw (ending) (ground (arith, h, dated))

host-IsSystem : IsSystem host
host-IsSystem = record {
  goes_on = λ w. omega arith;
  reap_goes_on = λ w w' e. ground (arith, e);
  sleeps = λ d w. omega arith;
  unsignalled = λ w e. e;
  dies = λ w w' v e later h. ended_later w.time w' v e (ends-Later w' v later) h;
}

abbrev world : World
world = record { time = 3; ends = none }

stop-Ended_example : Ended host host-IsSystem (pos 41) (stop host (pos 41) world)
stop-Ended_example = stop-Ended host host-IsSystem (pos 41) world

-- A child that ignores SIGTERM: the first `Wait` blocks, and no SIGKILL follows.
abbrev parent : ProcessHost World
parent = record host { reap = λ w. none }

stuck : stop parent (pos 41) world ≡ (blocked, world)
unfolding stop is_running await poll
stuck = refl
