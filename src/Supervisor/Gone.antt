-- ===== src/Supervisor/Gone.antt =====
-- After `Stop` the process is gone.
use Prim.Native.Nat.{◌+◌, ◌≤◌}
use cfwarp_cli.Prelude.{
  ℕ, zero, suc, ◌≡◌, refl, Bool, true, false, none, some, Option, ◌*◌, ℤ, is_positive, ltb, arith,
  if_cases, if_elim,
}
use cfwarp_cli.State.Account.{Time}
use cfwarp_cli.Supervisor.{
  ProcessHost, stop_timeout, poll_interval, Stopped, Call, is_running, poll, final_polls, reaped,
  waited, after_poll, await, terminated, stop, returned, out_of_fuel, blocked,
}

-- A world reached by sleeping.
pub data Later {W : Type 0} (host : ProcessHost W) : W → W → Type 0 where
  now_already : {w : W} → Later host w w
  slept : {w v : W} (d : ℕ) → Later host w v → Later host w (host.sleep d v)

-- What the operating system promises: the clock goes on, a process that cannot be signalled is gone,
-- and one that was killed and waited for does not answer three seconds after that.
pub record IsSystem {W : Type 0} (host : ProcessHost W) : Type 0 where
  pub goes_on : (w : W) → (host.now w).0 ≤ (host.now (host.now w).1).0
  pub reap_goes_on : (w w' : W) → host.reap w ≡ some w' → (host.now w).0 ≤ (host.now w').0
  pub sleeps : (d : ℕ) (w : W) → (host.now w).0 + d ≤ (host.now (host.sleep d w)).0
  pub unsignalled :
      (w : W) → (host.terminate w).0 ≡ false → host.answers (host.terminate w).1 ≡ false
  pub dies :
      (w w' v : W)
      → host.reap (host.kill w) ≡ some w'
      → Later host w' v
      → (host.now w').0 + 3000000000 ≤ (host.now v).0
      → host.answers v ≡ false

module _ {W : Type 0} (host : ProcessHost W) (system : IsSystem host) (pid : ℤ) where
  abbrev pub Gone : W → Type 0
  Gone w = is_running host pid w ≡ false

  -- The call has returned and the process is gone, or it blocks in a `Wait`.
  abbrev pub Ended : Call W Stopped → Type 0
  Ended (returned s, w) = Gone w
  Ended (out_of_fuel, w) = ⊥
  Ended (blocked, w) = host.reap w ≡ none

  silent-Gone : (w : W) → host.answers w ≡ false → Gone w
  unfolding is_running
  silent-Gone w e = ground (arith, e)

  unfound-Gone : (w : W) → host.finds w ≡ false → Gone w
  unfolding is_running
  unfound-Gone w e = ground (arith, e)

  no_pid-Gone : (w : W) → is_positive pid ≡ false → Gone w
  unfolding is_running
  no_pid-Gone w e = ground (arith, e)

  -- With `n` polls left, which reach three seconds after the process was waited for.
  final_polls-Gone :
      (n : ℕ) (start w' w : W)
      → host.reap (host.kill start) ≡ some w'
      → Later host w' w
      → (host.now w').0 + 3000000000 ≤ (host.now w).0 + n * poll_interval
      → Gone (final_polls host n pid w)
  unfolding final_polls
  final_polls-Gone zero start w' w e later h =
      silent-Gone w (system.dies start w' w e later (omega (arith, h)))
  final_polls-Gone (suc n) start w' w e later h =
      let next = host.sleep poll_interval w in
      if_cases Gone (is_running host pid next)
        (λ _.
          final_polls-Gone n start w' next e (slept poll_interval later)
            (omega (arith, h, system.sleeps poll_interval w)))
        (λ gone. gone)

  waited-Ended :
      (w : W) (r : Option W) → host.reap (host.kill w) ≡ r → Ended (waited host pid (host.kill w) r)
  waited-Ended w none e = e
  waited-Ended w (some w') e = final_polls-Gone 30 w w' w' e now_already (omega arith)

  -- The polls end: with the process gone, with the deadline passed, or in a `Wait` that blocks.
  abbrev pub Polled : Call W Bool → Type 0
  Polled (returned true, w) = Gone w
  Polled (returned false, w) = Unit
  Polled (out_of_fuel, w) = ⊥
  Polled (blocked, w) = host.reap w ≡ none

  reaped-Polled :
      (w : W) (r : Option W) (again : W → Call W Bool)
      → host.reap w ≡ r
      → ((w' : W) → host.reap w ≡ some w' → Polled (again w'))
      → Polled (reaped host pid w r again)
  reaped-Polled w none again e h = e
  reaped-Polled w (some w') again e h =
      if_cases Polled (is_running host pid w') (λ _. h w' e) (λ gone. gone)

  poll-Polled :
      (n : ℕ) (deadline : Time) (w : W)
      → deadline ≤ (host.now w).0 + n
      → Polled (poll host (suc n) pid deadline w)
  unfolding poll
  poll-Polled zero deadline w h =
      if_cases Polled (ltb (host.now w).0 deadline) (λ e. ground (arith, e, h)) (λ _. tt)
  poll-Polled (suc n) deadline w h =
      let w1 = (host.now w).1 in
      if_elim Polled (ltb (host.now w).0 deadline)
        (reaped-Polled w1 (host.reap w1) _ refl (λ w2 e.
          poll-Polled n deadline (host.sleep poll_interval w2) (
            omega (
              arith,
              h,
              system.goes_on w,
              system.reap_goes_on w1 w2 e,
              system.sleeps poll_interval w2,
            ))))
        tt

  after_poll-Ended : (x : Call W Bool) → Polled x → Ended (after_poll host pid x)
  after_poll-Ended (out_of_fuel, w) h = h
  after_poll-Ended (blocked, w) h = h
  after_poll-Ended (returned true, w) h = h
  after_poll-Ended (returned false, w) h = waited-Ended w (host.reap (host.kill w)) refl

  terminated-Ended :
      (b : Bool) (w : W) → (b ≡ false → host.answers w ≡ false) → Ended (terminated host pid b w)
  unfolding await
  terminated-Ended false w h = silent-Gone w (h refl)
  terminated-Ended true w h =
      let (t, w1) = host.now w in
      after_poll-Ended (poll host (suc (suc stop_timeout)) pid (t + stop_timeout) w1)
        (poll-Polled (suc stop_timeout) (t + stop_timeout) w1 (omega (arith, system.goes_on w)))

  -- On a system whose clock goes on, where a process that cannot be signalled is gone and one that was
  -- killed and waited for does not answer three seconds after that: stopping a process returns, and the
  -- process of the number does not run then, unless it blocks in a `Wait` that does not return, which
  -- may be before the process is killed.
  pub stop-Ended : (w : W) → Ended (stop host pid w)
  unfolding stop
  stop-Ended w =
      if_cases Ended (is_positive pid)
        (λ _.
          if_cases Ended (is_running host pid w)
            (λ _.
              if_cases Ended (host.finds w)
                (λ _.
                  terminated-Ended (host.terminate w).0 (host.terminate w).1 (system.unsignalled w))
                (λ e. unfound-Gone w e))
            (λ gone. gone))
        (λ e. no_pid-Gone w e)
